-- ===== src/Jobs/LoneWorker.antt =====
-- `scan` of services/api/src/notifications/lone-worker.service.ts, which looks for devices that
-- stand still or are silent. Times are milliseconds, speeds thousandths of a km/h, ids numbers;
-- the texts of the alerts are left out.
pub mod Alerts
pub mod Cooldown
pub mod Silence
use fleex.Common.Keys.{Key, is_claimed}
use fleex.Common.{
  ℕ, ◌+◌, ◌-◌, ◌*◌, ◌/◌, ℤ, Bool, true, false, not, ◌&&◌, ◌||◌, Option, none, some, List, [], ◌∷◌,
  ◌++◌, any, ltb, leb, ◌==◌, if◌then◌else◌,
}

abbrev pub offline_risk_ms : ℕ
offline_risk_ms = 2 * 60 * 60_000

abbrev pub stationary_risk_ms : ℕ
stationary_risk_ms = 2 * 60 * 60_000

-- `COOLDOWN_SECONDS`, in milliseconds.
abbrev pub cooldown_ms : ℕ
cooldown_ms = 6 * 60 * 60 * 1000

abbrev pub shift_start : ℕ
shift_start = 6

abbrev pub shift_end : ℕ
shift_end = 22

pub record Asset : Type 0 where
  pub id : ℕ
  pub company_id : ℕ
  pub active : Bool
  pub driver_id : Option ℕ
  pub last_position : Option (ℤ × ℤ)
  pub last_speed : Option ℕ
  pub last_seen_at : Option ℕ

pub data Reason : Type 0 where
  offline_2h stationary_2h : Reason

-- The event that is stored and published.
pub record Alert : Type 0 where
  pub company_id : ℕ
  pub device_id : ℕ
  pub reason : Reason
  pub minutes : ℕ
  pub position : Option (ℤ × ℤ)
  pub occurred_at : ℕ

abbrev pub has_driver : Option ℕ → Bool
has_driver none = false
has_driver (some d) = true

abbrev pub is_watched : Asset → Bool
is_watched a = a.active && has_driver a.driver_id

-- A device never seen, or seen at the time 0, has not been silent.
abbrev pub offline_ms : ℕ → Option ℕ → ℕ
offline_ms now none = 0
offline_ms now (some seen) = if seen == 0 then 0 else now - seen

abbrev pub is_stationary : Option ℕ → Bool
is_stationary none = true
is_stationary (some speed) = ltb speed 1000

abbrev pub stationary_ms : ℕ → Asset → ℕ
stationary_ms now a = if is_stationary a.last_speed then offline_ms now a.last_seen_at else 0

unfoldable pub reason_of : ℕ → Asset → Option Reason
reason_of now a =
    if leb offline_risk_ms (offline_ms now a.last_seen_at)
    then some offline_2h
    else if leb stationary_risk_ms (stationary_ms now a)
    then some stationary_2h
    else none

abbrev pub alert_of : ℕ → Asset → Reason → Alert
alert_of now a reason = record {
  company_id = a.company_id;
  device_id = a.id;
  reason = reason;
  minutes = (offline_ms now a.last_seen_at + 30_000) / 60_000;
  position = a.last_position;
  occurred_at = now;
}

-- The keys, and the alerts that went out.
pub record Tick : Type 0 where
  pub claims : List Key
  pub alerts : List Alert

-- `publishes` is whether the event of a device is stored and published without an exception, which
-- is logged and nothing else.
module _ (publishes : ℕ → Bool) where
  abbrev pub publish_risk : Alert → List Alert → List Alert
  publish_risk alert alerts = if publishes alert.device_id then alert ∷ alerts else alerts

  -- `tryClaimCooldown` (SET with EX and NX), and the alert if the key was free.
  abbrev pub claim_and_publish : ℕ → Asset → Option Reason → Tick → Tick
  claim_and_publish now a none t = t
  claim_and_publish now a (some reason) t = if is_claimed now a.id t.claims then t else record {
    claims = record { id = a.id; expires_at = now + cooldown_ms } ∷ t.claims;
    alerts = publish_risk (alert_of now a reason) t.alerts;
  }

  unfoldable pub scan_asset : ℕ → Asset → Tick → Tick
  unfolding reason_of
  scan_asset now a t = if is_watched a then claim_and_publish now a (reason_of now a) t else t

  unfoldable pub scan_assets : ℕ → List Asset → Tick → Tick
  unfolding scan_asset
  scan_assets now [] t = t
  scan_assets now (a ∷ assets) t = scan_assets now assets (scan_asset now a t)

  -- `scan` at a time and an hour of the day; the alerts come out with the last one first.
  unfoldable pub scan : ℕ → ℕ → List Asset → List Key → Tick
  unfolding scan_assets
  scan now hour assets claims =
      if ltb hour shift_start || leb shift_end hour
      then record { claims = claims; alerts = [] }
      else scan_assets now assets (record { claims = claims; alerts = [] })

-- A scan of a series: its time, its hour, the devices of then and whose events go through.
pub record Round : Type 0 where
  pub now : ℕ
  pub hour : ℕ
  pub assets : List Asset
  pub publishes : ℕ → Bool

-- The alerts of a series of scans.
unfoldable pub run_scans : List Round → List Key → List Alert
unfolding scan
run_scans [] claims = []
run_scans (r ∷ rs) claims =
    let t = scan r.publishes r.now r.hour r.assets claims in t.alerts ++ run_scans rs t.claims
