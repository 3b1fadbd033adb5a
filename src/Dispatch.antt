-- ===== src/Dispatch.antt =====
-- The routing of services/api/src/notifications/notification-dispatcher.service.ts: the cache of
-- rules, the match of a rule with an event, the channels that a rule sends on, and the broadcast
-- of a panic. Recipients, ids and kinds of events are numbers, and the text of a message is left
-- out.
pub mod Routing
pub mod Consumer
mod Tests
use fleex.Common.{
  ℕ, ◌-◌, ◌*◌, ℤ, Bool, true, false, not, ◌&&◌, ◌||◌, Option, none, some, List, [], ◌∷◌, ◌++◌, map,
  filter, upsert, any, ltb, leb, ◌==◌, is_id, contains, if◌then◌else◌,
}

pub data Channel : Type 0 where
  in_app email sms webhook telegram push whatsapp viber : Channel

-- A severity that SEVERITY_RANK does not list counts as the least.
pub data Severity : Type 0 where
  info warning critical unlisted : Severity

abbrev pub severity_rank : Severity → ℕ
severity_rank info = 0
severity_rank warning = 1
severity_rank critical = 2
severity_rank unlisted = 0

abbrev pub channel_code : Channel → ℕ
channel_code in_app = 0
channel_code email = 1
channel_code sms = 2
channel_code webhook = 3
channel_code telegram = 4
channel_code push = 5
channel_code whatsapp = 6
channel_code viber = 7

-- A rule of the table. `webhook_url` has one entry, or none where the column is empty.
pub record Rule : Type 0 where
  pub id : ℕ
  pub company_id : ℕ
  pub active : Bool
  pub trigger_type : ℕ
  pub min_severity : Severity
  pub device_ids : List ℕ
  pub geofence_ids : List ℕ
  pub place_ids : List ℕ
  pub channels : List Channel
  pub emails : List ℕ
  pub phones : List ℕ
  pub webhook_url : List ℕ
  pub telegrams : List ℕ
  pub pushes : List ℕ
  pub whatsapps : List ℕ
  pub vibers : List ℕ

pub record EventEnvelope : Type 0 where
  pub company_id : ℕ
  pub device_id : ℕ
  pub geofence_id : Option ℕ
  pub type : ℕ
  pub severity : Severity
  pub position : Option (ℤ × ℤ)

-- A send on a channel: the recipients, and the rule that asks for it, if one does.
pub record Job : Type 0 where
  pub rule : Option Rule
  pub channel : Channel
  pub recipients : List ℕ

-- The rules of one company in the cache.
pub record Group : Type 0 where
  pub company_id : ℕ
  pub rules : List Rule

abbrev pub is_company : ℕ → Group → Bool
is_company company g = g.company_id == company

abbrev pub push_rule : Rule → List Group → List Group
push_rule r gs =
    upsert (is_company r.company_id) (λ g. record g { rules = g.rules ++ (r ∷ []) })
      (record { company_id = r.company_id; rules = r ∷ [] }) gs

unfoldable pub group_rules : List Group → List Rule → List Group
group_rules gs [] = gs
group_rules gs (r ∷ rs) = group_rules (push_rule r gs) rs

-- `refreshRules`, from all the rules of the database.
unfoldable pub refresh_rules : List Rule → List Group
unfolding group_rules
refresh_rules rules = group_rules [] (filter (λ r. r.active) rules)

abbrev pub is_empty : List ℕ → Bool
is_empty [] = true
is_empty (x ∷ xs) = false

-- A list that names nothing does not restrict, another one needs the id to be there and in it.
abbrev pub admits : List ℕ → Option ℕ → Bool
admits ids none = is_empty ids
admits ids (some a) = is_empty ids || contains ids a

unfoldable pub matches : Rule → EventEnvelope → Option ℕ → Bool
matches rule ev place =
    rule.trigger_type == ev.type
    && (leb (severity_rank rule.min_severity) (severity_rank ev.severity)
        && (admits rule.device_ids (some ev.device_id)
            && (admits rule.geofence_ids ev.geofence_id && admits rule.place_ids place)))

abbrev pub has_channel : Channel → List Channel → Bool
has_channel c cs = any (λ d. channel_code d == channel_code c) cs

abbrev pub job_if : Rule → Channel → List ℕ → List Job → List Job
job_if rule channel recipients rest =
    if has_channel channel rule.channels && not (is_empty recipients)
    then record { rule = some rule; channel = channel; recipients = recipients } ∷ rest
    else rest

-- The sends of a matched rule, in the order of the code.
unfoldable pub jobs_of : Rule → List Job
jobs_of rule = job_if rule email rule.emails (
    job_if rule sms rule.phones (
      job_if rule webhook rule.webhook_url (
        job_if rule telegram rule.telegrams (
          job_if rule push rule.pushes
            (job_if rule whatsapp rule.whatsapps (job_if rule viber rule.vibers []))))))

abbrev pub all_jobs : List Rule → List Job
all_jobs [] = []
all_jobs (r ∷ rs) = jobs_of r ++ all_jobs rs

-- `this.rulesByCompany.get`, with no rules for a company that has no entry.
abbrev pub rules_of : ℕ → List Group → List Rule
rules_of company [] = []
rules_of company (g ∷ gs) = if is_company company g then g.rules else rules_of company gs

pub record Vehicle : Type 0 where
  pub id : ℕ
  pub company_id : ℕ
  pub active : Bool
  pub last_seen_at : Option ℕ
  pub last_position : Option (ℤ × ℤ)
  pub driver_phone : Option ℕ

abbrev pub online_window : ℕ
online_window = 10 * 60_000

-- The query of `broadcastPanic`.
abbrev pub seen_since : ℕ → Option ℕ → Bool
seen_since since none = false
seen_since since (some t) = leb since t

abbrev pub is_candidate : ℕ → EventEnvelope → Vehicle → Bool
is_candidate now ev v =
    v.company_id == ev.company_id
    && (v.active && (not (v.id == ev.device_id) && seen_since (now - online_window) v.last_seen_at))

-- `near` is whether `haversineKm` finds two points within 5 km; `panic` is the kind PANIC.
module _ (near : ℤ × ℤ → ℤ × ℤ → Bool) (panic : ℕ) where
  abbrev pub is_near : ℤ × ℤ → Option (ℤ × ℤ) → Bool
  is_near here none = false
  is_near here (some there) = near here there

  abbrev pub phones_near : ℕ → EventEnvelope → ℤ × ℤ → List Vehicle → List ℕ
  phones_near now ev here [] = []
  phones_near now ev here (v ∷ vs) =
      let rest = phones_near now ev here vs in
      if is_candidate now ev v && is_near here v.last_position
      then elim v.driver_phone [ some p ↦ p ∷ rest | none ↦ rest ]
      else rest

  abbrev pub page : List ℕ → List Job
  page phones =
      if is_empty phones
      then []
      else record { rule = none; channel = sms; recipients = phones } ∷ []

  abbrev pub broadcast_at : ℕ → Bool → EventEnvelope → List Vehicle → Option (ℤ × ℤ) → List Job
  broadcast_at now sms_enabled ev vs none = []
  broadcast_at now sms_enabled ev vs (some here) =
      if sms_enabled then page (phones_near now ev here vs) else []

  unfoldable pub broadcast_panic : ℕ → Bool → EventEnvelope → List Vehicle → List Job
  broadcast_panic now sms_enabled ev vs = broadcast_at now sms_enabled ev vs ev.position

  -- `handle`: the broadcast of a panic, then the rules of the event's company that match. The
  -- place is what `lookupPlaceForGeofence` finds for the event's geofence.
  unfoldable pub handle : ℕ → Bool → List Group → List Vehicle → Option ℕ → EventEnvelope → List Job
  unfolding broadcast_panic jobs_of matches
  handle now sms_enabled groups vs place ev =
      (if ev.type == panic then broadcast_panic now sms_enabled ev vs else [])
      ++ all_jobs (filter (λ r. matches r ev place) (rules_of ev.company_id groups))
