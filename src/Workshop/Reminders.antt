-- ===== src/Workshop/Reminders.antt =====
-- services/api/src/service-tasks/service-reminder-cron.service.ts: the daily mail of tasks that
-- are due within 14 days. The text of the mail is left out but for the rows that it lists. The
-- companies of a slice run at the same time; they set keys of different tasks, so they stand one
-- after the other here.
pub mod Agreement
pub mod Quiet
pub mod Listing
pub mod Weekly
pub mod Failure
use fleex.Common.{
  ℕ, zero, suc, ◌+◌, ◌*◌, Bool, true, false, not, ◌&&◌, ◌||◌, Option, none, some, List, [], ◌∷◌,
  ◌++◌, any, filter, map, length, ltb, ◌==◌, if◌then◌else◌,
}
use fleex.Common.Keys.{Key, is_claimed}
use fleex.Common.Texts.{Text}
use fleex.Access.Roles.{Role, company_admin, fleet_manager}
use fleex.Workshop.Prediction.{Planned, is_open, is_some, or_zero, remaining, days_at}

abbrev pub remind_within_days : ℕ
remind_within_days = 14

-- `COOLDOWN_DAYS`, in milliseconds.
abbrev pub cooldown_ms : ℕ
cooldown_ms = 7 * 86_400 * 1000

-- `COMPANY_TICK_CONCURRENCY`
abbrev pub concurrency : ℕ
concurrency = 4

pub record Company : Type 0 where
  pub id : ℕ
  pub is_active : Bool

pub record Manager : Type 0 where
  pub company_id : ℕ
  pub role : Role
  pub email : Text

pub record Row : Type 0 where
  pub task_id : ℕ
  pub days_until : ℕ
  pub remaining : ℕ

pub record Mail : Type 0 where
  pub to : List Text
  pub rows : List Row

abbrev pub is_manager : Role → Bool
is_manager company_admin = true
is_manager fleet_manager = true
is_manager _ = false

abbrev pub is_empty {ℓ} : {A : Type ℓ} → List A → Bool
is_empty [] = true
is_empty (x ∷ xs) = false

abbrev pub recipients : ℕ → List Manager → List Text
recipients company ms =
    map (λ m. m.email)
      (filter (λ m. (m.company_id == company && is_manager m.role) && not (is_empty m.email)) ms)

abbrev pub company_tasks : ℕ → List Planned → List Planned
company_tasks company =
    filter (λ t. (t.company_id == company && is_open t.status) && is_some t.target)

abbrev pub within : Option ℕ → Option ℕ
within none = none
within (some days) = if ltb remind_within_days days then none else some days

-- The days that a task is listed with, unless the loop goes on to the next one.
unfoldable pub due_days : Planned → Option ℕ
due_days t = within (days_at (remaining t) (or_zero t.distance_30d))

pub record Claimed : Type 0 where
  pub keys : List Key
  pub rows : List Row

abbrev pub claim_row : ℕ → Planned → Option ℕ → Claimed → Claimed
claim_row now t none c = c
claim_row now t (some days) c = if is_claimed now t.id c.keys then c else record {
  keys = record { id = t.id; expires_at = now + cooldown_ms } ∷ c.keys;
  rows = c.rows ++ (record { task_id = t.id; days_until = days; remaining = remaining t } ∷ []);
}

unfoldable pub claim_rows : ℕ → List Planned → Claimed → Claimed
unfolding due_days
claim_rows now [] c = c
claim_rows now (t ∷ ts) c = claim_rows now ts (claim_row now t (due_days t) c)

-- `dueRows.sort` by the days, which is stable.
abbrev pub insert_row : Row → List Row → List Row
insert_row r [] = r ∷ []
insert_row r (s ∷ rows) =
    if ltb s.days_until r.days_until then s ∷ insert_row r rows else r ∷ s ∷ rows

abbrev pub sort_rows : List Row → List Row
sort_rows [] = []
sort_rows (r ∷ rows) = insert_row r (sort_rows rows)

-- The keys, the mails that went out with the last one first, `totalSent`, and whether a company's
-- run threw.
pub record Run : Type 0 where
  pub keys : List Key
  pub mails : List Mail
  pub sent : ℕ
  pub threw : Bool

abbrev pub send_rows : Bool → List Text → List Key → List Row → Run → Run
send_rows delivered to keys [] st = record st { keys = keys }
send_rows true to keys (r ∷ rows) st = record st {
  keys = keys;
  mails = record { to = to; rows = sort_rows (r ∷ rows) } ∷ st.mails;
  sent = st.sent + length (r ∷ rows);
}
send_rows false to keys (r ∷ rows) st = record st { keys = keys; threw = true }

-- `delivered` is whether the mail of a company goes through.
module _ (delivered : ℕ → Bool) (managers : List Manager) (tasks : List Planned) where
  abbrev pub remind : ℕ → ℕ → List Text → Run → Run
  remind now company to st =
      let c = claim_rows now (company_tasks company tasks) (record { keys = st.keys; rows = [] }) in
      send_rows (delivered company) to c.keys c.rows st

  unfoldable pub run_company : ℕ → ℕ → Run → Run
  unfolding claim_rows
  run_company now company st =
      if is_empty (company_tasks company tasks)
      then st
      else if is_empty (recipients company managers)
      then st
      else remind now company (recipients company managers) st

  -- The loop over the slices: the number of companies that the slice still takes, and the rest. A
  -- throw ends the loop after its slice.
  unfoldable pub run_slices : ℕ → ℕ → List Company → Run → Run
  unfolding run_company
  run_slices now room [] st = st
  run_slices now zero (c ∷ cs) st =
      if st.threw then st else run_slices now 3 cs (run_company now c.id st)
  run_slices now (suc room) (c ∷ cs) st = run_slices now room cs (run_company now c.id st)

  unfoldable pub run : Bool → ℕ → List Company → List Key → Run
  unfolding run_slices
  run enabled now companies keys =
      let idle : Run = record { keys = keys; mails = []; sent = 0; threw = false } in
      if enabled then run_slices now 0 (filter (λ c. c.is_active) companies) idle else idle

-- A run of a series, with the rows of then.
pub record Round : Type 0 where
  pub now : ℕ
  pub enabled : Bool
  pub companies : List Company
  pub managers : List Manager
  pub tasks : List Planned
  pub delivered : ℕ → Bool

abbrev pub run_round : Round → List Key → Run
run_round r = run r.delivered r.managers r.tasks r.enabled r.now r.companies

-- The mails of a series of runs.
unfoldable pub run_rounds : List Round → List Key → List Mail
unfolding run
run_rounds [] keys = []
run_rounds (r ∷ rs) keys = let st = run_round r keys in st.mails ++ run_rounds rs st.keys
