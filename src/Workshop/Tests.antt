-- ===== src/Workshop/Tests.antt =====
-- The theorems of Workshop at one truck and its oil change.
use mathlib.Core.List.{Memᴰ}
use fleex.Common.{
  ℕ, ◌≡◌, refl, ◌↔◌, true, false, Option, none, some, List, [], ◌∷◌, any, arith, ◌<◌,
}
use fleex.Common.Texts.{Text, codes}
use fleex.Access.Roles.{Actor, fleet_manager}
use fleex.Workshop.Prediction.{Planned, Status, days_at, urgency}
use fleex.Workshop.Reminders.{
  Company, Manager, Run, Round, due_days, run, run_company, run_slices, claim_rows, run_rounds,
}
use fleex.Workshop.Reminders.Agreement.{IsNear}
use fleex.Workshop.Reminders.Listing.{mailed_iff}
use fleex.Common.Keys.{is_claimed}
use fleex.Workshop.Reminders.Quiet.{lists}
use fleex.Workshop.Reminders.Weekly.{reminder_weekly}
use fleex.Workshop.Reminders.Failure.{failed_mail_silences}
use fleex.Workshop.Tasks.{Store, TaskDto, absent, given, jpeg}
use fleex.Workshop.Tasks.Ownership.{Call, creates, attaches, removes, IsSound, run-IsSound}
use fleex.Workshop.Tasks.Ownership

-- 1,000 km left, and 3,000 km in the last 30 days.
abbrev oil : Planned
oil = record {
  id = 70;
  company_id = 3;
  status = Status.planned;
  target = some 101_000_000;
  odometer = some 100_000_000;
  distance_30d = some 3_000_000;
}

abbrev managers : List Manager
managers = record { company_id = 3; role = fleet_manager; email = codes "a@b.mn" } ∷ []

abbrev companies : List Company
companies = record { id = 3; is_active = true } ∷ []

abbrev next_day : Round
next_day = record {
  now = 86_400_000;
  enabled = true;
  companies = companies;
  managers = managers;
  tasks = oil ∷ [];
  delivered = λ c. true;
}

reminder_weekly_example :
    any
      (lists 70)
      (run_rounds (next_day ∷ []) (run (λ c. true) managers (oil ∷ []) true 0 companies []).keys)
    ≡ false
unfolding run run_slices run_company claim_rows due_days days_at
reminder_weekly_example =
    reminder_weekly (λ c. true) managers (oil ∷ []) 70 0 true companies [] (next_day ∷ []) refl
      (omega arith, tt)

abbrev idle : Run
idle = record { keys = []; mails = []; sent = 0; threw = false }

mailed_iff_example :
    (any (lists 70) (run_company (λ c. true) managers (oil ∷ []) 0 3 idle).mails ≡ true)
    ↔ ((is_claimed 0 70 [] ≡ false) × IsNear (urgency oil) × (0 < 3_000_000))
mailed_iff_example =
    mailed_iff (λ c. true) managers (oil ∷ []) 0 3 oil idle (Memᴰ.head refl) only_oil refl refl refl
  where
    only_oil : (u : Planned) → Memᴰ u (oil ∷ []) → u.id ≡ 70 → u ≡ oil
    only_oil u (Memᴰ.head e) same = e
    only_oil u (Memᴰ.tail m) same = elim m [ ]

oil_is_due : due_days oil ≡ some 10
unfolding due_days days_at
oil_is_due = refl

failed_mail_silences_example :
    let st' = run_company (λ c. false) managers (oil ∷ []) 0 3 idle in
    (st'.threw ≡ true)
    × (st'.mails ≡ [])
    × (any (lists 70) (run_rounds (next_day ∷ []) st'.keys) ≡ false)
failed_mail_silences_example =
    failed_mail_silences (λ c. false) managers (oil ∷ []) 0 3 10 oil idle (next_day ∷ [])
      (Memᴰ.head refl) oil_is_due refl refl refl (omega arith, tt)

abbrev manager : Actor
manager = record { id = 2; role = fleet_manager; company_id = some 3; driver_id = none }

abbrev shop : Store
shop = record {
  devices = record { id = 7; company_id = 3 } ∷ record { id = 8; company_id = 4 } ∷ [];
  tasks = [];
  attachments = [];
}

abbrev parse : Text → Option ℕ
parse text = none

abbrev dto : TaskDto
dto = record {
  status = none;
  scheduled_at = absent;
  completed_at = absent;
  scheduled_odometer = given 101_000_000;
}

abbrev a_history : List (Actor × Call)
a_history =
    (manager, creates 70 7 dto)
    ∷ (manager, attaches 70 1 (some (4000, jpeg)))
    ∷ (manager, creates 71 8 dto)
    ∷ (manager, removes 70)
    ∷ []

run-IsSound_example : IsSound (Ownership.run parse shop a_history)
run-IsSound_example =
    run-IsSound parse shop a_history (refl, (refl, (refl, (refl, tt))))
      (record { owned = tt; attached = tt })
