-- ===== src/Workshop/Prediction.antt =====
-- `upcomingPredictions` of services/api/src/service-tasks/service-tasks.module.ts: when a vehicle
-- reaches the odometer of a task at its average of the last 30 days. Distances are whole metres,
-- times milliseconds; the texts and the columns that are passed on are left out, and so is the
-- order, which is the database's.
pub mod Meaning
use fleex.Common.{
  ℕ, ◌+◌, ◌-◌, ◌*◌, ◌/◌, Bool, true, false, ◌&&◌, Option, none, some, List, [], ◌∷◌, map, filter,
  leb, ◌==◌, is_id, if◌then◌else◌,
}
use fleex.Common.Dates.{day_ms}
use fleex.Access.Roles.{Actor, is_super_admin}

pub data Status : Type 0 where
  planned in_progress completed cancelled overdue : Status

-- The status filter of both queries.
abbrev pub is_open : Status → Bool
is_open planned = true
is_open in_progress = true
is_open overdue = true
is_open _ = false

-- A task with the odometer of its device and what the device's trips of the last 30 days add up
-- to, if there are any.
pub record Planned : Type 0 where
  pub id : ℕ
  pub company_id : ℕ
  pub status : Status
  pub target : Option ℕ
  pub odometer : Option ℕ
  pub distance_30d : Option ℕ

abbrev pub or_zero : Option ℕ → ℕ
or_zero none = 0
or_zero (some n) = n

abbrev pub is_some : Option ℕ → Bool
is_some none = false
is_some (some n) = true

abbrev pub remaining : Planned → ℕ
remaining t = or_zero t.target - or_zero t.odometer

-- `Math.ceil(remainingKm / perDay)` with a thirtieth of the distance per day, if it is not 0.
unfoldable pub days_at : ℕ → ℕ → Option ℕ
days_at left distance =
    if distance == 0 then none else some ((30 * left + (distance - 1)) / distance)

unfoldable pub days_until : Planned → Option ℕ
unfolding days_at
days_until t = days_at (remaining t) (or_zero t.distance_30d)

pub data Urgency : Type 0 where
  overdue soon planned unknown : Urgency

abbrev pub urgency_of : ℕ → Option ℕ → Urgency
urgency_of left days = if left == 0 then Urgency.overdue else elim days [
  | none ↦ Urgency.unknown
  | some d ↦ if leb d 14 then Urgency.soon else Urgency.planned
]

unfoldable pub urgency : Planned → Urgency
unfolding days_until
urgency t = urgency_of (remaining t) (days_until t)

abbrev pub due_at : ℕ → Option ℕ → Option ℕ
due_at now none = none
due_at now (some days) = some (now + days * day_ms)

-- The average is in units of 100 m, rounded.
pub record Prediction : Type 0 where
  pub task_id : ℕ
  pub target : ℕ
  pub remaining : ℕ
  pub average : ℕ
  pub days_until : Option ℕ
  pub due_at : Option ℕ
  pub urgency : Urgency

unfoldable pub predict : ℕ → Planned → Prediction
unfolding days_until urgency
predict now t = record {
  task_id = t.id;
  target = or_zero t.target;
  remaining = remaining t;
  average = (or_zero t.distance_30d + 1500) / 3000;
  days_until = days_until t;
  due_at = due_at now (days_until t);
  urgency = urgency t;
}

-- The rows of the query for an actor.
abbrev pub is_listed : Actor → Planned → Bool
is_listed actor t =
    is_open t.status
    && is_some t.target
    && (if is_super_admin actor.role then true else is_id actor.company_id t.company_id)

unfoldable pub upcoming_predictions : ℕ → Actor → List Planned → List Prediction
unfolding predict
upcoming_predictions now actor tasks = map (predict now) (filter (is_listed actor) tasks)
