-- ===== src/Reports/Daily.antt =====
-- `buildDailySummary` and `computeFuelConsumption` of services/api/src/reports/report-builders.ts.
-- The number of the UTC day stands for the text of its date, and orders as that text does for the
-- years of four digits.
pub mod Conservation
pub mod Order
use fleex.Common.{
  ℕ, ◌+◌, ◌*◌, ◌/◌, Bool, true, false, Option, none, some, List, [], ◌∷◌, map, max, ltb, ◌==◌,
  upsert, if◌then◌else◌,
}
use fleex.Common.Dates.{day_ms}
use fleex.Reports.Positions.{
  RawPosition, speed_of, distance_of, is_moving, elapsed, counts, has_ignition_signal, inherit,
}

pub record DailySummary : Type 0 where
  pub date : ℕ
  pub distance : ℕ
  pub moving : ℕ
  pub idle : ℕ
  pub engine_on : ℕ
  pub max_speed : ℕ
  pub first_at : ℕ
  pub last_at : ℕ
  pub samples : ℕ

abbrev pub date_of : RawPosition → ℕ
date_of r = r.time / day_ms

abbrev pub empty_day : RawPosition → DailySummary
empty_day r = record {
  date = date_of r;
  distance = 0;
  moving = 0;
  idle = 0;
  engine_on = 0;
  max_speed = 0;
  first_at = r.time;
  last_at = r.time;
  samples = 0;
}

-- The idle time counts where the device reports ignition and the engine is on.
abbrev pub is_idle : Bool → Option Bool → Bool
is_idle has_ign (some true) = has_ign
is_idle has_ign ign = false

abbrev pub add_sample : Bool → ℕ → Option Bool → RawPosition → DailySummary → DailySummary
add_sample has_ign dt ign r d = record d {
  distance = d.distance + distance_of r;
  max_speed = max d.max_speed (speed_of r);
  samples = d.samples + 1;
  first_at = if ltb r.time d.first_at then r.time else d.first_at;
  last_at = if ltb d.last_at r.time then r.time else d.last_at;
  moving = if counts dt then (if is_moving r then d.moving + dt else d.moving) else d.moving;
  idle =
      if counts dt
      then (if is_moving r then d.idle else (if is_idle has_ign ign then d.idle + dt else d.idle))
      else d.idle;
}

abbrev pub is_date : ℕ → DailySummary → Bool
is_date date d = d.date == date

-- The `Map` by date, in the order of its keys' insertion.
unfoldable pub add_to_day :
    Bool → ℕ → Option Bool → RawPosition → List DailySummary → List DailySummary
add_to_day has_ign dt ign r days =
    upsert (is_date (date_of r)) (add_sample has_ign dt ign r)
      (add_sample has_ign dt ign r (empty_day r)) days

unfoldable pub daily_loop :
    Bool
    → Option RawPosition
    → Option Bool
    → List DailySummary
    → List RawPosition
    → List DailySummary
unfolding add_to_day
daily_loop has_ign prev last_ign days [] = days
daily_loop has_ign prev last_ign days (r ∷ rows) =
    let ign = inherit r.ignition last_ign in
    daily_loop has_ign (some r) ign (add_to_day has_ign (elapsed prev r) ign r days) rows

abbrev pub set_engine_on : DailySummary → DailySummary
set_engine_on d = record d { engine_on = d.moving + d.idle }

-- The sort by date, which keeps the order of equal dates.
unfoldable pub insert_day : DailySummary → List DailySummary → List DailySummary
insert_day d [] = d ∷ []
insert_day d (x ∷ xs) = if ltb x.date d.date then x ∷ insert_day d xs else d ∷ x ∷ xs

unfoldable pub sort_days : List DailySummary → List DailySummary
unfolding insert_day
sort_days [] = []
sort_days (d ∷ ds) = insert_day d (sort_days ds)

unfoldable pub build_daily_summary : List RawPosition → List DailySummary × Bool
unfolding daily_loop sort_days
build_daily_summary rows =
    let has_ign = has_ignition_signal rows in
    (sort_days (map set_engine_on (daily_loop has_ign none none [] rows)), has_ign)

pub record FuelConsumptionDay : Type 0 where
  pub date : ℕ
  pub distance : ℕ
  pub est_liters : ℕ

-- The rate is in microlitres for 100 km, so that the product is in those for 100 km times mm.
abbrev pub consumption_day : ℕ → DailySummary → FuelConsumptionDay
consumption_day rate d = record {
  date = d.date;
  distance = d.distance;
  est_liters = d.distance * rate;
}

pub record FuelConsumption : Type 0 where
  pub rows : List FuelConsumptionDay
  pub total_distance : ℕ
  pub total_est_liters : ℕ

-- `reduce` by a sum.
abbrev pub sum_by {ℓ} : {A : Type ℓ} → (A → ℕ) → List A → ℕ
sum_by f [] = 0
sum_by f (x ∷ xs) = f x + sum_by f xs

unfoldable pub compute_fuel_consumption : List DailySummary → ℕ → FuelConsumption
compute_fuel_consumption days rate =
    let rows = map (consumption_day rate) days in
    record {
      rows = rows;
      total_distance = sum_by (λ r. r.distance) rows;
      total_est_liters = sum_by (λ r. r.est_liters) rows;
    }
