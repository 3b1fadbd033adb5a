-- ===== src/Reports/Positions.antt =====
-- Positions and the constants of services/api/src/reports/report-builders.ts. Whole numbers stand
-- for the floats: times and durations are in milliseconds, distances in millimetres, speeds in
-- thousandths of km/h. A difference of times that would be negative is 0, where the code tests
-- `dtSec > 0` or takes `Math.max(0, …)`.
use fleex.Common.{ℕ, ◌-◌, ◌*◌, ℤ, Bool, true, false, Option, none, some, List, [], ◌∷◌, ltb, ◌&&◌}

pub record RawPosition : Type 0 where
  pub time : ℕ
  pub latitude : ℤ
  pub longitude : ℤ
  pub speed : Option ℕ
  pub ignition : Option Bool
  pub meters : Option ℕ

abbrev pub or_zero : Option ℕ → ℕ
or_zero none = 0
or_zero (some n) = n

abbrev pub speed_of : RawPosition → ℕ
speed_of r = or_zero r.speed

abbrev pub distance_of : RawPosition → ℕ
distance_of r = or_zero r.meters

abbrev pub motion_threshold : ℕ
motion_threshold = 3000

abbrev pub motion_break : ℕ
motion_break = 10 * 60_000

abbrev pub stop_break : ℕ
stop_break = 60_000

abbrev pub idle_min : ℕ
idle_min = 60_000

abbrev pub time_gap_break : ℕ
time_gap_break = 30 * 60_000

abbrev pub is_moving : RawPosition → Bool
is_moving r = ltb motion_threshold (speed_of r)

-- The time since the row before, 0 at the first row.
abbrev pub elapsed : Option RawPosition → RawPosition → ℕ
elapsed none r = 0
elapsed (some p) r = r.time - p.time

-- `dtSec > 0 && dtSec < TIME_GAP_BREAK_SEC`
abbrev pub counts : ℕ → Bool
counts dt = ltb 0 dt && ltb dt time_gap_break

abbrev pub has_ignition_signal : List RawPosition → Bool
has_ignition_signal [] = false
has_ignition_signal (r ∷ rows) = elim r.ignition [ some b ↦ true | none ↦ has_ignition_signal rows ]

-- The last known state where the row reports none.
abbrev pub inherit : Option Bool → Option Bool → Option Bool
inherit (some b) last = some b
inherit none last = last
