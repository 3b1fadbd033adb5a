-- ===== src/Reports/Fuel.antt =====
-- `detectFuelEvents` of services/api/src/reports/fuel-analytics.service.ts. Levels, thresholds and
-- times are whole numbers of a small unit; a level may be negative, as the offset of a sensor may.
pub mod Detection
pub mod Job
use fleex.Common.{
  ℤ, pos, leb_int, ◌-ℤ◌, ℕ, zero, suc, ◌*◌, ◌+◌, ◌-◌, Bool, true, false, Option, none, some, List,
  [], ◌∷◌, ltb, leb, length, if◌then◌else◌,
}

pub record FuelReading : Type 0 where
  pub t : ℕ
  pub level : ℤ
  pub ignition : Option Bool

pub data FuelEventType : Type 0 where
  fuel_fill fuel_drain : FuelEventType

pub record FuelEvent : Type 0 where
  pub type : FuelEventType
  pub at_time : ℕ
  pub before : ℤ
  pub after : ℤ
  pub delta : ℤ
  pub ignition_off : Bool

pub record FuelDetectOpts : Type 0 where
  pub fill : ℕ
  pub drain : ℕ
  pub window : ℕ

-- 15 and 10 litres in hundredths, and 20 minutes.
abbrev pub default_fuel_opts : FuelDetectOpts
default_fuel_opts = record { fill = 1500; drain = 1000; window = 20 * 60_000 }

abbrev pub is_off : Option Bool → Bool
is_off (some false) = true
is_off (some true) = false
is_off none = false

-- The stable sort by time.
unfoldable pub insert_reading : FuelReading → List FuelReading → List FuelReading
insert_reading x [] = x ∷ []
insert_reading x (y ∷ ys) = if ltb y.t x.t then y ∷ insert_reading x ys else x ∷ y ∷ ys

unfoldable pub sort_readings : List FuelReading → List FuelReading
unfolding insert_reading
sort_readings [] = []
sort_readings (x ∷ xs) = insert_reading x (sort_readings xs)

-- The inner loop: `r[j]` and what follows it, from `r[j]` on for as long as the next reading is
-- still in the window from `r[i]`.
unfoldable pub furthest :
    ℕ → FuelReading → FuelReading → List FuelReading → FuelReading × List FuelReading
furthest window x y [] = (y, [])
furthest window x y (z ∷ zs) =
    if leb (z.t - x.t) window then furthest window x z zs else (y, z ∷ zs)

-- The event of a pair of readings, if its change is large enough; `x.level -ℤ y.level` is
-- `-delta`.
unfoldable pub fuel_event : FuelDetectOpts → FuelReading → FuelReading → Option FuelEvent
fuel_event opts x y =
    let delta = y.level -ℤ x.level in
    if leb (y.t - x.t) opts.window
    then (if leb_int (pos opts.fill) delta
        then some (record {
          type = fuel_fill;
          at_time = y.t;
          before = x.level;
          after = y.level;
          delta = delta;
          ignition_off = is_off y.ignition;
        })
        else (if leb_int (pos opts.drain) (x.level -ℤ y.level)
            then some (record {
              type = fuel_drain;
              at_time = y.t;
              before = x.level;
              after = y.level;
              delta = delta;
              ignition_off = is_off y.ignition;
            })
            else none))
    else none

-- An event is pushed before the rest of the loop from `j`; without one it goes on from `i + 1`.
abbrev pub continue_with : Option FuelEvent → List FuelEvent → List FuelEvent → List FuelEvent
continue_with (some e) jump next = e ∷ jump
continue_with none jump next = next

-- The outer loop on the readings from `r[i]` on.
unfoldable pub detect_loop : ℕ → FuelDetectOpts → List FuelReading → List FuelEvent
unfolding furthest fuel_event
detect_loop zero opts r = []
detect_loop (suc n) opts [] = []
detect_loop (suc n) opts (x ∷ []) = []
detect_loop (suc n) opts (x ∷ y ∷ rest) =
    let far = furthest opts.window x y rest in
    let jump = detect_loop n opts (far.0 ∷ far.1) in
    let next = detect_loop n opts (y ∷ rest) in continue_with (fuel_event opts x far.0) jump next

unfoldable pub detect_fuel_events : FuelDetectOpts → List FuelReading → List FuelEvent
unfolding detect_loop sort_readings
detect_fuel_events opts readings = detect_loop (length readings) opts (sort_readings readings)
