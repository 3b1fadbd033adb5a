-- ===== src/Reports/Tests.antt =====
-- The theorems of Reports at a few rows of positions and of fuel levels.
use fleex.Common.{
  ℕ, ◌≡◌, refl, Bool, true, false, Option, none, some, List, [], ◌∷◌, pos, All, arith, negsuc,
}
use mathlib.Core.List.{reverse}
use fleex.Reports.Positions.{RawPosition}
use fleex.Reports.Trips.{build_trip_segments}
use fleex.Reports.Trips.Bounds.{
  IsSorted, IsTimeline, last_time, distance_sum, build_trip_segments-IsTimeline,
}
use fleex.Reports.Fuel.{
  FuelReading, default_fuel_opts, sort_readings, detect_loop, detect_fuel_events,
}
use fleex.Reports.Fuel.Detection.{IsEvidence, detect_loop-enough, detect_fuel_events-All-IsEvidence}
use fleex.Reports.Fuel.{fuel_fill}
use fleex.Reports.Fuel.Job.{EventRow, FuelSensor, info, run_detection}
use fleex.Reports.Fuel.Job.Spacing.{IsSpaced, run_detection-IsSpaced}

abbrev row : ℕ → ℕ → Option Bool → RawPosition
row time speed ign = record {
  time = time;
  latitude = pos 47;
  longitude = pos 106;
  speed = some speed;
  ignition = ign;
  meters = some 80_000;
}

-- A drive of a minute, a stop of five, and another drive.
abbrev rows : List RawPosition
rows =
    row 1000 40_000 (some true)
    ∷ row 61_000 50_000 none
    ∷ row 200_000 0 none
    ∷ row 361_000 0 none
    ∷ row 400_000 30_000 none
    ∷ row 460_000 20_000 (some false)
    ∷ []

rows-IsSorted : IsSorted 0 rows
unfolding IsSorted
rows-IsSorted = ground arith

build_trip_segments-IsTimeline_example :
    IsTimeline (last_time 0 rows) (distance_sum rows) (reverse (build_trip_segments rows))
build_trip_segments-IsTimeline_example = build_trip_segments-IsTimeline rows rows-IsSorted

-- A tank that is filled, and then drained with the engine off.
abbrev readings : List FuelReading
readings =
    record { t = 600_000; level = pos 5000; ignition = some true }
    ∷ record { t = 1000; level = negsuc 199; ignition = some true }
    ∷ record { t = 1_700_000; level = pos 3000; ignition = some false }
    ∷ []

detect_loop-enough_example :
    detect_loop 8 default_fuel_opts (sort_readings readings)
    ≡ detect_fuel_events default_fuel_opts readings
detect_loop-enough_example = detect_loop-enough default_fuel_opts readings 8 (ground arith)

detect_fuel_events-All-IsEvidence_example :
    All (IsEvidence default_fuel_opts readings) (detect_fuel_events default_fuel_opts readings)
detect_fuel_events-All-IsEvidence_example =
    detect_fuel_events-All-IsEvidence default_fuel_opts readings

abbrev a_sensor : FuelSensor
a_sensor = record { company_id = 3; device_id = 7 }

abbrev a_fill : EventRow
a_fill = record {
  company_id = 3;
  device_id = 7;
  type = fuel_fill;
  severity = info;
  occurred_at = 900;
}

abbrev fetch_levels : FuelSensor → Option (List FuelReading)
fetch_levels s = some (
    record { t = 1000; level = pos 2000; ignition = none }
    ∷ record { t = 61_000; level = pos 6000; ignition = none }
    ∷ [])

abbrev all_created : EventRow → Bool
all_created r = true

run_detection-IsSpaced_example :
    IsSpaced (run_detection all_created fetch_levels (a_sensor ∷ []) (a_fill ∷ []))
run_detection-IsSpaced_example =
    run_detection-IsSpaced all_created fetch_levels (a_sensor ∷ []) (a_fill ∷ []) (refl, tt)
