-- ===== src/Reports/Fuel/Job.antt =====
-- `runDetection` and `alreadyRecorded` of services/api/src/reports/fuel-analytics.service.ts: the
-- job that stores what the detector finds. The text and the payload of an event are left out.
pub mod Spacing
use fleex.Common.{
  ℕ, ◌+◌, ◌-◌, Bool, true, false, ◌&&◌, Option, none, some, List, [], ◌∷◌, any, ltb, leb, length,
  ◌==◌, if◌then◌else◌,
}
use fleex.Reports.Fuel.{
  FuelReading, FuelEvent, FuelEventType, fuel_fill, fuel_drain, default_fuel_opts,
  detect_fuel_events,
}

pub data Severity : Type 0 where
  info warning critical : Severity

-- A row of the table of events that has one of the two types.
pub record EventRow : Type 0 where
  pub company_id : ℕ
  pub device_id : ℕ
  pub type : FuelEventType
  pub severity : Severity
  pub occurred_at : ℕ

pub record FuelSensor : Type 0 where
  pub company_id : ℕ
  pub device_id : ℕ

abbrev pub same_type : FuelEventType → FuelEventType → Bool
same_type fuel_fill fuel_fill = true
same_type fuel_fill fuel_drain = false
same_type fuel_drain fuel_fill = false
same_type fuel_drain fuel_drain = true

abbrev pub tolerance : ℕ
tolerance = default_fuel_opts.window

abbrev pub is_near : ℕ → FuelEventType → ℕ → EventRow → Bool
is_near device type at_time row =
    row.device_id == device
    && (same_type row.type type
        && (leb (at_time - tolerance) row.occurred_at && leb row.occurred_at (at_time + tolerance)))

unfoldable pub already_recorded : ℕ → FuelEvent → List EventRow → Bool
already_recorded device e rows = any (is_near device e.type e.at_time) rows

abbrev pub severity_of : FuelEventType → Bool → Severity
severity_of fuel_fill off = info
severity_of fuel_drain true = critical
severity_of fuel_drain false = warning

abbrev pub row_of : FuelSensor → FuelEvent → EventRow
row_of sensor e = record {
  company_id = sensor.company_id;
  device_id = sensor.device_id;
  type = e.type;
  severity = severity_of e.type e.ignition_off;
  occurred_at = e.at_time;
}

-- `creates` is whether the insertion of a row goes through; an exception ends the sensor's round.
module _ (creates : EventRow → Bool) where
  unfoldable pub store_events : FuelSensor → List FuelEvent → List EventRow → List EventRow
  unfolding already_recorded
  store_events sensor [] rows = rows
  store_events sensor (e ∷ es) rows =
      let skipped = store_events sensor es rows in
      let stored = store_events sensor es (row_of sensor e ∷ rows) in
      if already_recorded sensor.device_id e rows
      then skipped
      else if creates (row_of sensor e)
      then stored
      else rows

  abbrev pub store_found : FuelSensor → Option (List FuelReading) → List EventRow → List EventRow
  store_found sensor none rows = rows
  store_found sensor (some readings) rows =
      if ltb (length readings) 2
      then rows
      else store_events sensor (detect_fuel_events default_fuel_opts readings) rows

  -- `fetch` reads the last six hours of a sensor's device, or throws; the newest row comes first.
  unfoldable pub run_detection :
      (FuelSensor → Option (List FuelReading)) → List FuelSensor → List EventRow → List EventRow
  unfolding store_events
  run_detection fetch [] rows = rows
  run_detection fetch (s ∷ sensors) rows =
      run_detection fetch sensors (store_found s (fetch s) rows)
