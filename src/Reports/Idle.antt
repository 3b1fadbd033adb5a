-- ===== src/Reports/Idle.antt =====
-- `buildIdlePeriods` of services/api/src/reports/report-builders.ts. The periods stand newest
-- first until the end, and an open period holds the row that the code keeps by its index.
pub mod Bounds
use fleex.Common.{
  ℕ, ◌+◌, ◌-◌, ℤ, Bool, true, false, not, ◌&&◌, Option, none, some, List, [], ◌∷◌, ltb, leb, length,
  if◌then◌else◌,
}
use mathlib.Core.List.{reverse}
use fleex.Reports.Positions.{
  RawPosition, idle_min, time_gap_break, is_moving, elapsed, has_ignition_signal, inherit,
}

pub data IdleReason : Type 0 where
  engine_on_no_motion stop_between_trips : IdleReason

pub record IdlePeriod : Type 0 where
  pub period_num : ℕ
  pub start_at : ℕ
  pub end_at : ℕ
  pub duration : ℕ
  pub lat : ℤ
  pub lng : ℤ
  pub reason : IdleReason

pub record OpenIdle : Type 0 where
  pub start : RawPosition
  pub stopped : ℕ
  pub reason : IdleReason

pub record IdleState : Type 0 where
  pub out : List IdlePeriod
  pub current : Option OpenIdle

-- `closeOpen` at a row: a stop under the minimum is dropped.
unfoldable pub close_idle : List IdlePeriod → OpenIdle → RawPosition → List IdlePeriod
close_idle out o last =
    if leb idle_min (last.time - o.start.time)
    then record {
      period_num = length out + 1;
      start_at = o.start.time;
      end_at = last.time;
      duration = last.time - o.start.time;
      lat = o.start.latitude;
      lng = o.start.longitude;
      reason = o.reason;
    }
      ∷ out
    else out

-- `closeOpen(i - 1)`. No period is open at the first row.
unfoldable pub close_before : Option RawPosition → IdleState → IdleState
unfolding close_idle
close_before none s = s
close_before (some p) s = elim s.current [
  | none ↦ s
  | some o ↦ record { out = close_idle s.out o p; current = none }
]

unfoldable pub break_gap : Option RawPosition → RawPosition → IdleState → IdleState
unfolding close_before
break_gap prev r s = if ltb time_gap_break (elapsed prev r) then close_before prev s else s

-- A row whose engine is on while it stands goes on with the period or starts one; another closes
-- it.
unfoldable pub stand_or_close :
    Bool → IdleReason → Option RawPosition → RawPosition → IdleState → IdleState
unfolding close_before
stand_or_close stands reason prev r s =
    if stands
    then elim s.current [
      | none ↦ record s { current = some (record { start = r; stopped = 0; reason = reason }) }
      | some o ↦ record s { current = some (record o { stopped = o.stopped + elapsed prev r }) }
    ]
    else close_before prev s

abbrev pub is_on : Option Bool → Bool
is_on (some b) = b
is_on none = false

abbrev pub engine_on : Bool → Option Bool → Bool
engine_on has_ign ign = if has_ign then is_on ign else true

abbrev pub idle_reason : Bool → IdleReason
idle_reason has_ign = if has_ign then engine_on_no_motion else stop_between_trips

unfoldable pub idle_loop :
    Bool → Option RawPosition → Option Bool → IdleState → List RawPosition → List IdlePeriod
unfolding break_gap stand_or_close close_before
idle_loop has_ign prev last_ign s [] = (close_before prev s).out
idle_loop has_ign prev last_ign s (r ∷ rows) =
    let ign = inherit r.ignition last_ign in
    let stands = not (is_moving r) && engine_on has_ign ign in
    idle_loop has_ign (some r) ign
      (stand_or_close stands (idle_reason has_ign) prev r (break_gap prev r s)) rows

unfoldable pub build_idle_periods : List RawPosition → List IdlePeriod
unfolding idle_loop
build_idle_periods rows =
    reverse
      (idle_loop (has_ignition_signal rows) none none (record { out = []; current = none }) rows)
