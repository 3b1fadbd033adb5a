-- ===== src/Reports/Sessions.antt =====
-- `buildEngineSessions` of services/api/src/reports/report-builders.ts, with the two machines it
-- chooses from. The sessions stand newest first until the end.
pub mod Bounds
use fleex.Common.{
  ℕ, ◌+◌, ◌-◌, ◌*◌, ℤ, Bool, true, false, Option, none, some, List, [], ◌∷◌, max, leb, length,
  if◌then◌else◌,
}
use mathlib.Core.List.{reverse}
use fleex.Reports.Positions.{
  RawPosition, speed_of, distance_of, motion_break, is_moving, elapsed, counts, has_ignition_signal,
  inherit,
}

pub data Detection : Type 0 where
  ignition motion : Detection

pub record EngineSession : Type 0 where
  pub session_num : ℕ
  pub start_at : ℕ
  pub end_at : ℕ
  pub duration : ℕ
  pub driving : ℕ
  pub idle : ℕ
  pub distance : ℕ
  pub max_speed : ℕ
  pub start_lat : ℤ
  pub start_lng : ℤ
  pub end_lat : ℤ
  pub end_lng : ℤ
  pub detection : Detection

pub record OpenSession : Type 0 where
  pub session_num : ℕ
  pub start : RawPosition
  pub distance : ℕ
  pub drive : ℕ
  pub idle : ℕ
  pub max_speed : ℕ
  pub detection : Detection

-- `Math.max(0, …)` is the subtraction that stops at 0.
abbrev pub close_session : OpenSession → RawPosition → EngineSession
close_session o last = record {
  session_num = o.session_num;
  start_at = o.start.time;
  end_at = last.time;
  duration = last.time - o.start.time;
  driving = o.drive;
  idle = o.idle;
  distance = o.distance;
  max_speed = o.max_speed;
  start_lat = o.start.latitude;
  start_lng = o.start.longitude;
  end_lat = last.latitude;
  end_lng = last.longitude;
  detection = o.detection;
}

abbrev pub start_session : Detection → ℕ → RawPosition → OpenSession
start_session d num r = record {
  session_num = num;
  start = r;
  distance = 0;
  drive = 0;
  idle = 0;
  max_speed = speed_of r;
  detection = d;
}

-- What both machines add to an open session at a row.
abbrev pub add_row : ℕ → OpenSession → RawPosition → OpenSession
add_row dt o r = record o {
  drive = if counts dt then (if is_moving r then o.drive + dt else o.drive) else o.drive;
  idle = if counts dt then (if is_moving r then o.idle else o.idle + dt) else o.idle;
  distance = o.distance + distance_of r;
  max_speed = max o.max_speed (speed_of r);
}

-- The state of `buildSessionsByIgnition`.
pub record IgnitionState : Type 0 where
  pub out : List EngineSession
  pub current : Option OpenSession
  pub last_ignition : Option Bool

-- A row: `ign` is the row's ignition, or the last known one.
unfoldable pub ignition_edge :
    ℕ → List EngineSession → Option OpenSession → Option Bool → RawPosition → IgnitionState
ignition_edge dt out none (some true) r = record {
  out = out;
  current = some (start_session ignition (length out + 1) r);
  last_ignition = some true;
}
ignition_edge dt out none ign r = record { out = out; current = none; last_ignition = ign }
ignition_edge dt out (some o) (some false) r = record {
  out = close_session (add_row dt o r) r ∷ out;
  current = none;
  last_ignition = some false;
}
ignition_edge dt out (some o) ign r = record {
  out = out;
  current = some (add_row dt o r);
  last_ignition = ign;
}

abbrev pub ignition_round : Option RawPosition → IgnitionState → RawPosition → IgnitionState
ignition_round prev s r =
    ignition_edge (elapsed prev r) s.out s.current (inherit r.ignition s.last_ignition) r

unfoldable pub ignition_loop :
    Option RawPosition → IgnitionState → List RawPosition → List EngineSession
unfolding ignition_edge
ignition_loop none s [] = s.out
ignition_loop (some last) s [] = elim s.current [
  | none ↦ s.out
  | some o ↦ close_session o last ∷ s.out
]
ignition_loop prev s (r ∷ rows) = ignition_loop (some r) (ignition_round prev s r) rows

unfoldable pub build_sessions_by_ignition : List RawPosition → List EngineSession
unfolding ignition_loop
build_sessions_by_ignition rows =
    reverse (ignition_loop none (record { out = []; current = none; last_ignition = none }) rows)

-- The open session of `buildSessionsByMotion`, with the row it keeps by `lastMoveIdx`.
pub record MotionSession : Type 0 where
  pub session : OpenSession
  pub last_moving : RawPosition

pub record MotionState : Type 0 where
  pub out : List EngineSession
  pub current : Option MotionSession

unfoldable pub motion_round : Option RawPosition → MotionState → RawPosition → MotionState
motion_round prev s r = elim s.current [
  | none ↦
      if is_moving r
      then record s {
        current =
            some (record { session = start_session motion (length s.out + 1) r; last_moving = r });
      }
      else s
  | some o ↦
      let o' = add_row (elapsed prev r) o.session r in
      let last = if is_moving r then r else o.last_moving in
      if leb motion_break (r.time - last.time)
      then record { out = close_session o' last ∷ s.out; current = none }
      else record s { current = some (record { session = o'; last_moving = last }) }
]

unfoldable pub motion_loop :
    Option RawPosition → MotionState → List RawPosition → List EngineSession
unfolding motion_round
motion_loop none s [] = s.out
motion_loop (some last) s [] = elim s.current [
  | none ↦ s.out
  | some o ↦ close_session o.session last ∷ s.out
]
motion_loop prev s (r ∷ rows) = motion_loop (some r) (motion_round prev s r) rows

unfoldable pub build_sessions_by_motion : List RawPosition → List EngineSession
unfolding motion_loop
build_sessions_by_motion rows =
    reverse (motion_loop none (record { out = []; current = none }) rows)

unfoldable pub build_engine_sessions : List RawPosition → List EngineSession
unfolding build_sessions_by_ignition build_sessions_by_motion
build_engine_sessions rows =
    if has_ignition_signal rows
    then build_sessions_by_ignition rows
    else build_sessions_by_motion rows
