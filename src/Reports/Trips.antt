-- ===== src/Reports/Trips.antt =====
-- `buildTripSegments` of services/api/src/reports/report-builders.ts. The open trip holds the rows
-- that the code keeps by their index; the segments stand newest first until the end.
pub mod Bounds
use fleex.Common.{
  ℕ, ◌+◌, ◌-◌, ◌*◌, ◌/◌, ℤ, Bool, true, false, ◌&&◌, ◌||◌, Option, none, some, List, [], ◌∷◌, suc,
  max, ltb, leb, length, if◌then◌else◌,
}
use mathlib.Core.List.{reverse}
use fleex.Reports.Positions.{
  RawPosition, speed_of, distance_of, stop_break, time_gap_break, is_moving, elapsed, counts,
}

pub record TripSegment : Type 0 where
  pub segment_num : ℕ
  pub start_at : ℕ
  pub end_at : ℕ
  pub duration : ℕ
  pub distance : ℕ
  pub avg_speed : ℕ
  pub max_speed : ℕ
  pub start_lat : ℤ
  pub start_lng : ℤ
  pub end_lat : ℤ
  pub end_lng : ℤ

pub record OpenTrip : Type 0 where
  pub start : RawPosition
  pub distance : ℕ
  pub drive : ℕ
  pub max_speed : ℕ
  pub stopped : ℕ
  pub last_moving : RawPosition

pub record TripState : Type 0 where
  pub out : List TripSegment
  pub current : Option OpenTrip

-- 0.05 km
abbrev pub min_distance : ℕ
min_distance = 50_000

abbrev pub segment : ℕ → OpenTrip → RawPosition → TripSegment
segment num o last = record {
  segment_num = num;
  start_at = o.start.time;
  end_at = last.time;
  duration = last.time - o.start.time;
  distance = o.distance;
  avg_speed = o.distance * 3600 / (last.time - o.start.time);
  max_speed = o.max_speed;
  start_lat = o.start.latitude;
  start_lng = o.start.longitude;
  end_lat = last.latitude;
  end_lng = last.longitude;
}

-- `closeOpen`: a trip of no duration or under 50 m is dropped.
unfoldable pub close_trip : List TripSegment → OpenTrip → RawPosition → List TripSegment
close_trip out o last =
    if leb last.time o.start.time || ltb o.distance min_distance
    then out
    else segment (length out + 1) o last ∷ out

abbrev pub start_trip : RawPosition → OpenTrip
start_trip r = record {
  start = r;
  distance = 0;
  drive = 0;
  max_speed = speed_of r;
  stopped = 0;
  last_moving = r;
}

abbrev pub drive_on : ℕ → OpenTrip → RawPosition → OpenTrip
drive_on dt o r = record o {
  drive = if counts dt then o.drive + dt else o.drive;
  distance = o.distance + distance_of r;
  max_speed = max o.max_speed (speed_of r);
  stopped = 0;
  last_moving = r;
}

abbrev pub stand : ℕ → OpenTrip → RawPosition → OpenTrip
stand dt o r = record o {
  stopped = if counts dt then o.stopped + dt else o.stopped;
  distance = o.distance + distance_of r;
}

-- The check for a gap, which comes first in a round.
unfoldable pub break_gap : ℕ → TripState → TripState
unfolding close_trip
break_gap dt s = elim s.current [
  | none ↦ s
  | some o ↦
      if ltb time_gap_break dt
      then record { out = close_trip s.out o o.last_moving; current = none }
      else s
]

unfoldable pub advance : ℕ → TripState → RawPosition → TripState
unfolding close_trip
advance dt s r = elim s.current [
  | none ↦ if is_moving r then record s { current = some (start_trip r) } else s
  | some o ↦
      if is_moving r
      then record s { current = some (drive_on dt o r) }
      else (let o' = stand dt o r in
          if leb stop_break o'.stopped
          then record { out = close_trip s.out o' o'.last_moving; current = none }
          else record s { current = some o' })
]

unfoldable pub trip_round : Option RawPosition → TripState → RawPosition → TripState
unfolding break_gap advance
trip_round prev s r = let dt = elapsed prev r in advance dt (break_gap dt s) r

-- The loop, and the last `closeOpen` at the last row.
trip_loop : Option RawPosition → TripState → List RawPosition → List TripSegment
unfolding close_trip
trip_loop none s [] = s.out
trip_loop (some last) s [] = elim s.current [ none ↦ s.out | some o ↦ close_trip s.out o last ]
trip_loop prev s (r ∷ rows) = trip_loop (some r) (trip_round prev s r) rows

unfoldable pub build_trip_segments : List RawPosition → List TripSegment
unfolding trip_loop trip_round
build_trip_segments rows = reverse (trip_loop none (record { out = []; current = none }) rows)
