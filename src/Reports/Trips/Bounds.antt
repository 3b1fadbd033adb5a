-- ===== src/Reports/Trips/Bounds.antt =====
-- What `build_trip_segments` of Reports/Trips promises of the trips it returns.
use fleex.Common.{
  ℕ, ◌+◌, ◌-◌, ◌≤◌, ◌<◌, ◌≡◌, Option, none, some, List, [], ◌∷◌, length, ltb, leb, inl, inr, refl,
  Bool-cases, inl, inr, refl, arith,
}
use mathlib.Core.Path.{subst}
use mathlib.Core.List.{reverse, reverse-reverse}
use fleex.Reports.Positions.{RawPosition, distance_of, is_moving, elapsed, motion_threshold}
use fleex.Reports.Trips.{
  TripSegment, OpenTrip, TripState, close_trip, break_gap, advance, trip_round, trip_loop,
  build_trip_segments, stand,
}

-- Rows ordered by time, none before a time.
unfoldable pub IsSorted : ℕ → List RawPosition → Type 0
IsSorted from [] = Unit
IsSorted from (r ∷ rows) = (from ≤ r.time) × IsSorted r.time rows

-- The time of the last row.
unfoldable pub last_time : ℕ → List RawPosition → ℕ
last_time now [] = now
last_time now (r ∷ rows) = last_time r.time rows

unfoldable pub distance_sum : List RawPosition → ℕ
distance_sum [] = 0
distance_sum (r ∷ rows) = distance_of r + distance_sum rows

-- Trips from the newest back: each ends by a time, before the next one starts, and their distances
-- together are at most a total.
unfoldable pub IsTimeline : ℕ → ℕ → List TripSegment → Type 0
IsTimeline until total [] = Unit
IsTimeline until total (x ∷ xs) =
    (x.start_at < x.end_at)
    × (x.end_at ≤ until)
    × (x.duration ≡ x.end_at - x.start_at)
    × (50_000 ≤ x.distance)
    × (x.distance ≤ total)
    × (motion_threshold < x.max_speed)
    × (x.segment_num ≡ length xs + 1)
    × IsTimeline x.start_at (total - x.distance) xs

IsTimeline-mono :
    (u v t w : ℕ) (xs : List TripSegment) → u ≤ v → t ≤ w → IsTimeline u t xs → IsTimeline v w xs
unfolding IsTimeline
IsTimeline-mono u v t w [] a b h = tt
IsTimeline-mono u v t w (x ∷ xs) a b (lt, le, d, m, tot, sp, n, rest) = (
  lt,
  omega arith,
  d,
  m,
  omega arith,
  sp,
  n,
  IsTimeline-mono x.start_at x.start_at (t - x.distance) (w - x.distance) xs (omega arith)
      (omega arith) rest,
)

-- The open trip at a time, with the trips before it.
IsOpenAt : ℕ → ℕ → List TripSegment → OpenTrip → Type 0
IsOpenAt now total out o =
    (o.start.time ≤ o.last_moving.time)
    × (o.last_moving.time ≤ now)
    × (o.distance ≤ total)
    × (motion_threshold < o.max_speed)
    × IsTimeline o.start.time (total - o.distance) out

-- The row before is not after that time, and there is one once a trip is open.
IsPreceded : ℕ → TripState → Option RawPosition → Type 0
IsPreceded now s none = s.current ≡ none
IsPreceded now s (some p) = p.time ≤ now

IsStateAt : ℕ → ℕ → TripState → Type 0
IsStateAt now total s = elim s.current [
  | none ↦ IsTimeline now total s.out
  | some o ↦ IsOpenAt now total s.out o
]

close_trip-IsTimeline :
    (now total : ℕ) (out : List TripSegment) (o : OpenTrip) (last : RawPosition)
    → IsOpenAt now total out o
    → last.time ≤ now
    → IsTimeline now total (close_trip out o last)
unfolding close_trip IsTimeline IsOpenAt
close_trip-IsTimeline now total out o last (a, b, d, sp, h) l =
    elim (Bool-cases (leb last.time o.start.time)) [
      | inl e ↦ rw e (
          IsTimeline-mono o.start.time now (total - o.distance) total out (omega arith)
            (omega arith) h)
      | inr e ↦ elim (Bool-cases (ltb o.distance 50_000)) [
        | inl k ↦ rw e (
            rw k (
              IsTimeline-mono o.start.time now (total - o.distance) total out (omega arith)
                (omega arith) h))
        | inr k ↦ rw e (rw k (ground arith, l, refl, ground arith, d, sp, refl, h))
      ]
    ]

break_gap-IsStateAt :
    (now total dt : ℕ) (out : List TripSegment) (current : Option OpenTrip)
    → IsStateAt now total (record { out = out; current = current })
    → IsStateAt now total (break_gap dt (record { out = out; current = current }))
unfolding break_gap IsStateAt IsOpenAt
break_gap-IsStateAt now total dt out none h = h
break_gap-IsStateAt now total dt out (some o) h = elim (Bool-cases (ltb 1_800_000 dt)) [
  | inl e ↦ rw e (close_trip-IsTimeline now total out o o.last_moving h h.1)
  | inr e ↦ rw e h
]

advance-IsStateAt :
    (now total dt : ℕ) (out : List TripSegment) (current : Option OpenTrip) (r : RawPosition)
    → now ≤ r.time
    → IsStateAt now total (record { out = out; current = current })
    → IsStateAt r.time
        (total + distance_of r)
        (advance dt (record { out = out; current = current }) r)
unfolding advance IsStateAt IsOpenAt
advance-IsStateAt now total dt out none r l h = elim (Bool-cases (is_moving r)) [
  | inl e ↦ rw e (
    omega arith,
    omega arith,
    omega arith,
    ground (arith, e),
    IsTimeline-mono now r.time total (total + distance_of r - 0) out l (omega arith) h,
  )
  | inr e ↦ rw e (IsTimeline-mono now r.time total (total + distance_of r) out l (omega arith) h)
]
advance-IsStateAt now total dt out (some o) r l (a, b, d, sp, h) = elim (Bool-cases (is_moving r)) [
  | inl e ↦ rw e (
    omega arith,
    omega arith,
    omega arith,
    omega arith,
    IsTimeline-mono o.start.time o.start.time (total - o.distance)
        (total + distance_of r - (o.distance + distance_of r)) out (omega arith) (omega arith) h,
  )
  | inr e ↦
      let stays : IsOpenAt r.time (total + distance_of r) out (stand dt o r) = (
        a,
        omega arith,
        omega arith,
        sp,
        IsTimeline-mono o.start.time o.start.time (total - o.distance)
            (total + distance_of r - (o.distance + distance_of r)) out (omega arith) (omega arith)
            h,
      ) in
      elim (Bool-cases (leb 60_000 (stand dt o r).stopped)) [
        | inl k ↦ rw e (
            rw k (
              close_trip-IsTimeline r.time (total + distance_of r) out (stand dt o r) o.last_moving
                stays (omega arith)))
        | inr k ↦ rw e (rw k stays)
      ]
]

close_last :
    (now total : ℕ) (last : RawPosition) (out : List TripSegment) (current : Option OpenTrip)
    → last.time ≤ now
    → IsStateAt now total (record { out = out; current = current })
    → IsTimeline now
        (total + 0)
        (trip_loop (some last) (record { out = out; current = current }) [])
unfolding trip_loop IsStateAt
close_last now total last out none l h =
    IsTimeline-mono now now total (total + 0) out (omega arith) (omega arith) h
close_last now total last out (some o) l h =
    IsTimeline-mono now now total (total + 0) (close_trip out o last) (omega arith) (omega arith)
      (close_trip-IsTimeline now total out o last h l)

trip_loop-IsTimeline :
    (now total : ℕ) (prev : Option RawPosition) (s : TripState) (rows : List RawPosition)
    → IsPreceded now s prev
    → IsSorted now rows
    → IsStateAt now total s
    → IsTimeline (last_time now rows) (total + distance_sum rows) (trip_loop prev s rows)
unfolding trip_loop trip_round IsSorted distance_sum IsPreceded IsStateAt last_time
trip_loop-IsTimeline now total none s [] p sorted h =
    IsTimeline-mono now now total (total + 0) s.out (omega arith) (omega arith)
      (subst (λ c. IsStateAt now total (record { out = s.out; current = c })) p h)
trip_loop-IsTimeline now total (some last) s [] p sorted h =
    close_last now total last s.out s.current p h
trip_loop-IsTimeline now total prev s (r ∷ rows) p (l, sorted) h =
    let dt = elapsed prev r in
    let broken = break_gap dt s in
    let next =
      advance-IsStateAt now total dt broken.out broken.current r l
        (break_gap-IsStateAt now total dt s.out s.current h) in
    IsTimeline-mono (last_time r.time rows) (last_time r.time rows)
      (total + distance_of r + distance_sum rows) (total + (distance_of r + distance_sum rows))
      (trip_loop (some r) (advance dt broken r) rows) (omega arith) (omega arith)
      (trip_loop-IsTimeline r.time (total + distance_of r) (some r) (advance dt broken r) rows
        (omega arith) sorted next)

-- The trips that `buildTripSegments` makes of rows in order of time: each has a start before its
-- end, a duration that is their difference, at least 50 m and a top speed over the motion
-- threshold; they are numbered from 1, a trip ends no later than the next one starts, the last one
-- by the last row, and their distances together are at most what the rows report.
pub build_trip_segments-IsTimeline :
    (rows : List RawPosition)
    → IsSorted 0 rows
    → IsTimeline (last_time 0 rows) (distance_sum rows) (reverse (build_trip_segments rows))
unfolding build_trip_segments IsStateAt IsTimeline IsPreceded
build_trip_segments-IsTimeline rows sorted =
    rw (reverse-reverse (trip_loop none (record { out = []; current = none }) rows)) (
      IsTimeline-mono (last_time 0 rows) (last_time 0 rows) (0 + distance_sum rows)
        (distance_sum rows) (trip_loop none (record { out = []; current = none }) rows)
        (omega arith) (omega arith)
        (trip_loop-IsTimeline 0 0 none (record { out = []; current = none }) rows refl sorted tt))
