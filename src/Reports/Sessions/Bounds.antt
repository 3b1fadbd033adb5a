-- ===== src/Reports/Sessions/Bounds.antt =====
-- What the sessions of Reports/Sessions promise.
use fleex.Common.{
  ℕ, ◌+◌, ◌-◌, ◌≤◌, ◌<◌, ◌≡◌, Bool, true, false, Option, none, some, List, [], ◌∷◌, map, length,
  refl, ap, ◌∙◌, leb, arith,
}
use mathlib.Core.Path.{subst}
use mathlib.Core.List.{reverse, reverse-reverse}
use fleex.Reports.Positions.{
  RawPosition, distance_of, is_moving, elapsed, counts, inherit, has_ignition_signal, motion_break,
  time_gap_break,
}
use fleex.Reports.Trips.Bounds.{IsSorted, last_time, distance_sum}
use fleex.Reports.Sessions.{
  EngineSession, OpenSession, MotionState, motion, start_session, IgnitionState, ignition_edge,
  ignition_loop, build_sessions_by_ignition, motion_round, motion_loop, build_sessions_by_motion,
  build_engine_sessions, add_row, close_session, ignition_round,
}

-- Sessions from the newest back: each ends by a time, before the next one starts, its driving and
-- idle times are within its duration, and the distances together are at most a total.
unfoldable pub IsLog : ℕ → ℕ → List EngineSession → Type 0
IsLog until total [] = Unit
IsLog until total (x ∷ xs) =
    (x.start_at ≤ x.end_at)
    × (x.end_at ≤ until)
    × (x.duration ≡ x.end_at - x.start_at)
    × (x.driving + x.idle ≤ x.duration)
    × (x.distance ≤ total)
    × (x.session_num ≡ length xs + 1)
    × IsLog x.start_at (total - x.distance) xs

IsLog-mono : (u v t w : ℕ) (xs : List EngineSession) → u ≤ v → t ≤ w → IsLog u t xs → IsLog v w xs
unfolding IsLog
IsLog-mono u v t w [] a b h = tt
IsLog-mono u v t w (x ∷ xs) a b (lt, le, d, m, tot, n, rest) = (
  lt,
  omega arith,
  d,
  m,
  omega arith,
  n,
  IsLog-mono x.start_at x.start_at (t - x.distance) (w - x.distance) xs (omega arith) (omega arith)
      rest,
)

IsOpenAt : ℕ → ℕ → List EngineSession → OpenSession → Type 0
IsOpenAt now total out o =
    (o.start.time ≤ now)
    × (o.drive + o.idle ≤ now - o.start.time)
    × (o.distance ≤ total)
    × (o.session_num ≡ length out + 1)
    × IsLog o.start.time (total - o.distance) out

IsCurrentAt : ℕ → ℕ → List EngineSession → Option OpenSession → Type 0
IsCurrentAt now total out none = IsLog now total out
IsCurrentAt now total out (some o) = IsOpenAt now total out o

-- The row before is at that time, and there is one once a session is open.
IsPreceded : ℕ → Option OpenSession → Option RawPosition → Type 0
IsPreceded now current none = current ≡ none
IsPreceded now current (some p) = p.time ≡ now

add_row-times :
    (dt : ℕ) (o : OpenSession) (r : RawPosition)
    → (add_row dt o r).drive + (add_row dt o r).idle ≤ o.drive + o.idle + dt
add_row-times dt o r = ground arith

add_row-IsOpenAt :
    (now total : ℕ) (out : List EngineSession) (o : OpenSession) (p r : RawPosition)
    → p.time ≡ now
    → now ≤ r.time
    → IsOpenAt now total out o
    → IsOpenAt r.time (total + distance_of r) out (add_row (r.time - p.time) o r)
unfolding IsOpenAt
add_row-IsOpenAt now total out o p r e l (a, b, d, n, h) = (
  omega arith,
  omega (arith, add_row-times (r.time - p.time) o r),
  omega arith,
  n,
  IsLog-mono o.start.time o.start.time (total - o.distance)
      (total + distance_of r - (o.distance + distance_of r)) out (omega arith) (omega arith) h,
)

close-IsLog :
    (now total : ℕ) (out : List EngineSession) (o : OpenSession) (last : RawPosition)
    → last.time ≡ now
    → IsOpenAt now total out o
    → IsLog now total (close_session o last ∷ out)
unfolding IsLog IsOpenAt
close-IsLog now total out o last e (a, b, d, n, h) =
    (omega arith, omega arith, refl, omega arith, d, n, h)

edge-IsCurrentAt :
    (now total : ℕ) (out : List EngineSession) (current : Option OpenSession)
    (prev : Option RawPosition) (ign : Option Bool) (r : RawPosition)
    → IsPreceded now current prev
    → now ≤ r.time
    → IsCurrentAt now total out current
    → (let s = ignition_edge (elapsed prev r) out current ign r in
        IsCurrentAt r.time (total + distance_of r) s.out s.current)
unfolding ignition_edge IsCurrentAt IsPreceded IsOpenAt
edge-IsCurrentAt now total out none prev none r p l h =
    IsLog-mono now r.time total (total + distance_of r) out l (omega arith) h
edge-IsCurrentAt now total out none prev (some false) r p l h =
    IsLog-mono now r.time total (total + distance_of r) out l (omega arith) h
edge-IsCurrentAt now total out none prev (some true) r p l h = (
  omega arith,
  omega arith,
  omega arith,
  refl,
  IsLog-mono now r.time total (total + distance_of r - 0) out l (omega arith) h,
)
edge-IsCurrentAt now total out (some o) none ign r p l h = cc
edge-IsCurrentAt now total out (some o) (some p) (some false) r e l h =
    close-IsLog r.time (total + distance_of r) out (add_row (r.time - p.time) o r) r refl
      (add_row-IsOpenAt now total out o p r e l h)
edge-IsCurrentAt now total out (some o) (some p) (some true) r e l h =
    add_row-IsOpenAt now total out o p r e l h
edge-IsCurrentAt now total out (some o) (some p) none r e l h =
    add_row-IsOpenAt now total out o p r e l h

close_last :
    (now total : ℕ) (last : RawPosition) (out : List EngineSession) (current : Option OpenSession)
    (ign : Option Bool)
    → last.time ≡ now
    → IsCurrentAt now total out current
    → IsLog now total (
        ignition_loop (some last) (record { out = out; current = current; last_ignition = ign }) [])
unfolding ignition_loop IsCurrentAt
close_last now total last out none ign e h = h
close_last now total last out (some o) ign e h = close-IsLog now total out o last e h

ignition_loop-IsLog :
    (now total : ℕ) (prev : Option RawPosition) (s : IgnitionState) (rows : List RawPosition)
    → IsPreceded now s.current prev
    → IsSorted now rows
    → IsCurrentAt now total s.out s.current
    → IsLog (last_time now rows) (total + distance_sum rows) (ignition_loop prev s rows)
unfolding ignition_loop IsSorted distance_sum last_time IsPreceded IsCurrentAt
ignition_loop-IsLog now total none s [] p sorted h =
    let held : IsLog now total s.out = subst (λ c. IsCurrentAt now total s.out c) p h in
    IsLog-mono now now total (total + 0) s.out (omega arith) (omega arith) held
ignition_loop-IsLog now total (some last) s [] p sorted h =
    IsLog-mono now now total (total + 0) (ignition_loop (some last) s []) (omega arith)
      (omega arith) (close_last now total last s.out s.current s.last_ignition p h)
ignition_loop-IsLog now total prev s (r ∷ rows) p (l, sorted) h =
    let next = ignition_round prev s r in
    IsLog-mono (last_time r.time rows) (last_time r.time rows)
      (total + distance_of r + distance_sum rows) (total + (distance_of r + distance_sum rows))
      (ignition_loop (some r) next rows) (omega arith) (omega arith)
      (ignition_loop-IsLog r.time (total + distance_of r) (some r) next rows refl sorted (
        edge-IsCurrentAt now total s.out s.current prev (inherit r.ignition s.last_ignition) r p l
          h))

-- The sessions that `buildSessionsByIgnition` makes of rows in order of time: each starts no later
-- than it ends, its driving and idle times together are within its duration, they are numbered
-- from 1, a session ends no later than the next one starts, the last one by the last row, and
-- their distances together are at most what the rows report.
build_sessions_by_ignition-IsLog :
    (rows : List RawPosition)
    → IsSorted 0 rows
    → IsLog (last_time 0 rows) (distance_sum rows) (reverse (build_sessions_by_ignition rows))
unfolding build_sessions_by_ignition IsCurrentAt IsLog IsPreceded
build_sessions_by_ignition-IsLog rows sorted =
    let start : IgnitionState = record { out = []; current = none; last_ignition = none } in
    rw (reverse-reverse (ignition_loop none start rows)) (
      IsLog-mono (last_time 0 rows) (last_time 0 rows) (0 + distance_sum rows) (distance_sum rows)
        (ignition_loop none start rows) (omega arith) (omega arith)
        (ignition_loop-IsLog 0 0 none start rows refl sorted tt))

abbrev pub times : EngineSession → ℕ × ℕ
times s = (s.duration, s.idle)

started : RawPosition → MotionState
started a = record {
  out = [];
  current = some (record { session = start_session motion 1 a; last_moving = a });
}

motion_start :
    (a : RawPosition)
    → is_moving a ≡ true
    → motion_round none (record { out = []; current = none }) a ≡ started a
unfolding motion_round started
motion_start a ma = rw ma refl

motion_stop :
    (a b : RawPosition)
    → is_moving b ≡ false
    → motion_break ≤ b.time - a.time
    → b.time - a.time < time_gap_break
    → motion_round (some a) (started a) b ≡ record {
      out =
          close_session
            (record (add_row (b.time - a.time) (start_session motion 1 a) b) {
              drive = 0;
              idle = 0 + (b.time - a.time);
            })
            a
          ∷ [];
      current = none;
    }
unfolding motion_round started
motion_stop a b mb long short =
    let counted : counts (b.time - a.time) ≡ true = ground arith in
    let stopped : leb motion_break (b.time - a.time) ≡ true = ground arith in
    rw mb (rw counted (rw stopped refl))

-- Without ignition reports, a session that a stop of 10 to 30 minutes closes keeps the stop as
-- idle time, although it ends before the stop: of a moving row and a standing one after it,
-- `buildEngineSessions` makes one session of duration 0 whose idle time is the whole stop.
idle_exceeds_duration :
    (a b : RawPosition)
    → is_moving a ≡ true
    → is_moving b ≡ false
    → a.ignition ≡ none
    → b.ignition ≡ none
    → motion_break ≤ b.time - a.time
    → b.time - a.time < time_gap_break
    → map times (build_engine_sessions (a ∷ b ∷ [])) ≡ (0, b.time - a.time) ∷ []
unfolding build_engine_sessions build_sessions_by_motion motion_loop motion_round
idle_exceeds_duration a b ma mb ia ib long short =
    let signal : has_ignition_signal (a ∷ b ∷ []) ≡ false = rw ia (rw ib refl) in
    let first = motion_start a ma in
    let second = motion_stop a b mb long short in
    let none_left : a.time - a.time ≡ 0 = omega arith in
    let all_idle : 0 + (b.time - a.time) ≡ b.time - a.time = omega arith in
    rw signal (
      ap (λ xs. map times (reverse xs))
        (ap (λ s. motion_loop (some a) s (b ∷ [])) first
          ∙ ap (λ s. motion_loop (some b) s []) second)
      ∙ rw none_left (rw all_idle refl))
