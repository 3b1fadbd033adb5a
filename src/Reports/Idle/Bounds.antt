-- ===== src/Reports/Idle/Bounds.antt =====
-- What the periods of Reports/Idle promise.
use fleex.Common.{
  ℕ, ◌+◌, ◌-◌, ◌≤◌, ◌≡◌, Bool, true, false, Option, none, some, List, [], ◌∷◌, length, ltb, leb,
  inl, inr, refl, sym, not, ◌&&◌, Bool-cases, arith,
}
use mathlib.Core.Path.{subst}
use mathlib.Core.List.{reverse, reverse-reverse}
use fleex.Reports.Positions.{
  RawPosition, idle_min, elapsed, has_ignition_signal, inherit, is_moving,
}
use fleex.Reports.Trips.Bounds.{IsSorted, last_time}
use fleex.Reports.Idle.{
  IdlePeriod, OpenIdle, IdleState, IdleReason, close_idle, close_before, break_gap, stand_or_close,
  idle_loop, build_idle_periods, engine_on, idle_reason,
}

-- Periods from the newest back: each ends by a time, before the next one starts, and is as long as
-- the minimum at least.
unfoldable pub IsIdleLog : ℕ → List IdlePeriod → Type 0
IsIdleLog until [] = Unit
IsIdleLog until (x ∷ xs) =
    (x.end_at ≤ until)
    × (x.duration ≡ x.end_at - x.start_at)
    × (idle_min ≤ x.duration)
    × (x.period_num ≡ length xs + 1)
    × IsIdleLog x.start_at xs

IsIdleLog-mono : (u v : ℕ) (xs : List IdlePeriod) → u ≤ v → IsIdleLog u xs → IsIdleLog v xs
unfolding IsIdleLog
IsIdleLog-mono u v [] a h = tt
IsIdleLog-mono u v (x ∷ xs) a (e, d, m, n, rest) = (omega arith, d, m, n, rest)

IsCurrentAt : ℕ → List IdlePeriod → Option OpenIdle → Type 0
IsCurrentAt now out none = IsIdleLog now out
IsCurrentAt now out (some o) = (o.start.time ≤ now) × IsIdleLog o.start.time out

-- The row before is at that time, and there is one once a period is open.
IsPreceded : ℕ → Option OpenIdle → Option RawPosition → Type 0
IsPreceded now current none = current ≡ none
IsPreceded now current (some p) = p.time ≡ now

close_idle-IsIdleLog :
    (now : ℕ) (out : List IdlePeriod) (o : OpenIdle) (last : RawPosition)
    → last.time ≡ now
    → IsCurrentAt now out (some o)
    → IsIdleLog now (close_idle out o last)
unfolding close_idle IsIdleLog IsCurrentAt
close_idle-IsIdleLog now out o last e (l, h) =
    elim (Bool-cases (leb 60_000 (last.time - o.start.time))) [
      | inl k ↦ rw k (omega arith, refl, ground arith, refl, h)
      | inr k ↦ rw k (IsIdleLog-mono o.start.time now out l h)
    ]

close_before-IsCurrentAt :
    (now : ℕ) (out : List IdlePeriod) (current : Option OpenIdle) (prev : Option RawPosition)
    → IsPreceded now current prev
    → IsCurrentAt now out current
    → (let s = close_before prev (record { out = out; current = current }) in
        (s.current ≡ none) × IsIdleLog now s.out)
unfolding close_before IsPreceded IsCurrentAt
close_before-IsCurrentAt now out none none p h = (refl, h)
close_before-IsCurrentAt now out (some o) none p h = cc
close_before-IsCurrentAt now out none (some q) p h = (refl, h)
close_before-IsCurrentAt now out (some o) (some q) p h =
    (refl, close_idle-IsIdleLog now out o q p h)

IsStateAt : ℕ → Option RawPosition → IdleState → Type 0
IsStateAt now prev s = IsPreceded now s.current prev × IsCurrentAt now s.out s.current

closed-IsStateAt :
    (now : ℕ) (prev : Option RawPosition) (s : IdleState)
    → IsStateAt now prev s
    → IsStateAt now prev (close_before prev s)
unfolding IsStateAt IsPreceded IsCurrentAt
closed-IsStateAt now none s h =
    let c = close_before-IsCurrentAt now s.out s.current none h.0 h.1 in
    (c.0, subst (IsCurrentAt now (close_before none s).out) (sym c.0) c.1)
closed-IsStateAt now (some q) s h =
    let c = close_before-IsCurrentAt now s.out s.current (some q) h.0 h.1 in
    (h.0, subst (IsCurrentAt now (close_before (some q) s).out) (sym c.0) c.1)

break_gap-IsStateAt :
    (now : ℕ) (prev : Option RawPosition) (r : RawPosition) (s : IdleState)
    → IsStateAt now prev s
    → IsStateAt now prev (break_gap prev r s)
unfolding break_gap
break_gap-IsStateAt now prev r s h = elim (Bool-cases (ltb 1_800_000 (elapsed prev r))) [
  | inl e ↦ rw e (closed-IsStateAt now prev s h)
  | inr e ↦ rw e h
]

stays-IsCurrentAt :
    (now : ℕ) (reason : IdleReason) (out : List IdlePeriod) (current : Option OpenIdle)
    (prev : Option RawPosition) (r : RawPosition)
    → now ≤ r.time
    → IsCurrentAt now out current
    → (let s = stand_or_close true reason prev r (record { out = out; current = current }) in
        IsCurrentAt r.time s.out s.current)
unfolding stand_or_close IsCurrentAt
stays-IsCurrentAt now reason out none prev r l h = (omega arith, IsIdleLog-mono now r.time out l h)
stays-IsCurrentAt now reason out (some o) prev r l (a, h) = (omega arith, h)

stand_or_close-IsStateAt :
    (now : ℕ) (stands : Bool) (reason : IdleReason) (prev : Option RawPosition) (r : RawPosition)
    (s : IdleState)
    → now ≤ r.time
    → IsStateAt now prev s
    → IsStateAt r.time (some r) (stand_or_close stands reason prev r s)
unfolding stand_or_close IsStateAt IsPreceded IsCurrentAt
stand_or_close-IsStateAt now true reason prev r s l h =
    (refl, stays-IsCurrentAt now reason s.out s.current prev r l h.1)
stand_or_close-IsStateAt now false reason prev r s l h =
    let c = close_before-IsCurrentAt now s.out s.current prev h.0 h.1 in
    (
      refl,
      subst (IsCurrentAt r.time (close_before prev s).out) (sym c.0)
          (IsIdleLog-mono now r.time (close_before prev s).out l c.1),
    )

idle_loop-IsIdleLog :
    (has_ign : Bool) (now : ℕ) (prev : Option RawPosition) (last_ign : Option Bool) (s : IdleState)
    (rows : List RawPosition)
    → IsSorted now rows
    → IsStateAt now prev s
    → IsIdleLog (last_time now rows) (idle_loop has_ign prev last_ign s rows)
unfolding idle_loop IsSorted last_time IsStateAt
idle_loop-IsIdleLog has_ign now prev last_ign s [] sorted h =
    (close_before-IsCurrentAt now s.out s.current prev h.0 h.1).1
idle_loop-IsIdleLog has_ign now prev last_ign s (r ∷ rows) (l, sorted) h =
    let ign = inherit r.ignition last_ign in
    let stands = not (is_moving r) && engine_on has_ign ign in
    idle_loop-IsIdleLog has_ign r.time (some r) ign
      (stand_or_close stands (idle_reason has_ign) prev r (break_gap prev r s)) rows sorted
      (stand_or_close-IsStateAt now stands (idle_reason has_ign) prev r (break_gap prev r s) l
        (break_gap-IsStateAt now prev r s h))

-- The periods that `buildIdlePeriods` makes of rows in order of time: each lasts a minute at least
-- and as long as from its start to its end, they are numbered from 1, a period ends no later than
-- the next one starts, and the last one by the last row.
build_idle_periods-IsIdleLog :
    (rows : List RawPosition)
    → IsSorted 0 rows
    → IsIdleLog (last_time 0 rows) (reverse (build_idle_periods rows))
unfolding build_idle_periods IsStateAt IsCurrentAt IsIdleLog IsPreceded
build_idle_periods-IsIdleLog rows sorted =
    let start : IdleState = record { out = []; current = none } in
    let has_ign = has_ignition_signal rows in
    rw (reverse-reverse (idle_loop has_ign none none start rows))
      (idle_loop-IsIdleLog has_ign 0 none none start rows sorted (refl, tt))
