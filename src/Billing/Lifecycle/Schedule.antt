-- ===== src/Billing/Lifecycle/Schedule.antt =====
-- What a run of the job, and a series of runs, makes of each subscription.
use fleex.Common.{
  ℕ, ◌+◌, ◌≡◌, refl, sym, ap, ◌∙◌, Option, none, some, List, [], ◌∷◌, map, ltb, if◌then◌else◌,
  arith, max,
}
use fleex.Billing.Store.{
  Subscription, SubscriptionStatus, trial, active, past_due, suspended, cancelled,
}
use fleex.Billing.Lifecycle.{grace_ms, run_lifecycle}

-- The status of one subscription after a run, said without the two statements: past due once the
-- period has ended, suspended once it ended more than the grace time ago, and else unchanged.
abbrev pub status_after : ℕ → SubscriptionStatus → Option ℕ → SubscriptionStatus
status_after now s none = s
status_after now suspended (some e) = suspended
status_after now cancelled (some e) = cancelled
status_after now past_due (some e) = if ltb (e + grace_ms) now then suspended else past_due
status_after now trial (some e) =
    if ltb (e + grace_ms) now then suspended else if ltb e now then past_due else trial
status_after now active (some e) =
    if ltb (e + grace_ms) now then suspended else if ltb e now then past_due else active

abbrev pub after_run : ℕ → Subscription → Subscription
after_run now s = record s { status = status_after now s.status s.current_period_end }

-- A run changes every subscription as `status_after` says and nothing else of it, and keeps the
-- rows in their order.
pub run_lifecycle-map :
    (now : ℕ) (subs : List Subscription) → (run_lifecycle now subs).0 ≡ map (after_run now) subs
unfolding run_lifecycle
run_lifecycle-map now [] = refl
run_lifecycle-map now (s ∷ subs) = ground (arith, run_lifecycle-map now subs)

status_after_twice :
    (t u : ℕ) (s : SubscriptionStatus) (e : Option ℕ)
    → status_after u (status_after t s e) e ≡ status_after (max t u) s e
status_after_twice t u s none = refl
status_after_twice t u trial (some e) = ground arith
status_after_twice t u active (some e) = ground arith
status_after_twice t u past_due (some e) = ground arith
status_after_twice t u suspended (some e) = refl
status_after_twice t u cancelled (some e) = refl

after_run_twice :
    (t u : ℕ) (subs : List Subscription)
    → map (after_run u) (map (after_run t) subs) ≡ map (after_run (max t u)) subs
after_run_twice t u [] = refl
after_run_twice t u (s ∷ subs) =
    ground (arith, status_after_twice t u s.status s.current_period_end, after_run_twice t u subs)

-- The job run at one time and then at others, in any order of the times.
abbrev pub run_all : List ℕ → ℕ → List Subscription → List Subscription
run_all [] t subs = (run_lifecycle t subs).0
run_all (u ∷ ts) t subs = run_all ts u (run_lifecycle t subs).0

abbrev pub latest : List ℕ → ℕ → ℕ
latest [] t = t
latest (u ∷ ts) t = latest ts (max t u)

run_all-map :
    (ts : List ℕ) (t u : ℕ) (subs : List Subscription)
    → run_all ts u (map (after_run t) subs) ≡ map (after_run (latest ts (max t u))) subs
run_all-map [] t u subs = run_lifecycle-map u (map (after_run t) subs) ∙ after_run_twice t u subs
run_all-map (v ∷ ts) t u subs =
    ap (run_all ts v) (run_lifecycle-map u (map (after_run t) subs) ∙ after_run_twice t u subs)
    ∙ run_all-map ts (max t u) v subs

-- However often the job runs and whatever the order of the times, what comes out is what one run
-- at the latest of the times makes of the subscriptions.
pub run_all-latest :
    (ts : List ℕ) (t : ℕ) (subs : List Subscription)
    → run_all ts t subs ≡ (run_lifecycle (latest ts t) subs).0
run_all-latest [] t subs = refl
run_all-latest (u ∷ ts) t subs =
    ap (run_all ts u) (run_lifecycle-map t subs)
    ∙ run_all-map ts t u subs
    ∙ sym (run_lifecycle-map (latest ts (max t u)) subs)
