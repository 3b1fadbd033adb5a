-- ===== src/Billing/Lifecycle.antt =====
-- `runLifecycle` of services/api/src/billing/billing.service.ts, the daily job that moves
-- subscriptions on.
pub mod Schedule
use fleex.Common.{
  ℕ, ◌+◌, ◌*◌, ◌-◌, Bool, true, false, Option, none, some, List, ltb, ◌&&◌, filter, length,
  update_many,
}
use fleex.Common.Dates.{day_ms}
use fleex.Billing.Store.{
  Subscription, SubscriptionStatus, trial, active, past_due, suspended, cancelled, Store,
}

abbrev pub grace_ms : ℕ
grace_ms = 15 * day_ms

-- `{ not: null, lt: t }`
abbrev pub before : Option ℕ → ℕ → Bool
before none t = false
before (some e) t = ltb e t

abbrev pub is_running : SubscriptionStatus → Bool
is_running trial = true
is_running active = true
is_running _ = false

abbrev pub is_past_due : SubscriptionStatus → Bool
is_past_due past_due = true
is_past_due _ = false

-- The two statements of the transaction, in their order.
abbrev pub has_ended : ℕ → Subscription → Bool
has_ended now s = is_running s.status && before s.current_period_end now

abbrev pub grace_over : ℕ → Subscription → Bool
grace_over now s = is_past_due s.status && before s.current_period_end (now - grace_ms)

mark_past_due : ℕ → List Subscription → List Subscription
mark_past_due now = update_many (has_ended now) (λ s. record s { status = past_due })

suspend : ℕ → List Subscription → List Subscription
suspend now = update_many (grace_over now) (λ s. record s { status = suspended })

-- The new rows, and the counts of the two updates.
unfoldable pub run_lifecycle : ℕ → List Subscription → List Subscription × ℕ × ℕ
unfolding mark_past_due suspend
run_lifecycle now subs =
    let ended = mark_past_due now subs in
    (
      suspend now ended,
      length (filter (has_ended now) subs),
      length (filter (grace_over now) ended),
    )
