-- ===== src/Billing/Invoices/Payments.antt =====
-- Paying and cancelling an invoice of Billing/Invoices.
use fleex.Common.{
  ℕ, ◌≡◌, refl, true, Option, some, List, ◌∷◌, ◌==◌, inl, inr, arith, upsert, update_first,
  find?-upsert, find?-update_first, not,
}
use fleex.Common.Results.{ok, err, bad_request, or_throw, >>=-eq-ok, >>-eq-ok}
use fleex.Access.Roles.{Actor, is_super_admin}
use fleex.Billing.Store.{
  Subscription, SubscriptionStatus, InvoiceStatus, Invoice, Store, find_subscription, find_invoice,
  find_invoice_id,
}
use fleex.Billing.Invoices.{
  is_sent, paid_invoice, pay, mark_invoice_paid, cancel_invoice, paid_subscription, renewed,
}

-- What a payment that goes through has found.
pub record Paid (db : Store) (actor : Actor) (now id : ℕ) (reference : Option ℕ) (db' : Store)
    : Type 0 where
  pub invoice : Invoice
  pub by_admin : is_super_admin actor.role ≡ true
  pub found : find_invoice id db.invoices ≡ some invoice
  pub was_sent : is_sent invoice.status ≡ true
  pub result : pay db actor now reference invoice ≡ db'

pub mark_invoice_paid-Paid :
    (db : Store) (actor : Actor) (now id : ℕ) (reference : Option ℕ) (db' : Store)
    → mark_invoice_paid db actor now id reference ≡ ok db'
    → Paid db actor now id reference db'
unfolding mark_invoice_paid
mark_invoice_paid-Paid db actor now id reference db' h =
    let (admin, h₁) = >>-eq-ok (not (is_super_admin actor.role)) _ _ h in
    let (inv, found, h₂) = >>=-eq-ok (or_throw (find_invoice id db.invoices) _) _ h₁ in
    let (sent, h₃) = >>-eq-ok (not (is_sent inv.status)) _ _ h₂ in
    record {
      invoice = inv;
      by_admin = ground arith;
      found = ground arith;
      was_sent = ground arith;
      result = ground arith;
    }

abbrev RunsOn : Invoice → Subscription → Type 0
RunsOn inv y =
    (y.status ≡ SubscriptionStatus.active)
    × (y.plan_key ≡ inv.plan_key)
    × (y.current_period_end ≡ some inv.period_end)

upsert-RunsOn :
    (now : ℕ) (inv : Invoice) (subs : List Subscription)
    → (y : Subscription) × (find_subscription inv.company_id (
          upsert
            (λ s. s.company_id == inv.company_id)
            (renewed inv)
            (paid_subscription now inv)
            subs)
        ≡ some y)
      × RunsOn inv y
upsert-RunsOn now inv subs =
    let (y, found, which) =
      find?-upsert (λ (s : Subscription). s.company_id == inv.company_id) (renewed inv)
        (paid_subscription now inv) subs (λ x h. h) (ground arith) in
    elim which [
      | inl (_, e) ↦ (y, found, rw e (refl, refl, refl))
      | inr (_, _, e) ↦ (y, found, rw e (refl, refl, refl))
    ]

found_paid :
    (k id now : ℕ) (reference : Option ℕ) (rows : List Invoice) (inv : Invoice)
    → k ≡ id
    → find_invoice id rows ≡ some inv
    → find_invoice id (update_first (λ i. i.id == k) (paid_invoice now reference) rows)
      ≡ some (paid_invoice now reference inv)
found_paid k id now reference rows inv e h = rw e (
    find?-update_first (λ (i : Invoice). i.id == id) (paid_invoice now reference) rows inv
      (λ x p. p) h)

eq-sent : (s : InvoiceStatus) → is_sent s ≡ true → s ≡ InvoiceStatus.sent
eq-sent s h = ground arith

-- A payment that goes through was recorded by a SUPER_ADMIN against a SENT invoice. It leaves the
-- invoice PAID with its time and bank reference and otherwise as before, the company's
-- subscription ACTIVE on the invoice's plan until exactly the invoice's period end (whatever it
-- was before), and on top of the ledger one payment of the invoice's company, plan, amount, period
-- and number, with the actor who recorded it.
pub mark_invoice_paid_effect :
    (db : Store) (actor : Actor) (now id : ℕ) (reference : Option ℕ) (db' : Store)
    → mark_invoice_paid db actor now id reference ≡ ok db'
    → (inv : Invoice) × (sub : Subscription) × (is_super_admin actor.role ≡ true)
      × (find_invoice id db.invoices ≡ some inv)
      × (inv.status ≡ InvoiceStatus.sent)
      × (find_invoice id db'.invoices
          ≡ some (record inv {
            status = InvoiceStatus.paid;
            paid_at = some now;
            bank_reference = reference;
          }))
      × (find_subscription inv.company_id db'.subscriptions ≡ some sub)
      × (sub.status ≡ SubscriptionStatus.active)
      × (sub.plan_key ≡ inv.plan_key)
      × (sub.current_period_end ≡ some inv.period_end)
      × (db'.payments
          ≡ record {
            company_id = inv.company_id;
            plan_key = inv.plan_key;
            amount = inv.amount;
            period_start = inv.period_start;
            period_end = inv.period_end;
            reference = inv.invoice_number;
            recorded_by_user_id = some actor.id;
          }
            ∷ db.payments)
unfolding pay
mark_invoice_paid_effect db actor now id reference db' h =
    let p = mark_invoice_paid-Paid db actor now id reference db' h in
    let (sub, found, runs) = upsert-RunsOn now p.invoice db.subscriptions in
    (
      p.invoice,
      sub,
      p.by_admin,
      p.found,
      eq-sent p.invoice.status p.was_sent,
      rw (← p.result) (
          found_paid p.invoice.id id now reference db.invoices p.invoice
            (find_invoice_id id db.invoices p.invoice p.found) p.found),
      rw (← p.result) found,
      runs.0,
      runs.1,
      runs.2,
      rw (← p.result),
    )

-- An invoice that has been paid can be neither paid again nor cancelled.
paid_is_final :
    (db : Store) (actor other : Actor) (now later id : ℕ) (reference again : Option ℕ) (db' : Store)
    → mark_invoice_paid db actor now id reference ≡ ok db'
    → is_super_admin other.role ≡ true
    → (mark_invoice_paid db' other later id again ≡ err bad_request)
      × (cancel_invoice db' other id ≡ err bad_request)
unfolding mark_invoice_paid cancel_invoice
paid_is_final db actor other now later id reference again db' h admin =
    let found = (mark_invoice_paid_effect db actor now id reference db' h).5 in
    rw admin (rw found (refl, refl))
