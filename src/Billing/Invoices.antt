-- ===== src/Billing/Invoices.antt =====
-- Invoices: `createInvoice`, `nextInvoiceNumber`, `markInvoicePaid` and `cancelInvoice` of
-- services/api/src/billing/billing.service.ts. The time of a call is an argument, and so is the id
-- that the database gives a new row. The newest invoice and the newest payment stand first. The
-- amounts are whole ₮.
pub mod Payments
pub mod Numbers
use Prim.Native.String.{String}
use fleex.Common.{
  ℕ, ◌+◌, ◌*◌, ◌%◌, ◌/◌, ℤ, pos, negsuc, Bool, true, false, Option, none, some, List, [], ◌∷◌, not,
  ◌&&◌, filter, length, contains, upsert, update_first, ltb, ◌==◌, if◌then◌else◌,
}
use fleex.Common.Results.{
  forbidden, bad_request, not_found, Result, ok, err, ◌>>=◌, ◌>>◌, throw_if, or_throw,
}
use fleex.Access.Roles.{Actor, is_super_admin}
use fleex.Billing.Catalog.{PlanDef, get_plan, is_plan_key, key_text, suggest_plan}
use fleex.Common.Dates.{day_ms, Civil, civil_of_days, add_months}
use fleex.Billing.Store.{
  Subscription, SubscriptionStatus, InvoiceStatus, InvoiceNumber, Invoice, Payment, Store,
  find_subscription, find_invoice, count_devices,
}

pub record InvoiceRequest : Type 0 where
  pub plan_key : Option String
  pub months : ℕ
  pub amount : Option ℤ

abbrev pub allowed_months : List ℕ
allowed_months = 1 ∷ 2 ∷ 3 ∷ 4 ∷ 5 ∷ 6 ∷ 7 ∷ 8 ∷ 9 ∷ 10 ∷ 11 ∷ 12 ∷ 24 ∷ 36 ∷ []

abbrev pub same_prefix : ℕ → ℕ → Invoice → Bool
same_prefix yy mm i = i.invoice_number.yy == yy && i.invoice_number.mm == mm

unfoldable pub next_invoice_number : ℕ → List Invoice → InvoiceNumber
next_invoice_number now rows =
    let c = civil_of_days (now / day_ms) in
    let yy = c.year % 100 in
    let mm = c.month + 1 in
    record { yy = yy; mm = mm; seq = length (filter (same_prefix yy mm) rows) + 1 }

abbrev stored_key : Option Subscription → ℕ → String
stored_key none devices = key_text (suggest_plan devices).key
stored_key (some sub) devices = sub.plan_key

-- The plan that is invoiced: the one asked for, else the subscription's, else the suggested one.
unfoldable pub invoice_plan : Option String → Option Subscription → ℕ → String
invoice_plan none sub devices = stored_key sub devices
invoice_plan (some key) sub devices = if is_plan_key key then key else stored_key sub devices

abbrev end_after : Option ℕ → ℕ → ℕ
end_after none now = now
end_after (some e) now = if ltb now e then e else now

-- A period that is paid for and still runs is continued.
unfoldable pub period_start : Option Subscription → ℕ → ℕ
period_start none now = now
period_start (some sub) now = end_after sub.current_period_end now

unfoldable pub invoice_amount : Option ℤ → PlanDef → ℕ → ℕ
invoice_amount (some (pos amount)) plan months = amount
invoice_amount none plan months = if plan.custom then 0 else plan.monthly_price * months
invoice_amount (some (negsuc _)) plan months =
    if plan.custom then 0 else plan.monthly_price * months

unfoldable pub new_invoice : Store → Actor → ℕ → ℕ → ℕ → InvoiceRequest → Invoice
new_invoice db actor now id company body =
    let sub = find_subscription company db.subscriptions in
    let devices = count_devices company db in
    let key = invoice_plan body.plan_key sub devices in
    let start = period_start sub now in
    record {
      id = id;
      invoice_number = next_invoice_number now db.invoices;
      company_id = company;
      plan_key = key;
      months = body.months;
      device_count = devices;
      amount = invoice_amount body.amount (get_plan key) body.months;
      status = InvoiceStatus.sent;
      period_start = start;
      period_end = add_months start body.months;
      due_at = now + 7 * day_ms;
      paid_at = none;
      bank_reference = none;
      created_by_user_id = some actor.id;
    }

unfoldable pub create_invoice : Store → Actor → ℕ → ℕ → ℕ → InvoiceRequest → Result Store
create_invoice db actor now id company body = do
  throw_if (not (is_super_admin actor.role)) forbidden
  throw_if (not (contains allowed_months body.months)) bad_request
  throw_if (not (contains db.companies company)) not_found
  ok (record db { invoices = new_invoice db actor now id company body ∷ db.invoices })

abbrev pub is_sent : InvoiceStatus → Bool
is_sent InvoiceStatus.sent = true
is_sent InvoiceStatus.paid = false
is_sent InvoiceStatus.cancelled = false

abbrev pub is_paid : InvoiceStatus → Bool
is_paid InvoiceStatus.sent = false
is_paid InvoiceStatus.paid = true
is_paid InvoiceStatus.cancelled = false

abbrev pub paid_invoice : ℕ → Option ℕ → Invoice → Invoice
paid_invoice now reference i = record i {
  status = InvoiceStatus.paid;
  paid_at = some now;
  bank_reference = reference;
}

abbrev pub paid_subscription : ℕ → Invoice → Subscription
paid_subscription now inv = record {
  company_id = inv.company_id;
  plan_key = inv.plan_key;
  status = SubscriptionStatus.active;
  started_at = now;
  trial_ends_at = none;
  current_period_end = some inv.period_end;
  device_limit_override = none;
}

abbrev pub renewed : Invoice → Subscription → Subscription
renewed inv s = record s {
  plan_key = inv.plan_key;
  status = SubscriptionStatus.active;
  current_period_end = some inv.period_end;
}

abbrev pub payment_of : Actor → Invoice → Payment
payment_of actor inv = record {
  company_id = inv.company_id;
  plan_key = inv.plan_key;
  amount = inv.amount;
  period_start = inv.period_start;
  period_end = inv.period_end;
  reference = inv.invoice_number;
  recorded_by_user_id = some actor.id;
}

-- The transaction of `markInvoicePaid`.
unfoldable pub pay : Store → Actor → ℕ → Option ℕ → Invoice → Store
pay db actor now reference inv = record db {
  invoices = update_first (λ i. i.id == inv.id) (paid_invoice now reference) db.invoices;
  subscriptions =
      upsert (λ s. s.company_id == inv.company_id) (renewed inv) (paid_subscription now inv)
        db.subscriptions;
  payments = payment_of actor inv ∷ db.payments;
}

unfoldable pub mark_invoice_paid : Store → Actor → ℕ → ℕ → Option ℕ → Result Store
unfolding pay
mark_invoice_paid db actor now id reference = do
  throw_if (not (is_super_admin actor.role)) forbidden
  inv ← or_throw (find_invoice id db.invoices) not_found
  throw_if (not (is_sent inv.status)) bad_request
  ok (pay db actor now reference inv)

unfoldable pub cancel_invoice : Store → Actor → ℕ → Result Store
cancel_invoice db actor id = do
  throw_if (not (is_super_admin actor.role)) forbidden
  inv ← or_throw (find_invoice id db.invoices) not_found
  throw_if (is_paid inv.status) bad_request
  ok (record db {
    invoices =
        update_first (λ i. i.id == id) (λ i. record i { status = InvoiceStatus.cancelled })
          db.invoices;
  })
