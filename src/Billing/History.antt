-- ===== src/Billing/History.antt =====
-- Histories of billing calls: every call of BillingService that changes rows, one after the other,
-- with the device creation that it guards. A call that throws leaves the rows as they were.
pub mod Ledger
use Prim.Native.String.{String}
use fleex.Common.{ℕ, ℤ, Option, List, [], ◌∷◌}
use fleex.Common.Results.{Result, ok, err}
use fleex.Access.Roles.{Actor}
use fleex.Billing.Store.{Store}
use fleex.Billing.Plans.{create_device, set_plan}
use fleex.Billing.Invoices.{InvoiceRequest, create_invoice, mark_invoice_paid, cancel_invoice}
use fleex.Billing.Lifecycle.{run_lifecycle}

pub data Call : Type 0 where
  creates : (now id company : ℕ) → InvoiceRequest → Call
  pays : (now id : ℕ) → Option ℕ → Call
  cancels : (id : ℕ) → Call
  sets_plan : (now company : ℕ) → String → Option ℤ → Call
  adds_device : (company group garage : Option ℕ) → Call
  ticks : (now : ℕ) → Call

abbrev pub after : Store → Result Store → Store
after db (ok db') = db'
after db (err e) = db

unfoldable pub step : Store → Actor × Call → Store
step db (actor, creates now id company body) =
    after db (create_invoice db actor now id company body)
step db (actor, pays now id reference) = after db (mark_invoice_paid db actor now id reference)
step db (actor, cancels id) = after db (cancel_invoice db actor id)
step db (actor, sets_plan now company key limit) =
    after db (set_plan db actor now company key limit)
step db (actor, adds_device company group garage) =
    after db (create_device db actor company group garage)
step db (actor, ticks now) = record db { subscriptions = (run_lifecycle now db.subscriptions).0 }

unfoldable pub run : Store → List (Actor × Call) → Store
run db [] = db
run db (c ∷ cs) = run (step db c) cs
