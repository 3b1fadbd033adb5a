-- ===== src/Billing/History/Ledger.antt =====
-- The invoices and payments of Billing/History.
use Prim.Native.String.{String}
use mathlib.Core.Path.{subst}
use fleex.Common.{
  ℕ, ◌≡◌, ◌≢◌, refl, sym, ap, ◌∙◌, true, false, Option, some, List, [], ◌∷◌, ◌==◌, arith, length,
  filter, update_first, length-filter-update_first, length-filter-update_same, not, ℤ, All,
}
use fleex.Common.Results.{Result, ok, err, or_throw, >>-eq-ok, >>=-eq-ok}
use fleex.Access.Roles.{Actor, is_super_admin}
use fleex.Billing.Store.{InvoiceStatus, Invoice, Store, find_invoice, find_invoice_id}
use fleex.Billing.Plans.{create_device, set_plan}
use fleex.Billing.Invoices.{
  InvoiceRequest, is_sent, is_paid, paid_invoice, create_invoice, new_invoice, mark_invoice_paid,
  cancel_invoice, pay, next_invoice_number,
}
use fleex.Billing.Invoices.Numbers.{Numbered, Numbered-update_first, next_invoice_number_fresh}
use fleex.Billing.Invoices.Payments.{mark_invoice_paid-Paid}
use fleex.Billing.History.{
  Call, creates, pays, cancels, sets_plan, adds_device, ticks, after, step, run,
}

abbrev pub count_paid : List Invoice → ℕ
count_paid rows = length (filter (λ i. is_paid i.status) rows)

-- The invoices are numbered in order, and there is a payment for each paid invoice.
pub record InOrder (db : Store) : Type 0 where
  pub numbered : Numbered db.invoices
  pub balanced : length db.payments ≡ count_paid db.invoices

create_invoice-InOrder :
    (db : Store) (actor : Actor) (now id company : ℕ) (body : InvoiceRequest)
    → InOrder db
    → InOrder (after db (create_invoice db actor now id company body))
unfolding create_invoice new_invoice next_invoice_number
create_invoice-InOrder db actor now id company body v = ground arith

found_self :
    (id : ℕ) (rows : List Invoice) (inv : Invoice)
    → find_invoice id rows ≡ some inv
    → find_invoice inv.id rows ≡ some inv
found_self id rows inv h = ap (λ k. find_invoice k rows) (find_invoice_id id rows inv h) ∙ h

after-InOrder :
    (db : Store) (r : Result Store)
    → InOrder db
    → ((db' : Store) → r ≡ ok db' → InOrder db')
    → InOrder (after db r)
after-InOrder db (ok db') v h = h db' refl
after-InOrder db (err e) v h = v

pay-InOrder :
    (db : Store) (actor : Actor) (now id : ℕ) (reference : Option ℕ) (inv : Invoice)
    → find_invoice id db.invoices ≡ some inv
    → is_sent inv.status ≡ true
    → InOrder db
    → InOrder (pay db actor now reference inv)
unfolding pay
pay-InOrder db actor now id reference inv found sent v = record {
  numbered =
      Numbered-update_first _ (paid_invoice now reference) db.invoices (λ i. refl) v.numbered;
  balanced = omega (
    arith,
    v.balanced,
    length-filter-update_first (λ i. i.id == inv.id) (λ i. is_paid i.status)
        (paid_invoice now reference) db.invoices inv (found_self id db.invoices inv found)
        (ground arith) refl,
  );
}

mark_invoice_paid-InOrder :
    (db : Store) (actor : Actor) (now id : ℕ) (reference : Option ℕ)
    → InOrder db
    → InOrder (after db (mark_invoice_paid db actor now id reference))
mark_invoice_paid-InOrder db actor now id reference v =
    after-InOrder db (mark_invoice_paid db actor now id reference) v λ db' h.
      let p = mark_invoice_paid-Paid db actor now id reference db' h in
      subst InOrder p.result (pay-InOrder db actor now id reference p.invoice p.found p.was_sent v)

abbrev cancelled : Invoice → Invoice
cancelled i = record i { status = InvoiceStatus.cancelled }

cancel-InOrder :
    (db : Store) (id : ℕ) (inv : Invoice)
    → find_invoice id db.invoices ≡ some inv
    → is_paid inv.status ≡ false
    → InOrder db
    → InOrder (record db { invoices = update_first (λ i. i.id == id) cancelled db.invoices })
cancel-InOrder db id inv found unpaid v = record {
  numbered = Numbered-update_first _ cancelled db.invoices (λ i. refl) v.numbered;
  balanced =
      v.balanced
      ∙ sym (
          length-filter-update_same (λ i. i.id == id) (λ i. is_paid i.status) cancelled db.invoices
            (λ x other. ground (arith, found, other)));
}

cancel_invoice-InOrder :
    (db : Store) (actor : Actor) (id : ℕ)
    → InOrder db
    → InOrder (after db (cancel_invoice db actor id))
unfolding cancel_invoice
cancel_invoice-InOrder db actor id v = after-InOrder db (cancel_invoice db actor id) v λ db' h.
    let (_, h₁) = >>-eq-ok (not (is_super_admin actor.role)) _ _ h in
    let (inv, found, h₂) = >>=-eq-ok (or_throw (find_invoice id db.invoices) _) _ h₁ in
    let (unpaid, h₃) = >>-eq-ok (is_paid inv.status) _ _ h₂ in
    let kept = cancel-InOrder db id inv (ground arith) unpaid v in
    let e : record db { invoices = update_first (λ i. i.id == id) cancelled db.invoices } ≡ db' =
      ground arith in
    subst InOrder e kept

create_device-InOrder :
    (db : Store) (actor : Actor) (company group garage : Option ℕ)
    → InOrder db
    → InOrder (after db (create_device db actor company group garage))
unfolding create_device
create_device-InOrder db actor company group garage v = ground arith

set_plan-InOrder :
    (db : Store) (actor : Actor) (now company : ℕ) (key : String) (limit : Option ℤ)
    → InOrder db
    → InOrder (after db (set_plan db actor now company key limit))
unfolding set_plan
set_plan-InOrder db actor now company key limit v = ground arith

step-InOrder : (db : Store) (c : Actor × Call) → InOrder db → InOrder (step db c)
unfolding step
step-InOrder db (actor, creates now id company body) v =
    create_invoice-InOrder db actor now id company body v
step-InOrder db (actor, pays now id reference) v =
    mark_invoice_paid-InOrder db actor now id reference v
step-InOrder db (actor, cancels id) v = cancel_invoice-InOrder db actor id v
step-InOrder db (actor, sets_plan now company key limit) v =
    set_plan-InOrder db actor now company key limit v
step-InOrder db (actor, adds_device company group garage) v =
    create_device-InOrder db actor company group garage v
step-InOrder db (actor, ticks now) v = record { numbered = v.numbered; balanced = v.balanced }

-- From rows in order, any history of billing calls leaves as many payments as paid invoices, and
-- the number that the next invoice would get at any time is not in use.
pub run-InOrder :
    (db : Store) (cs : List (Actor × Call)) (now : ℕ)
    → InOrder db
    → (length (run db cs).payments ≡ count_paid (run db cs).invoices)
      × All
          (λ i. i.invoice_number ≢ next_invoice_number now (run db cs).invoices)
          (run db cs).invoices
unfolding run
run-InOrder db [] now v = (v.balanced, next_invoice_number_fresh now db.invoices v.numbered)
run-InOrder db (c ∷ cs) now v = run-InOrder (step db c) cs now (step-InOrder db c v)
