-- ===== src/Billing/Invoices/Numbers.antt =====
-- The numbers of Billing/Invoices, and which are in use.
use fleex.Common.{
  ℕ, ◌+◌, ◌/◌, ◌%◌, ◌≤◌, ◌≡◌, ◌≢◌, ap, ap₂, Bool, true, List, [], ◌∷◌, arith, length, filter, All,
  All-imp, update_first, length-filter-update_same, Bool-cases, inl, inr,
}
use native.Mathlib.Nat.{le_trans}
use fleex.Common.Dates.{day_ms, civil_of_days}
use fleex.Billing.Store.{InvoiceNumber, Invoice}
use fleex.Billing.Invoices.{same_prefix, next_invoice_number}

abbrev pub count_prefix : ℕ → ℕ → List Invoice → ℕ
count_prefix yy mm rows = length (filter (same_prefix yy mm) rows)

-- Each invoice was numbered by one more than the invoices of its month that stood below it.
abbrev pub Numbered : List Invoice → Type 0
Numbered [] = Unit {0}
Numbered (i ∷ rows) =
    (i.invoice_number.seq ≡ count_prefix i.invoice_number.yy i.invoice_number.mm rows + 1)
    × Numbered rows

prefix_parts :
    (yy mm : ℕ) (i : Invoice)
    → same_prefix yy mm i ≡ true
    → (i.invoice_number.yy ≡ yy) × (i.invoice_number.mm ≡ mm)
prefix_parts yy mm i h = ground arith

ne_of_bound :
    (yy mm n : ℕ) (i : Invoice)
    → (same_prefix yy mm i ≡ true → i.invoice_number.seq ≤ n)
    → i.invoice_number ≢ record { yy = yy; mm = mm; seq = n + 1 }
ne_of_bound yy mm n i bound e =
    let y = ap (λ (k : InvoiceNumber). k.yy) e in
    let m = ap (λ (k : InvoiceNumber). k.mm) e in
    let s = ap (λ (k : InvoiceNumber). k.seq) e in
    let le = bound (ground arith) in absurd (omega arith)

bounded_seq :
    (yy mm : ℕ) (rows : List Invoice)
    → Numbered rows
    → All (λ i. same_prefix yy mm i ≡ true → i.invoice_number.seq ≤ count_prefix yy mm rows) rows
bounded_seq yy mm [] h = tt
bounded_seq yy mm (i ∷ rows) (h, hs) = (
  seq_le i h,
  All-imp rows (λ j le same. le_trans (le same) (count_mono i)) (bounded_seq yy mm rows hs),
)
  where
    seq_le :
        (j : Invoice)
        → j.invoice_number.seq ≡ count_prefix j.invoice_number.yy j.invoice_number.mm rows + 1
        → same_prefix yy mm j ≡ true
        → j.invoice_number.seq ≤ count_prefix yy mm (j ∷ rows)
    seq_le j e same =
        let (y, m) = prefix_parts yy mm j same in
        let c = ap₂ (λ a b. count_prefix a b rows) y m in ground arith

    count_mono : (j : Invoice) → count_prefix yy mm rows ≤ count_prefix yy mm (j ∷ rows)
    count_mono j = ground arith

-- The number of the next invoice differs from every number in use.
pub next_invoice_number_fresh :
    (now : ℕ) (rows : List Invoice)
    → Numbered rows
    → All (λ i. i.invoice_number ≢ next_invoice_number now rows) rows
unfolding next_invoice_number
next_invoice_number_fresh now rows h =
    let c = civil_of_days (now / day_ms) in
    let yy = c.year % 100 in
    let mm = c.month + 1 in
    All-imp rows (ne_of_bound yy mm (count_prefix yy mm rows)) (bounded_seq yy mm rows h)

pub Numbered-update_first :
    (p : Invoice → Bool) (f : Invoice → Invoice) (rows : List Invoice)
    → ((i : Invoice) → (f i).invoice_number ≡ i.invoice_number)
    → Numbered rows
    → Numbered (update_first p f rows)
Numbered-update_first p f [] same h = tt
Numbered-update_first p f (i ∷ rows) same (h, hs) = elim (Bool-cases (p i)) [
  | inl e ↦ rw e (rw (same i) h, hs)
  | inr e ↦ rw e (
    omega (
      arith,
      length-filter-update_same p (same_prefix i.invoice_number.yy i.invoice_number.mm) f rows
          (λ x _. rw (same x)),
    ),
    Numbered-update_first p f rows same hs,
  )
]
