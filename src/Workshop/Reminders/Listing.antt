-- ===== src/Workshop/Reminders/Listing.antt =====
-- Which tasks a run of services/api/src/service-tasks/service-reminder-cron.service.ts mails.
use mathlib.Core.List.{Memᴰ}
use fleex.Common.{
  ℕ, ◌<◌, ◌≡◌, refl, ap, sym, ◌∙◌, ◌↔◌, Bool, true, false, not, ◌&&◌, ◌||◌, Option, none, some,
  List, [], ◌∷◌, any, any-append, ◌==◌, arith, Bool-cases, inl, inr,
}
use fleex.Common.Keys.{Key, is_claimed}
use fleex.Common.Texts.{Text}
use fleex.Workshop.Prediction.{Planned, or_zero, remaining, is_some, urgency}
use fleex.Workshop.Reminders.{
  Manager, Row, Run, Claimed, is_empty, recipients, company_tasks, due_days, claim_row, claim_rows,
  send_rows, run_company,
}
use fleex.Workshop.Reminders.Quiet.{any-sort_rows, is_empty-mem, is_row_of, lists}
use fleex.Workshop.Reminders.Agreement.{IsNear, due_days_iff}

abbrev is_due : ℕ → Planned → Bool
is_due id t = t.id == id && is_some (due_days t)

module _ (id now : ℕ) where
  abbrev is_listed : Claimed → Bool
  is_listed c = any (is_row_of id) c.rows

  -- The task is listed, or its key is free and `more` holds.
  abbrev is_listed_or : Claimed → Bool → Bool
  is_listed_or c more = is_listed c || (not (is_claimed now id c.keys) && more)

  claim_row-is_listed_or :
      (t : Planned) (o : Option ℕ) (c : Claimed) (more : Bool)
      → is_listed_or (claim_row now t o c) more ≡ is_listed_or c ((t.id == id && is_some o) || more)
  claim_row-is_listed_or t none c more = ground arith
  claim_row-is_listed_or t (some d) c more =
      let row : Row = record { task_id = t.id; days_until = d; remaining = remaining t } in
      elim (Bool-cases (t.id == id)) [
        | inl e ↦
            let same : is_claimed now t.id c.keys ≡ is_claimed now id c.keys =
              ap (λ k. is_claimed now k c.keys) (ground (arith, e)) in
            ground (arith, same, any-append (is_row_of id) c.rows (row ∷ []))
        | inr e ↦ ground (arith, any-append (is_row_of id) c.rows (row ∷ []))
      ]

  claim_rows-is_listed_or :
      (ts : List Planned) (c : Claimed)
      → is_listed (claim_rows now ts c) ≡ is_listed_or c (any (is_due id) ts)
  unfolding claim_rows
  claim_rows-is_listed_or [] c = ground arith
  claim_rows-is_listed_or (t ∷ ts) c =
      claim_rows-is_listed_or ts (claim_row now t (due_days t) c)
      ∙ claim_row-is_listed_or t (due_days t) c (any (is_due id) ts)

  send_rows-lists :
      (to : List Text) (keys : List Key) (rows : List Row) (st : Run)
      → any (lists id) st.mails ≡ false
      → any (lists id) (send_rows true to keys rows st).mails ≡ any (is_row_of id) rows
  send_rows-lists to keys [] st h = h
  send_rows-lists to keys (r ∷ rows) st h = ground (arith, any-sort_rows (is_row_of id) (r ∷ rows))

any-mem :
    (p : Planned → Bool) (t : Planned) (ts : List Planned)
    → Memᴰ t ts
    → p t ≡ true
    → any p ts ≡ true
any-mem p t [] m h = elim m [ ]
any-mem p t (u ∷ ts) (Memᴰ.head e) h =
    let first : p u ≡ true = ap p (sym e) ∙ h in ground (arith, first)
any-mem p t (u ∷ ts) (Memᴰ.tail m) h = ground (arith, any-mem p t ts m h)

any-none :
    (p : Planned → Bool) (ts : List Planned)
    → ((u : Planned) → Memᴰ u ts → p u ≡ false)
    → any p ts ≡ false
any-none p [] h = refl
any-none p (u ∷ ts) h =
    ground (arith, h u (Memᴰ.head refl), any-none p ts (λ v m. h v (Memᴰ.tail m)))

-- With ids that are unique, some task with the id is due when the task is.
any-is_due :
    (t : Planned) (ts : List Planned)
    → Memᴰ t ts
    → ((u : Planned) → Memᴰ u ts → u.id ≡ t.id → u ≡ t)
    → any (is_due t.id) ts ≡ is_some (due_days t)
any-is_due t ts m own = elim (Bool-cases (is_some (due_days t))) [
  | inl due ↦ any-mem (is_due t.id) t ts m (ground (arith, due)) ∙ sym due
  | inr idle ↦ any-none (is_due t.id) ts (other idle) ∙ sym idle
]
  where
    other : is_some (due_days t) ≡ false → (u : Planned) → Memᴰ u ts → is_due t.id u ≡ false
    other idle u n = elim (Bool-cases (u.id == t.id)) [
      | inl e ↦
          let same : is_some (due_days u) ≡ false =
            ap (λ v. is_some (due_days v)) (own u n (ground (arith, e))) ∙ idle in
          ground (arith, same)
      | inr e ↦ ground (arith, e)
    ]

run_company-lists :
    (delivered : ℕ → Bool) (managers : List Manager) (tasks : List Planned) (now company id : ℕ)
    (st : Run)
    → is_empty (company_tasks company tasks) ≡ false
    → is_empty (recipients company managers) ≡ false
    → delivered company ≡ true
    → any (lists id) st.mails ≡ false
    → any (lists id) (run_company delivered managers tasks now company st).mails
      ≡ (not (is_claimed now id st.keys) && any (is_due id) (company_tasks company tasks))
unfolding run_company
run_company-lists delivered managers tasks now company id st some_task to goes none_yet =
    let start : Claimed = record { keys = st.keys; rows = [] } in
    let ts = company_tasks company tasks in
    let c = claim_rows now ts start in
    rw some_task (
      rw to (
        rw goes (
          send_rows-lists id now (recipients company managers) c.keys c.rows st none_yet
          ∙ claim_rows-is_listed_or id now ts start)))

-- When a company has an address to write to and its mail goes through, a run lists one of its
-- tasks, which had been in no mail of the run, exactly when the key of the task is free, the
-- endpoint shows the task as due soon or overdue, and the vehicle drove in the last 30 days: an
-- overdue task of a vehicle that stands is never listed. Ids of tasks are taken to be unique.
pub mailed_iff :
    (delivered : ℕ → Bool) (managers : List Manager) (tasks : List Planned) (now company : ℕ)
    (t : Planned) (st : Run)
    → Memᴰ t (company_tasks company tasks)
    → ((u : Planned) → Memᴰ u (company_tasks company tasks) → u.id ≡ t.id → u ≡ t)
    → is_empty (recipients company managers) ≡ false
    → delivered company ≡ true
    → any (lists t.id) st.mails ≡ false
    → (any (lists t.id) (run_company delivered managers tasks now company st).mails ≡ true)
      ↔ ((is_claimed now t.id st.keys ≡ false) × IsNear (urgency t) × (0 < or_zero t.distance_30d))
mailed_iff delivered managers tasks now company t st m own to goes none_yet =
    let ts = company_tasks company tasks in
    let shown =
      run_company-lists delivered managers tasks now company t.id st (is_empty-mem t ts m) to goes
        none_yet in
    let due = any-is_due t ts m own in
    let (near, listed) = due_days_iff t in
    (
      λ h.
          let free : is_claimed now t.id st.keys ≡ false = ground (arith, shown, due, h) in
          let yes : is_some (due_days t) ≡ true = ground (arith, shown, due, h) in
          let (soon, drove) = near yes in (free, soon, drove),
      λ h. let yes = listed (h.1, h.2) in let free = h.0 in ground (arith, shown, due, yes, free),
    )
