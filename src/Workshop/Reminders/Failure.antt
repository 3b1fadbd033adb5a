-- ===== src/Workshop/Reminders/Failure.antt =====
-- What a mail that does not go through costs.
use mathlib.Core.List.{Memᴰ}
use fleex.Common.{
  ℕ, ◌+◌, ◌<◌, ◌≡◌, refl, Bool, true, false, Option, none, some, List, [], ◌∷◌, ◌++◌, any, arith,
  All, inl, inr, ◌⊎◌,
}
use fleex.Common.Keys.{Key, is_claimed, holds}
use fleex.Common.Texts.{Text}
use fleex.Workshop.Prediction.{Planned, remaining}
use fleex.Workshop.Reminders.{
  Manager, Row, Run, Claimed, cooldown_ms, is_empty, recipients, company_tasks, due_days, claim_row,
  claim_rows, send_rows, run_company, Round, run_rounds,
}
use fleex.Workshop.Reminders.Quiet.{is_empty-mem, lists, run_rounds_quiet}

module _ (id now : ℕ) where
  -- The key of the task is still free, or was set and a row is there.
  IsFresh : Claimed → Type 0
  IsFresh c = is_claimed now id c.keys ≡ false

  abbrev IsDone : Claimed → Type 0
  IsDone c = (holds id (now + cooldown_ms) c.keys ≡ true) × (is_empty c.rows ≡ false)

  is_empty-append : (rows : List Row) (r : Row) → is_empty (rows ++ (r ∷ [])) ≡ false
  is_empty-append [] r = refl
  is_empty-append (s ∷ rows) r = refl

  claim_row-IsDone :
      (t : Planned) (o : Option ℕ) (c : Claimed) → IsDone c → IsDone (claim_row now t o c)
  claim_row-IsDone t none c h = h
  claim_row-IsDone t (some d) c h =
      let row : Row = record { task_id = t.id; days_until = d; remaining = remaining t } in
      ground (arith, is_empty-append c.rows row)

  claim_rows-IsDone : (ts : List Planned) (c : Claimed) → IsDone c → IsDone (claim_rows now ts c)
  unfolding claim_rows
  claim_rows-IsDone [] c h = h
  claim_rows-IsDone (t ∷ ts) c h =
      claim_rows-IsDone ts (claim_row now t (due_days t) c) (claim_row-IsDone t (due_days t) c h)

  -- Another task takes its own key.
  claim_row-IsFresh :
      (t : Planned) (o : Option ℕ) (c : Claimed)
      → IsFresh c
      → IsFresh (claim_row now t o c) ⊎ IsDone (claim_row now t o c)
  unfolding IsFresh
  claim_row-IsFresh t none c h = inl h
  claim_row-IsFresh t (some d) c h =
      let row : Row = record { task_id = t.id; days_until = d; remaining = remaining t } in
      ground (arith, is_empty-append c.rows row)

  claim_row_self :
      (t : Planned) (d : ℕ) (c : Claimed)
      → t.id ≡ id
      → IsFresh c
      → IsDone (claim_row now t (some d) c)
  unfolding IsFresh
  claim_row_self t d c same h =
      let row : Row = record { task_id = t.id; days_until = d; remaining = remaining t } in
      ground (arith, is_empty-append c.rows row)

  claim_rows_due :
      (t : Planned) (d : ℕ) (ts : List Planned) (c : Claimed)
      → t.id ≡ id
      → due_days t ≡ some d
      → Memᴰ t ts
      → IsFresh c
      → IsDone (claim_rows now ts c)
  unfolding claim_rows
  claim_rows_due t d [] c same due m h = elim m [ ]
  claim_rows_due t d (u ∷ ts) c same due (Memᴰ.head e) h =
      claim_rows-IsDone ts (claim_row now u (due_days u) c)
        (rw (← e) (rw due (claim_row_self t d c same h)))
  claim_rows_due t d (u ∷ ts) c same due (Memᴰ.tail m) h =
      elim (claim_row-IsFresh u (due_days u) c h) [
        | inl fresh ↦ claim_rows_due t d ts (claim_row now u (due_days u) c) same due m fresh
        | inr done ↦ claim_rows-IsDone ts (claim_row now u (due_days u) c) done
      ]

send_rows-false :
    (to : List Text) (keys : List Key) (rows : List Row) (st : Run)
    → is_empty rows ≡ false
    → send_rows false to keys rows st ≡ record st { keys = keys; threw = true }
send_rows-false to keys [] st h = cc
send_rows-false to keys (r ∷ rows) st h = refl

-- When a task is due and its key is free, and the mail of its company does not go through, the run
-- of the company throws and sends nothing; but the key is set, so that no run of the next seven
-- days lists the task either.
pub failed_mail_silences :
    (delivered : ℕ → Bool) (managers : List Manager) (tasks : List Planned) (now company d : ℕ)
    (t : Planned) (st : Run) (rs : List Round)
    → Memᴰ t (company_tasks company tasks)
    → due_days t ≡ some d
    → is_claimed now t.id st.keys ≡ false
    → is_empty (recipients company managers) ≡ false
    → delivered company ≡ false
    → All {0, 0} (λ r. r.now < now + cooldown_ms) rs
    → let st' = run_company delivered managers tasks now company st in
      (st'.threw ≡ true)
      × (st'.mails ≡ st.mails)
      × (any (lists t.id) (run_rounds rs st'.keys) ≡ false)
unfolding run_company IsFresh
failed_mail_silences delivered managers tasks now company d t st rs mem due free to lost early =
    let start : Claimed = record { keys = st.keys; rows = [] } in
    let ts = company_tasks company tasks in
    let c = claim_rows now ts start in
    let (held, listed) = claim_rows_due t.id now t d ts start refl due mem free in
    let quiet = run_rounds_quiet t.id (now + cooldown_ms) rs c.keys held early in
    rw (is_empty-mem t ts mem) (
      rw to (
        rw lost (
          rw (send_rows-false (recipients company managers) c.keys c.rows st listed)
            (refl, refl, quiet))))
