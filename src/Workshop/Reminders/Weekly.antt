-- ===== src/Workshop/Reminders/Weekly.antt =====
-- That the key of a task keeps it out of the mails of a week.
use fleex.Common.{
  ℕ, ◌+◌, ◌<◌, ◌≡◌, refl, Bool, true, false, Option, none, some, List, [], ◌∷◌, any, any-append,
  filter, arith, All, inl, inr, ◌⊎◌,
}
use fleex.Common.Keys.{Key, holds}
use fleex.Common.Texts.{Text}
use fleex.Workshop.Prediction.{Planned, remaining}
use fleex.Workshop.Reminders.{
  Company, Manager, Row, Run, Claimed, cooldown_ms, company_tasks, due_days, claim_row, claim_rows,
  send_rows, remind, run, Round, run_rounds,
}
use fleex.Workshop.Reminders.Quiet.{
  any-sort_rows, is_row_of, lists, if_keep, run_slices-keep, run_company-keep, run_rounds_quiet,
}

-- A task that a run has listed has its key from then on.
module _ (id now : ℕ) where
  HasKeyRows : Claimed → Type 0
  HasKeyRows c = (holds id (now + cooldown_ms) c.keys ≡ true) ⊎ (any (is_row_of id) c.rows ≡ false)

  HasKey : Run → Type 0
  HasKey st = (holds id (now + cooldown_ms) st.keys ≡ true) ⊎ (any (lists id) st.mails ≡ false)

  claim_row-HasKey :
      (t : Planned) (o : Option ℕ) (c : Claimed) → HasKeyRows c → HasKeyRows (claim_row now t o c)
  unfolding HasKeyRows
  claim_row-HasKey t none c h = h
  claim_row-HasKey t (some d) c h =
      let row : Row = record { task_id = t.id; days_until = d; remaining = remaining t } in
      ground (arith, any-append (is_row_of id) c.rows (row ∷ []))

  claim_rows-HasKey :
      (ts : List Planned) (c : Claimed) → HasKeyRows c → HasKeyRows (claim_rows now ts c)
  unfolding claim_rows
  claim_rows-HasKey [] c h = h
  claim_rows-HasKey (t ∷ ts) c h =
      claim_rows-HasKey ts (claim_row now t (due_days t) c) (claim_row-HasKey t (due_days t) c h)

  send_rows-HasKey :
      (delivered : Bool) (to : List Text) (keys : List Key) (rows : List Row) (st : Run)
      → any (lists id) st.mails ≡ false
      → HasKeyRows (record { keys = keys; rows = rows })
      → HasKey (send_rows delivered to keys rows st)
  unfolding HasKeyRows HasKey
  send_rows-HasKey delivered to keys [] st quiet h = inr quiet
  send_rows-HasKey true to keys (r ∷ rows) st quiet h =
      ground (arith, any-sort_rows (is_row_of id) (r ∷ rows))
  send_rows-HasKey false to keys (r ∷ rows) st quiet h = inr quiet

-- A key that is there stays.
claim_row-holds :
    (id until now : ℕ) (t : Planned) (o : Option ℕ) (c : Claimed)
    → holds id until c.keys ≡ true
    → holds id until (claim_row now t o c).keys ≡ true
claim_row-holds id until now t none c h = h
claim_row-holds id until now t (some d) c h = ground (arith, h)

pub claim_rows-holds :
    (id until now : ℕ) (ts : List Planned) (c : Claimed)
    → holds id until c.keys ≡ true
    → holds id until (claim_rows now ts c).keys ≡ true
unfolding claim_rows
claim_rows-holds id until now [] c h = h
claim_rows-holds id until now (t ∷ ts) c h =
    claim_rows-holds id until now ts (claim_row now t (due_days t) c)
      (claim_row-holds id until now t (due_days t) c h)

send_rows-keys :
    (delivered : Bool) (to : List Text) (keys : List Key) (rows : List Row) (st : Run)
    → (send_rows delivered to keys rows st).keys ≡ keys
send_rows-keys delivered to keys [] st = refl
send_rows-keys true to keys (r ∷ rows) st = refl
send_rows-keys false to keys (r ∷ rows) st = refl

module _ (delivered : ℕ → Bool) (managers : List Manager) (tasks : List Planned) (id now : ℕ) where
  remind-HasKey :
      (company : ℕ) (to : List Text) (st : Run)
      → HasKey id now st
      → HasKey id now (remind delivered managers tasks now company to st)
  unfolding HasKey HasKeyRows
  remind-HasKey company to st (inl h) =
      let start : Claimed = record { keys = st.keys; rows = [] } in
      let c = claim_rows now (company_tasks company tasks) start in
      let kept =
        claim_rows-holds id (now + cooldown_ms) now (company_tasks company tasks) start h in
      inl (rw (send_rows-keys (delivered company) to c.keys c.rows st) kept)
  remind-HasKey company to st (inr quiet) =
      let start : Claimed = record { keys = st.keys; rows = [] } in
      let c = claim_rows now (company_tasks company tasks) start in
      send_rows-HasKey id now (delivered company) to c.keys c.rows st quiet
        (claim_rows-HasKey id now (company_tasks company tasks) start (inr refl))

  run-HasKey :
      (enabled : Bool) (cs : List Company) (keys : List Key)
      → HasKey id now (run delivered managers tasks enabled now cs keys)
  unfolding run HasKey
  run-HasKey enabled cs keys =
      if_keep (HasKey id now) enabled
        (run_slices-keep delivered managers tasks now (HasKey id now)
          (run_company-keep delivered managers tasks now (HasKey id now) remind-HasKey) 0
          (filter (λ c. c.is_active) cs) _ (inr refl))
        (inr refl)

  -- A task that a run has listed in a mail is in no mail of the runs of the next seven days,
  -- whatever the rows of then are and whichever mails go through.
  pub reminder_weekly :
      (enabled : Bool) (cs : List Company) (keys : List Key) (rs : List Round)
      → let st = run delivered managers tasks enabled now cs keys in
        any (lists id) st.mails ≡ true
        → All {0, 0} (λ r. r.now < now + cooldown_ms) rs
        → any (lists id) (run_rounds rs st.keys) ≡ false
  unfolding HasKey
  reminder_weekly enabled cs keys rs listed early = elim (run-HasKey enabled cs keys) [
    | inl h ↦
        run_rounds_quiet id (now + cooldown_ms) rs
          (run delivered managers tasks enabled now cs keys).keys h early
    | inr quiet ↦ cc
  ]
