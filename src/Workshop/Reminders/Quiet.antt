-- ===== src/Workshop/Reminders/Quiet.antt =====
-- That a claimed key keeps a task out of the mails of
-- services/api/src/service-tasks/service-reminder-cron.service.ts.
use mathlib.Core.List.{Memᴰ}
use fleex.Common.{
  ℕ, zero, suc, ◌<◌, ◌≡◌, refl, Bool, true, false, ◌||◌, Option, none, some, List, [], ◌∷◌, any,
  any-append, filter, if◌then◌else◌, ◌==◌, arith, All, Bool-cases, inl, inr, ◌∙◌, ap₂,
}
use fleex.Common.Keys.{Key, is_claimed, holds, holds→is_claimed}
use fleex.Common.Texts.{Text}
use fleex.Workshop.Prediction.{Planned, remaining}
use fleex.Workshop.Reminders.{
  Company, Manager, Row, Mail, Run, Claimed, is_empty, recipients, company_tasks, due_days,
  claim_row, claim_rows, insert_row, sort_rows, send_rows, remind, run_company, run_slices, run,
  Round, run_round, run_rounds,
}

any-insert_row :
    (p : Row → Bool) (r : Row) (rows : List Row) → any p (insert_row r rows) ≡ (p r || any p rows)
any-insert_row p r [] = refl
any-insert_row p r (s ∷ rows) = ground (arith, any-insert_row p r rows)

pub any-sort_rows : (p : Row → Bool) (rows : List Row) → any p (sort_rows rows) ≡ any p rows
any-sort_rows p [] = refl
any-sort_rows p (r ∷ rows) =
    any-insert_row p r (sort_rows rows) ∙ ap₂ (◌||◌) refl (any-sort_rows p rows)

abbrev pub is_row_of : ℕ → Row → Bool
is_row_of id r = r.task_id == id

pub is_empty-mem {ℓ} : {A : Type ℓ} (a : A) (xs : List A) → Memᴰ a xs → is_empty xs ≡ false
is_empty-mem a [] m = elim m [ ]
is_empty-mem a (x ∷ xs) m = refl

-- A mail lists the task.
abbrev pub lists : ℕ → Mail → Bool
lists id m = any (is_row_of id) m.rows

pub if_keep {ℓ} : (P : Run → Type ℓ) (b : Bool) {x y : Run} → P x → P y → P (if b then x else y)
if_keep P true h k = h
if_keep P false h k = k

module _ (delivered : ℕ → Bool) (managers : List Manager) (tasks : List Planned) (now : ℕ) where
  -- What the run of each company keeps, the loop keeps.
  pub run_slices-keep {ℓ} :
      (P : Run → Type ℓ)
      → ((company : ℕ) (st : Run) → P st → P (run_company delivered managers tasks now company st))
      → (room : ℕ) (cs : List Company) (st : Run) → P st
      → P (run_slices delivered managers tasks now room cs st)
  unfolding run_slices
  run_slices-keep P keep room [] st h = h
  run_slices-keep P keep zero (c ∷ cs) st h =
      if_keep P st.threw h (run_slices-keep P keep 3 cs _ (keep c.id st h))
  run_slices-keep P keep (suc room) (c ∷ cs) st h =
      run_slices-keep P keep room cs _ (keep c.id st h)

  pub run_company-keep {ℓ} :
      (P : Run → Type ℓ)
      → ((company : ℕ) (to : List Text) (st : Run)
          → P st
          → P (remind delivered managers tasks now company to st))
      → (company : ℕ) (st : Run) → P st
      → P (run_company delivered managers tasks now company st)
  unfolding run_company
  run_company-keep P keep company st h = if_keep P (is_empty (company_tasks company tasks)) h (
      if_keep P (is_empty (recipients company managers)) h
        (keep company (recipients company managers) st h))

module _ (id until : ℕ) where
  -- While the key lasts, it stays and the task is not listed.
  abbrev IsQuietRows : Claimed → Type 0
  IsQuietRows c = (holds id until c.keys ≡ true) × (any (is_row_of id) c.rows ≡ false)

  abbrev IsQuiet : Run → Type 0
  IsQuiet st = (holds id until st.keys ≡ true) × (any (lists id) st.mails ≡ false)

  claim_row-IsQuiet :
      (now : ℕ) (t : Planned) (o : Option ℕ) (c : Claimed)
      → now < until
      → IsQuietRows c
      → IsQuietRows (claim_row now t o c)
  claim_row-IsQuiet now t none c early h = h
  claim_row-IsQuiet now t (some d) c early (h, k) =
      let claimed = holds→is_claimed id until now c.keys early h in
      elim (Bool-cases (t.id == id)) [
        | inl e ↦
            let same : t.id ≡ id = ground (arith, e) in
            let busy : is_claimed now t.id c.keys ≡ true = rw same claimed in rw busy (h, k)
        | inr e ↦
            let row : Row = record { task_id = t.id; days_until = d; remaining = remaining t } in
            ground (arith, e, h, k, any-append (is_row_of id) c.rows (row ∷ []))
      ]

  claim_rows-IsQuiet :
      (now : ℕ) (ts : List Planned) (c : Claimed)
      → now < until
      → IsQuietRows c
      → IsQuietRows (claim_rows now ts c)
  unfolding claim_rows
  claim_rows-IsQuiet now [] c early h = h
  claim_rows-IsQuiet now (t ∷ ts) c early h =
      claim_rows-IsQuiet now ts (claim_row now t (due_days t) c) early
        (claim_row-IsQuiet now t (due_days t) c early h)

  send_rows-IsQuiet :
      (delivered : Bool) (to : List Text) (keys : List Key) (rows : List Row) (st : Run)
      → any (lists id) st.mails ≡ false
      → holds id until keys ≡ true
      → any (is_row_of id) rows ≡ false
      → IsQuiet (send_rows delivered to keys rows st)
  send_rows-IsQuiet delivered to keys [] st quiet h k = (h, quiet)
  send_rows-IsQuiet true to keys (r ∷ rows) st quiet h k =
      (h, ground (arith, any-sort_rows (is_row_of id) (r ∷ rows)))
  send_rows-IsQuiet false to keys (r ∷ rows) st quiet h k = (h, quiet)

  module _ (delivered : ℕ → Bool) (managers : List Manager) (tasks : List Planned) where
    remind-IsQuiet :
        (now company : ℕ) (to : List Text) (st : Run)
        → now < until
        → IsQuiet st
        → IsQuiet (remind delivered managers tasks now company to st)
    remind-IsQuiet now company to st early (h, quiet) =
        let c =
          claim_rows now (company_tasks company tasks) (record { keys = st.keys; rows = [] }) in
        let (kept, none_of) =
          claim_rows-IsQuiet now (company_tasks company tasks)
            (record { keys = st.keys; rows = [] }) early (h, refl) in
        send_rows-IsQuiet (delivered company) to c.keys c.rows st quiet kept none_of

    run-IsQuiet :
        (enabled : Bool) (now : ℕ) (cs : List Company) (keys : List Key)
        → now < until
        → holds id until keys ≡ true
        → IsQuiet (run delivered managers tasks enabled now cs keys)
    unfolding run
    run-IsQuiet enabled now cs keys early h =
        if_keep IsQuiet enabled
          (run_slices-keep delivered managers tasks now IsQuiet
            (run_company-keep delivered managers tasks now IsQuiet
              (λ company to st. remind-IsQuiet now company to st early))
            0 (filter (λ c. c.is_active) cs) _ (h, refl))
          (h, refl)

  pub run_rounds_quiet :
      (rs : List Round) (keys : List Key)
      → holds id until keys ≡ true
      → All {0, 0} (λ r. r.now < until) rs
      → any (lists id) (run_rounds rs keys) ≡ false
  unfolding run_rounds
  run_rounds_quiet [] keys h early = refl
  run_rounds_quiet (r ∷ rs) keys h (early, later) =
      let st = run_round r keys in
      let (kept, quiet) =
        run-IsQuiet r.delivered r.managers r.tasks r.enabled r.now r.companies keys early h in
      any-append (lists id) st.mails (run_rounds rs st.keys)
      ∙ ap₂ (◌||◌) quiet (run_rounds_quiet rs st.keys kept later)
