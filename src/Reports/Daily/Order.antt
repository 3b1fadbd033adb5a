-- ===== src/Reports/Daily/Order.antt =====
-- The order of the days of Reports/Daily.
use fleex.Common.{
  ℕ, ◌<◌, ◌≡◌, ◌≢◌, Bool, Option, none, some, List, [], ◌∷◌, map, inl, inr, refl, Bool-cases, arith,
  All, All-imp, upsert, ltb,
}
use fleex.Reports.Positions.{RawPosition, elapsed, inherit, has_ignition_signal}
use fleex.Reports.Daily.{
  DailySummary, is_date, date_of, empty_day, add_sample, add_to_day, daily_loop, set_engine_on,
  insert_day, sort_days, build_daily_summary,
}

-- No two days of the same date.
IsDistinct : List DailySummary → Type 0
IsDistinct [] = Unit
IsDistinct (x ∷ xs) = All (λ y. x.date ≢ y.date) xs × IsDistinct xs

unfoldable pub IsAscending : List DailySummary → Type 0
IsAscending [] = Unit
IsAscending (x ∷ xs) = All (λ y. x.date < y.date) xs × IsAscending xs

All-insert_day {κ} :
    (P : DailySummary → Type κ) (d : DailySummary) (xs : List DailySummary)
    → P d
    → All P xs
    → All P (insert_day d xs)
unfolding insert_day
All-insert_day P d [] h k = (h, tt)
All-insert_day P d (x ∷ xs) h (k, ks) = elim (Bool-cases (ltb x.date d.date)) [
  | inl t ↦ rw t (k, All-insert_day P d xs h ks)
  | inr t ↦ rw t (h, (k, ks))
]

insert_day-IsAscending :
    (d : DailySummary) (xs : List DailySummary)
    → All (λ y. d.date ≢ y.date) xs
    → IsAscending xs
    → IsAscending (insert_day d xs)
unfolding insert_day IsAscending
insert_day-IsAscending d [] h k = (tt, tt)
insert_day-IsAscending d (x ∷ xs) (h, hs) (k, ks) = elim (Bool-cases (ltb x.date d.date)) [
  | inl t ↦ rw t (
    All-insert_day (λ y. x.date < y.date) d xs (ground arith) k,
    insert_day-IsAscending d xs hs ks,
  )
  | inr t ↦
      let below : d.date < x.date = ground arith in
      rw t ((below, All-imp xs (λ y l. omega arith) k), (k, ks))
]

All-sort_days {κ} :
    (P : DailySummary → Type κ) (ds : List DailySummary) → All P ds → All P (sort_days ds)
unfolding sort_days
All-sort_days P [] h = tt
All-sort_days P (d ∷ ds) (h, hs) = All-insert_day P d (sort_days ds) h (All-sort_days P ds hs)

sort_days-IsAscending : (ds : List DailySummary) → IsDistinct ds → IsAscending (sort_days ds)
unfolding sort_days IsAscending IsDistinct
sort_days-IsAscending [] h = tt
sort_days-IsAscending (d ∷ ds) (h, hs) =
    insert_day-IsAscending d (sort_days ds) (All-sort_days (λ y. d.date ≢ y.date) ds h)
      (sort_days-IsAscending ds hs)

All-upsert {κ} :
    (P : DailySummary → Type κ) (p : DailySummary → Bool) (g : DailySummary → DailySummary)
    (new : DailySummary) (ds : List DailySummary)
    → ((d : DailySummary) → P d → P (g d))
    → P new
    → All P ds
    → All P (upsert p g new ds)
All-upsert P p g new [] keep h k = (h, tt)
All-upsert P p g new (d ∷ ds) keep h (k, ks) = elim (Bool-cases (p d)) [
  | inl t ↦ rw t (keep d k, ks)
  | inr t ↦ rw t (k, All-upsert P p g new ds keep h ks)
]

upsert-IsDistinct :
    (date : ℕ) (g : DailySummary → DailySummary) (new : DailySummary) (ds : List DailySummary)
    → ((d : DailySummary) → (g d).date ≡ d.date)
    → new.date ≡ date
    → IsDistinct ds
    → IsDistinct (upsert (is_date date) g new ds)
unfolding IsDistinct
upsert-IsDistinct date g new [] keep e h = (tt, tt)
upsert-IsDistinct date g new (d ∷ ds) keep e (h, hs) = elim (Bool-cases (is_date date d)) [
  | inl t ↦ rw t (All-imp ds (λ y l. rw (keep d) l) h, hs)
  | inr t ↦
      let apart : d.date ≢ new.date = ground (arith, e, t) in
      rw t (
        All-upsert (λ y. d.date ≢ y.date) (is_date date) g new ds (λ y l. rw (keep y) l) apart h,
        upsert-IsDistinct date g new ds keep e hs,
      )
]

daily_loop-IsDistinct :
    (has_ign : Bool) (prev : Option RawPosition) (last_ign : Option Bool) (days : List DailySummary)
    (rows : List RawPosition)
    → IsDistinct days
    → IsDistinct (daily_loop has_ign prev last_ign days rows)
unfolding daily_loop add_to_day
daily_loop-IsDistinct has_ign prev last_ign days [] h = h
daily_loop-IsDistinct has_ign prev last_ign days (r ∷ rows) h =
    let ign = inherit r.ignition last_ign in
    let add = add_sample has_ign (elapsed prev r) ign r in
    daily_loop-IsDistinct has_ign (some r) ign (add_to_day has_ign (elapsed prev r) ign r days) rows
      (upsert-IsDistinct (date_of r) add (add (empty_day r)) days (λ d. refl) refl h)

All-engine_on :
    (date : ℕ) (ds : List DailySummary)
    → All (λ y. date ≢ y.date) ds
    → All (λ y. date ≢ y.date) (map set_engine_on ds)
All-engine_on date [] h = tt
All-engine_on date (d ∷ ds) (h, hs) = (h, All-engine_on date ds hs)

set_engine_on-IsDistinct :
    (ds : List DailySummary) → IsDistinct ds → IsDistinct (map set_engine_on ds)
unfolding IsDistinct
set_engine_on-IsDistinct [] h = tt
set_engine_on-IsDistinct (d ∷ ds) (h, hs) =
    (All-engine_on d.date ds h, set_engine_on-IsDistinct ds hs)

-- The days of `buildDailySummary` have strictly ascending dates: one summary for each date.
build_daily_summary-IsAscending :
    (rows : List RawPosition) → IsAscending (build_daily_summary rows).0
unfolding build_daily_summary IsDistinct
build_daily_summary-IsAscending rows =
    let days = daily_loop (has_ignition_signal rows) none none [] rows in
    sort_days-IsAscending (map set_engine_on days) (
      set_engine_on-IsDistinct days
        (daily_loop-IsDistinct (has_ignition_signal rows) none none [] rows tt))
