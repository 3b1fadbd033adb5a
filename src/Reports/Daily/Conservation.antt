-- ===== src/Reports/Daily/Conservation.antt =====
-- What the days of Reports/Daily add up to, and their order.
use fleex.Common.{
  ℕ, ◌+◌, ◌*◌, ◌≡◌, Bool, Option, none, some, List, [], ◌∷◌, map, length, inl, inr, refl,
  Bool-cases, ap, ◌∙◌, arith, upsert, ltb,
}
use native.Mathlib.Nat.{add-mul}
use fleex.Reports.Positions.{RawPosition, distance_of, elapsed, inherit, has_ignition_signal}
use fleex.Reports.Trips.Bounds.{distance_sum}
use fleex.Reports.Daily.{
  DailySummary, is_date, date_of, empty_day, add_sample, add_to_day, daily_loop, set_engine_on,
  insert_day, sort_days, build_daily_summary, compute_fuel_consumption, sum_by, consumption_day,
}

sum_by-upsert {ℓ} :
    {A : Type ℓ} (f : A → ℕ) (p : A → Bool) (g : A → A) (new : A) (k : ℕ) (xs : List A)
    → ((x : A) → f (g x) ≡ f x + k)
    → f new ≡ k
    → sum_by f (upsert p g new xs) ≡ sum_by f xs + k
sum_by-upsert f p g new k [] h e = omega arith
sum_by-upsert f p g new k (x ∷ xs) h e =
    let changed = h x in
    let rest = sum_by-upsert f p g new k xs h e in
    elim (Bool-cases (p x)) [ inl t ↦ rw t (omega arith) | inr t ↦ rw t (omega arith) ]

sum_by-insert_day :
    (f : DailySummary → ℕ) (d : DailySummary) (xs : List DailySummary)
    → sum_by f (insert_day d xs) ≡ f d + sum_by f xs
unfolding insert_day
sum_by-insert_day f d [] = refl
sum_by-insert_day f d (x ∷ xs) =
    let rest = sum_by-insert_day f d xs in
    elim (Bool-cases (ltb x.date d.date)) [
      | inl t ↦ rw t (omega arith)
      | inr t ↦ rw t (omega arith)
    ]

sum_by-sort_days :
    (f : DailySummary → ℕ) (ds : List DailySummary) → sum_by f (sort_days ds) ≡ sum_by f ds
unfolding sort_days
sum_by-sort_days f [] = refl
sum_by-sort_days f (d ∷ ds) =
    omega (arith, sum_by-insert_day f d (sort_days ds), sum_by-sort_days f ds)

sum_by-map :
    (f : DailySummary → ℕ) (ds : List DailySummary)
    → ((d : DailySummary) → f (set_engine_on d) ≡ f d)
    → sum_by f (map set_engine_on ds) ≡ sum_by f ds
sum_by-map f [] h = refl
sum_by-map f (d ∷ ds) h = omega (arith, h d, sum_by-map f ds h)

daily_loop-distance :
    (has_ign : Bool) (prev : Option RawPosition) (last_ign : Option Bool) (days : List DailySummary)
    (rows : List RawPosition)
    → sum_by (λ d. d.distance) (daily_loop has_ign prev last_ign days rows)
      ≡ sum_by (λ d. d.distance) days + distance_sum rows
unfolding daily_loop add_to_day distance_sum
daily_loop-distance has_ign prev last_ign days [] = omega arith
daily_loop-distance has_ign prev last_ign days (r ∷ rows) =
    let ign = inherit r.ignition last_ign in
    let dt = elapsed prev r in
    omega (
      arith,
      daily_loop-distance has_ign (some r) ign (add_to_day has_ign dt ign r days) rows,
      sum_by-upsert (λ d. d.distance) (is_date (date_of r)) (add_sample has_ign dt ign r)
          (add_sample has_ign dt ign r (empty_day r)) (distance_of r) days (λ x. refl)
          (omega arith),
    )

daily_loop-samples :
    (has_ign : Bool) (prev : Option RawPosition) (last_ign : Option Bool) (days : List DailySummary)
    (rows : List RawPosition)
    → sum_by (λ d. d.samples) (daily_loop has_ign prev last_ign days rows)
      ≡ sum_by (λ d. d.samples) days + length rows
unfolding daily_loop add_to_day
daily_loop-samples has_ign prev last_ign days [] = omega arith
daily_loop-samples has_ign prev last_ign days (r ∷ rows) =
    let ign = inherit r.ignition last_ign in
    let dt = elapsed prev r in
    omega (
      arith,
      daily_loop-samples has_ign (some r) ign (add_to_day has_ign dt ign r days) rows,
      sum_by-upsert (λ d. d.samples) (is_date (date_of r)) (add_sample has_ign dt ign r)
          (add_sample has_ign dt ign r (empty_day r)) 1 days (λ x. refl) (omega arith),
    )

rows_distance :
    (rate : ℕ) (ds : List DailySummary)
    → sum_by (λ r. r.distance) (map (consumption_day rate) ds) ≡ sum_by (λ d. d.distance) ds
rows_distance rate [] = refl
rows_distance rate (d ∷ ds) = omega (arith, rows_distance rate ds)

rows_liters :
    (rate : ℕ) (ds : List DailySummary)
    → sum_by (λ r. r.est_liters) (map (consumption_day rate) ds)
      ≡ sum_by (λ d. d.distance) ds * rate
rows_liters rate [] = omega arith
rows_liters rate (d ∷ ds) =
    omega (arith, add-mul d.distance (sum_by (λ d. d.distance) ds) rate, rows_liters rate ds)

-- `buildDailySummary` splits the rows among the days and loses none: the distances of the days add
-- up to the distance of the rows, and their samples to the number of rows.
build_daily_summary-conserves :
    (rows : List RawPosition)
    → (sum_by (λ d. d.distance) (build_daily_summary rows).0 ≡ distance_sum rows)
      × (sum_by (λ d. d.samples) (build_daily_summary rows).0 ≡ length rows)
unfolding build_daily_summary
build_daily_summary-conserves rows =
    let has_ign = has_ignition_signal rows in
    let days = daily_loop has_ign none none [] rows in
    (
      omega (
        arith,
        sum_by-sort_days (λ d. d.distance) (map set_engine_on days),
        sum_by-map (λ d. d.distance) days (λ d. refl),
        daily_loop-distance has_ign none none [] rows,
      ),
      omega (
        arith,
        sum_by-sort_days (λ d. d.samples) (map set_engine_on days),
        sum_by-map (λ d. d.samples) days (λ d. refl),
        daily_loop-samples has_ign none none [] rows,
      ),
    )

-- The nominal fuel of `computeFuelConsumption` over the days of `buildDailySummary`: its total
-- distance is that of the rows, and its total of litres is that distance at the given rate.
fuel_consumption_total :
    (rows : List RawPosition) (rate : ℕ)
    → (let total = compute_fuel_consumption (build_daily_summary rows).0 rate in
        (total.total_distance ≡ distance_sum rows)
        × (total.total_est_liters ≡ distance_sum rows * rate))
unfolding compute_fuel_consumption
fuel_consumption_total rows rate =
    let days = (build_daily_summary rows).0 in
    let whole = (build_daily_summary-conserves rows).0 in
    (rows_distance rate days ∙ whole, rows_liters rate days ∙ ap (λ n. n * rate) whole)
