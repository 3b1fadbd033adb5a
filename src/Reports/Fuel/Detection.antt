-- ===== src/Reports/Fuel/Detection.antt =====
-- What the events of Reports/Fuel tell of the readings, and that the loop ends.
use fleex.Common.{
  members, pos, ◌-ℤ◌, leb_int, true, All-imp, ℕ, zero, suc, ◌+◌, ◌-◌, ◌≤◌, ◌≡◌, Option, none, some,
  List, [], ◌∷◌, length, ltb, leb, ◌⊎◌, inl, inr, refl, ap₂, Bool-cases, arith, All,
}
use mathlib.Core.List.{Memᴰ}
use fleex.Reports.Fuel.{
  FuelReading, FuelEvent, continue_with, FuelDetectOpts, fuel_fill, fuel_drain, insert_reading,
  sort_readings, furthest, fuel_event, detect_loop, detect_fuel_events,
}

length-insert_reading :
    (x : FuelReading) (xs : List FuelReading) → length (insert_reading x xs) ≡ suc (length xs)
unfolding insert_reading
length-insert_reading x [] = refl
length-insert_reading x (y ∷ ys) = elim (Bool-cases (ltb y.t x.t)) [
  | inl e ↦ rw e (omega (arith, length-insert_reading x ys))
  | inr e ↦ rw e refl
]

length-sort_readings : (xs : List FuelReading) → length (sort_readings xs) ≡ length xs
unfolding sort_readings
length-sort_readings [] = refl
length-sort_readings (x ∷ xs) =
    omega (arith, length-insert_reading x (sort_readings xs), length-sort_readings xs)

furthest-length :
    (window : ℕ) (x y : FuelReading) (rest : List FuelReading)
    → length (furthest window x y rest).1 ≤ length rest
unfolding furthest
furthest-length window x y [] = omega arith
furthest-length window x y (z ∷ zs) = elim (Bool-cases (leb (z.t - x.t) window)) [
  | inl e ↦ rw e (omega (arith, furthest-length window x z zs))
  | inr e ↦ rw e (omega arith)
]

detect_loop-two_fuels :
    (n m : ℕ) (opts : FuelDetectOpts) (r : List FuelReading)
    → length r ≤ n
    → length r ≤ m
    → detect_loop n opts r ≡ detect_loop m opts r
unfolding detect_loop
detect_loop-two_fuels zero zero opts r h k = refl
detect_loop-two_fuels zero (suc m) opts [] h k = refl
detect_loop-two_fuels zero (suc m) opts (x ∷ r) h k = ground arith
detect_loop-two_fuels (suc n) zero opts [] h k = refl
detect_loop-two_fuels (suc n) zero opts (x ∷ r) h k = ground arith
detect_loop-two_fuels (suc n) (suc m) opts [] h k = refl
detect_loop-two_fuels (suc n) (suc m) opts (x ∷ []) h k = refl
detect_loop-two_fuels (suc n) (suc m) opts (x ∷ y ∷ rest) h k =
    let far = furthest opts.window x y rest in
    let shorter = furthest-length opts.window x y rest in
    ap₂ (continue_with (fuel_event opts x far.0))
      (detect_loop-two_fuels n m opts (far.0 ∷ far.1) (omega arith) (omega arith))
      (detect_loop-two_fuels n m opts (y ∷ rest) (omega arith) (omega arith))

-- The loop of `detectFuelEvents` ends: as many rounds as there are readings are enough, and more
-- give the same events.
pub detect_loop-enough :
    (opts : FuelDetectOpts) (readings : List FuelReading) (n : ℕ)
    → length readings ≤ n
    → detect_loop n opts (sort_readings readings) ≡ detect_fuel_events opts readings
unfolding detect_fuel_events
detect_loop-enough opts readings n h =
    let len = length-sort_readings readings in
    detect_loop-two_fuels n (length readings) opts (sort_readings readings) (omega arith)
      (omega arith)

-- Two readings of a list that bear an event out: the first no later than the second, within the
-- window, and apart by the threshold.
unfoldable pub IsEvidence : FuelDetectOpts → List FuelReading → FuelEvent → Type 0
IsEvidence opts r e =
    (a : FuelReading) × (b : FuelReading) × Memᴰ a r
    × Memᴰ b r
    × (e.before ≡ a.level)
    × (e.after ≡ b.level)
    × (e.delta ≡ b.level -ℤ a.level)
    × (e.at_time ≡ b.t)
    × (a.t ≤ b.t)
    × (b.t ≤ a.t + opts.window)
    × (((e.type ≡ fuel_fill) × (leb_int (pos opts.fill) (b.level -ℤ a.level) ≡ true))
        ⊎ ((e.type ≡ fuel_drain) × (leb_int (pos opts.drain) (a.level -ℤ b.level) ≡ true)))

-- Readings in the order of their times.
IsOrdered : List FuelReading → Type 0
IsOrdered [] = Unit
IsOrdered (x ∷ xs) = All {0, 0} (λ y. x.t ≤ y.t) xs × IsOrdered xs

All-insert_reading {κ} :
    (P : FuelReading → Type κ) (x : FuelReading) (xs : List FuelReading)
    → P x
    → All P xs
    → All P (insert_reading x xs)
unfolding insert_reading
All-insert_reading P x [] h k = (h, tt)
All-insert_reading P x (y ∷ ys) h (k, ks) = elim (Bool-cases (ltb y.t x.t)) [
  | inl e ↦ rw e (k, All-insert_reading P x ys h ks)
  | inr e ↦ rw e (h, (k, ks))
]

insert_reading-IsOrdered :
    (x : FuelReading) (xs : List FuelReading) → IsOrdered xs → IsOrdered (insert_reading x xs)
unfolding insert_reading IsOrdered
insert_reading-IsOrdered x [] h = (tt, tt)
insert_reading-IsOrdered x (y ∷ ys) (h, hs) = elim (Bool-cases (ltb y.t x.t)) [
  | inl e ↦
      let le : y.t ≤ x.t = ground (arith, e) in
      rw e (All-insert_reading (λ z. y.t ≤ z.t) x ys le h, insert_reading-IsOrdered x ys hs)
  | inr e ↦
      let le : x.t ≤ y.t = ground (arith, e) in
      rw e ((le, All-imp ys (λ z p. omega (arith, le, p)) h), (h, hs))
]

sort_readings-IsOrdered : (xs : List FuelReading) → IsOrdered (sort_readings xs)
unfolding sort_readings IsOrdered
sort_readings-IsOrdered [] = tt
sort_readings-IsOrdered (x ∷ xs) =
    insert_reading-IsOrdered x (sort_readings xs) (sort_readings-IsOrdered xs)

furthest-IsOrdered :
    (window : ℕ) (x y : FuelReading) (rest : List FuelReading)
    → IsOrdered (y ∷ rest)
    → (let far = furthest window x y rest in IsOrdered (far.0 ∷ far.1))
unfolding furthest IsOrdered
furthest-IsOrdered window x y [] h = h
furthest-IsOrdered window x y (z ∷ zs) h = elim (Bool-cases (leb (z.t - x.t) window)) [
  | inl e ↦ rw e (furthest-IsOrdered window x z zs h.1)
  | inr e ↦ rw e h
]

All-sort_readings {κ} :
    (P : FuelReading → Type κ) (xs : List FuelReading) → All P xs → All P (sort_readings xs)
unfolding sort_readings
All-sort_readings P [] h = tt
All-sort_readings P (x ∷ xs) (h, hs) =
    All-insert_reading P x (sort_readings xs) h (All-sort_readings P xs hs)

All-furthest {κ} :
    (P : FuelReading → Type κ) (window : ℕ) (x y : FuelReading) (rest : List FuelReading)
    → P y
    → All P rest
    → (let far = furthest window x y rest in P far.0 × All P far.1)
unfolding furthest
All-furthest P window x y [] h k = (h, tt)
All-furthest P window x y (z ∷ zs) h (k, ks) = elim (Bool-cases (leb (z.t - x.t) window)) [
  | inl e ↦ rw e (All-furthest P window x z zs k ks)
  | inr e ↦ rw e (h, (k, ks))
]

IsBorne : FuelDetectOpts → List FuelReading → Option FuelEvent → Type 0
IsBorne opts r none = Unit
IsBorne opts r (some e) = IsEvidence opts r e

fuel_event-IsBorne :
    (opts : FuelDetectOpts) (r : List FuelReading) (a b : FuelReading)
    → Memᴰ a r
    → Memᴰ b r
    → a.t ≤ b.t
    → IsBorne opts r (fuel_event opts a b)
unfolding fuel_event IsEvidence IsBorne
fuel_event-IsBorne opts r a b ma mb le = elim (Bool-cases (leb (b.t - a.t) opts.window)) [
  | inl near ↦
      let close : b.t ≤ a.t + opts.window = ground (arith, near, le) in
      elim (Bool-cases (leb_int (pos opts.fill) (b.level -ℤ a.level))) [
        | inl up ↦ rw near (rw up (a, b, ma, mb, refl, refl, refl, refl, le, close, inl (refl, up)))
        | inr level ↦ elim (Bool-cases (leb_int (pos opts.drain) (a.level -ℤ b.level))) [
          | inl down ↦ rw near (
              rw level
                (rw down (a, b, ma, mb, refl, refl, refl, refl, le, close, inr (refl, down))))
          | inr small ↦ rw near (rw level (rw small tt))
        ]
      ]
  | inr far ↦ rw far tt
]

continue_with-All :
    (opts : FuelDetectOpts) (r : List FuelReading) (o : Option FuelEvent)
    (jump next : List FuelEvent)
    → IsBorne opts r o
    → All (IsEvidence opts r) jump
    → All (IsEvidence opts r) next
    → All (IsEvidence opts r) (continue_with o jump next)
unfolding IsBorne
continue_with-All opts r none jump next h k l = l
continue_with-All opts r (some e) jump next h k l = (h, k)

detect_loop-All :
    (n : ℕ) (opts : FuelDetectOpts) (all r : List FuelReading)
    → All (λ a. Memᴰ a all) r
    → IsOrdered r
    → All (IsEvidence opts all) (detect_loop n opts r)
unfolding detect_loop IsOrdered
detect_loop-All zero opts all r h k = tt
detect_loop-All (suc n) opts all [] h k = tt
detect_loop-All (suc n) opts all (x ∷ []) h k = tt
detect_loop-All (suc n) opts all (x ∷ y ∷ rest) (hx, (hy, hs)) ((xy, xs), ys) =
    let far = furthest opts.window x y rest in
    let there = All-furthest (λ a. Memᴰ a all) opts.window x y rest hy hs in
    let later = All-furthest (λ a. x.t ≤ a.t) opts.window x y rest xy xs in
    continue_with-All opts all (fuel_event opts x far.0) (detect_loop n opts (far.0 ∷ far.1))
      (detect_loop n opts (y ∷ rest)) (fuel_event-IsBorne opts all x far.0 hx there.0 later.0)
      (detect_loop-All n opts all (far.0 ∷ far.1) there
        (furthest-IsOrdered opts.window x y rest ys))
      (detect_loop-All n opts all (y ∷ rest) (hy, hs) ys)

-- Each event that `detectFuelEvents` reports is borne out by two of the readings, the first no
-- later than the second and within the window before it: its levels, its difference and its time
-- are theirs, a fill rises by the fill threshold or more, and a drain falls by the drain threshold
-- or more.
pub detect_fuel_events-All-IsEvidence :
    (opts : FuelDetectOpts) (readings : List FuelReading)
    → All (IsEvidence opts readings) (detect_fuel_events opts readings)
unfolding detect_fuel_events
detect_fuel_events-All-IsEvidence opts readings =
    detect_loop-All (length readings) opts readings (sort_readings readings)
      (All-sort_readings (λ a. Memᴰ a readings) readings (members readings))
      (sort_readings-IsOrdered readings)
