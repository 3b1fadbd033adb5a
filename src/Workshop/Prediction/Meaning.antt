-- ===== src/Workshop/Prediction/Meaning.antt =====
-- What the numbers of a prediction say.
use native.Mathlib.Nat.{le-div_iff_mul-le, lt-div-mul-add}
use native.Mathlib.Decide.{dec_lt}
use fleex.Common.{
  ℕ, ◌+◌, ◌-◌, ◌*◌, ◌/◌, ◌≤◌, ◌<◌, ◌≡◌, ◌↔◌, some, arith, Bool-cases, inl, inr, ◌==◌, false, leb,
}
use fleex.Workshop.Prediction.{
  Planned, or_zero, remaining, days_at, days_until, Urgency, urgency_of, urgency,
}

ceiling_le : (m t n : ℕ) → 0 < t → (m + (t - 1)) / t ≤ n → m ≤ n * t
ceiling_le m t n pos h = grind (arith, lt-div-mul-add {a = m + (t - 1)} {b = t} pos)

pub le_ceiling : (m t n : ℕ) → 0 < t → m ≤ n * t → (m + (t - 1)) / t ≤ n
le_ceiling m t n pos h = elim (dec_lt n ((m + (t - 1)) / t)) [
  | no q ↦ omega arith
  | yes q ↦
      let le : (n + 1) * t ≤ m + (t - 1) = (le-div_iff_mul-le pos).0 (omega arith) in
      absurd (grind arith)
]

-- A task of a vehicle that drove in the last 30 days is given a number of days, and n days are as
-- many or more exactly when the vehicle reaches the target in n days at the average of the 30.
days_until_least :
    (t : Planned) (n : ℕ)
    → 0 < or_zero t.distance_30d
    → (d : ℕ) × (days_until t ≡ some d)
      × ((d ≤ n) ↔ (30 * remaining t ≤ n * or_zero t.distance_30d))
unfolding days_until days_at
days_until_least t n pos =
    let distance = or_zero t.distance_30d in
    (
      (30 * remaining t + (distance - 1)) / distance,
      ground arith,
      (ceiling_le (30 * remaining t) distance n pos, le_ceiling (30 * remaining t) distance n pos),
    )

-- What an urgency says of the target, the odometer and the distance of the last 30 days.
abbrev pub Says : Urgency → ℕ → ℕ → ℕ → Type 0
Says Urgency.overdue target odometer distance = target ≤ odometer
Says Urgency.soon target odometer distance =
    (odometer < target) × (0 < distance) × (30 * (target - odometer) ≤ 14 * distance)
Says Urgency.planned target odometer distance =
    (odometer < target) × (0 < distance) × (14 * distance < 30 * (target - odometer))
Says Urgency.unknown target odometer distance = (odometer < target) × (distance ≡ 0)

beyond : (m distance q : ℕ) → (m ≤ 14 * distance → q ≤ 14) → leb q 14 ≡ false → 14 * distance < m
beyond m distance q h l = elim (dec_lt (14 * distance) m) [
  | yes p ↦ p
  | no p ↦ let c = h (omega arith) in absurd (ground arith)
]

Says-urgency_of :
    (target odometer distance : ℕ)
    → Says
        (urgency_of (target - odometer) (days_at (target - odometer) distance))
        target
        odometer
        distance
unfolding days_at
Says-urgency_of target odometer distance = elim (Bool-cases (target - odometer == 0)) [
  | inl e ↦ rw e (ground arith)
  | inr e ↦ rw e (elim (Bool-cases (distance == 0)) [
    | inl z ↦ rw z (ground arith, ground arith)
    | inr z ↦
        let m = 30 * (target - odometer) in
        let q = (m + (distance - 1)) / distance in
        let pos : 0 < distance = ground arith in
        let within : q ≤ 14 → m ≤ 14 * distance = ceiling_le m distance 14 pos in
        let reached : m ≤ 14 * distance → q ≤ 14 = le_ceiling m distance 14 pos in
        rw z (elim (Bool-cases (leb q 14)) [
          | inl l ↦ rw l (ground arith, pos, within (ground arith))
          | inr l ↦ rw l (ground arith, pos, beyond m distance q reached l)
        ])
  ])
]

-- A task is overdue exactly when its vehicle has reached the target; else it is due soon when the
-- vehicle reaches it within 14 days at its average, planned when not, and unknown when the vehicle
-- did not drive.
urgency-Says :
    (t : Planned)
    → Says (urgency t) (or_zero t.target) (or_zero t.odometer) (or_zero t.distance_30d)
unfolding urgency days_until
urgency-Says t = Says-urgency_of (or_zero t.target) (or_zero t.odometer) (or_zero t.distance_30d)
