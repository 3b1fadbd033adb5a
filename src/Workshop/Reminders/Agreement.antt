-- ===== src/Workshop/Reminders/Agreement.antt =====
-- That the job, which has the prediction written out again, agrees with the endpoint.
use fleex.Common.{
  ℕ, ◌+◌, ◌-◌, ◌*◌, ◌/◌, ◌≤◌, ◌<◌, ◌≡◌, refl, ◌↔◌, true, some, arith, Bool-cases, inl, inr, ◌⊎◌,
  ◌==◌, leb,
}
use fleex.Workshop.Prediction.{
  Planned, or_zero, remaining, is_some, days_at, days_until, Urgency, urgency_of, urgency,
}
use fleex.Workshop.Prediction.Meaning.{le_ceiling}
use fleex.Workshop.Reminders.{within, due_days}

abbrev pub IsNear : Urgency → Type 0
IsNear u = (u ≡ Urgency.soon) ⊎ (u ≡ Urgency.overdue)

IsNear-within : (left q : ℕ) → is_some (within (some q)) ≡ true → IsNear (urgency_of left (some q))
IsNear-within left q h = elim (Bool-cases (left == 0)) [
  | inl e ↦ rw e (inr refl)
  | inr e ↦
      rw e
        (elim (Bool-cases (leb q 14)) [ inl l ↦ rw l (inl refl) | inr l ↦ absurd (ground arith) ])
]

within_of_near :
    (left q : ℕ)
    → (left ≡ 0 → q ≤ 0)
    → IsNear (urgency_of left (some q))
    → is_some (within (some q)) ≡ true
within_of_near left q least h = ground (arith, least)

IsNear-iff :
    (left distance : ℕ)
    → (is_some (within (days_at left distance)) ≡ true)
      ↔ (IsNear (urgency_of left (days_at left distance)) × (0 < distance))
unfolding days_at
IsNear-iff left distance = elim (Bool-cases (distance == 0)) [
  | inl z ↦ rw z (λ h. cc, λ h. let pos = h.1 in absurd (ground arith))
  | inr z ↦
      let q = (30 * left + (distance - 1)) / distance in
      let pos : 0 < distance = ground arith in
      let none_left : left ≡ 0 → q ≤ 0 = λ e. le_ceiling (30 * left) distance 0 pos (omega arith) in
      rw z (λ h. (IsNear-within left q h, pos), λ h. within_of_near left q none_left h.0)
]

-- The job's own prediction gives a task days within its limit exactly when the endpoint shows it
-- as due soon or overdue and the vehicle drove in the last 30 days.
pub due_days_iff :
    (t : Planned)
    → (is_some (due_days t) ≡ true) ↔ (IsNear (urgency t) × (0 < or_zero t.distance_30d))
unfolding due_days urgency days_until
due_days_iff t = IsNear-iff (remaining t) (or_zero t.distance_30d)
