-- ===== src/Reports/Fuel/Job/Spacing.antt =====
-- That the job stores an event once.
use fleex.Common.{
  ℕ, ◌≡◌, refl, sym, ◌∙◌, Bool, true, false, Option, none, some, List, [], ◌∷◌, any, ltb, length,
  if◌then◌else◌, arith, All, Bool-cases, inl, inr, All-imp,
}
use mathlib.Core.Path.{subst}
use fleex.Reports.Fuel.{
  FuelReading, FuelEvent, FuelEventType, fuel_fill, fuel_drain, default_fuel_opts,
  detect_fuel_events,
}
use fleex.Reports.Fuel.Job.{
  EventRow, FuelSensor, same_type, is_near, already_recorded, row_of, store_events, store_found,
  run_detection,
}

-- No row is of the same device and type as an older one and within 20 minutes of it.
abbrev pub IsSpaced : List EventRow → Type 0
IsSpaced [] = Unit
IsSpaced (r ∷ rs) = (any (is_near r.device_id r.type r.occurred_at) rs ≡ false) × IsSpaced rs

module _ (creates : EventRow → Bool) where
  store_events-IsSpaced :
      (s : FuelSensor) (es : List FuelEvent) (rows : List EventRow)
      → IsSpaced rows
      → IsSpaced (store_events creates s es rows)
  unfolding store_events already_recorded
  store_events-IsSpaced s [] rows h = h
  store_events-IsSpaced s (e ∷ es) rows h =
      elim (Bool-cases (already_recorded s.device_id e rows)) [
        | inl k ↦ rw k (store_events-IsSpaced s es rows h)
        | inr k ↦ elim (Bool-cases (creates (row_of s e))) [
          | inl c ↦ rw k (rw c (store_events-IsSpaced s es (row_of s e ∷ rows) (k, h)))
          | inr c ↦ rw k (rw c h)
        ]
      ]

  store_found-IsSpaced :
      (s : FuelSensor) (found : Option (List FuelReading)) (rows : List EventRow)
      → IsSpaced rows
      → IsSpaced (store_found creates s found rows)
  store_found-IsSpaced s none rows h = h
  store_found-IsSpaced s (some readings) rows h = elim (Bool-cases (ltb (length readings) 2)) [
    | inl k ↦ rw k h
    | inr k ↦ rw k (store_events-IsSpaced s (detect_fuel_events default_fuel_opts readings) rows h)
  ]

  -- A run of the job keeps the stored fuel events of a device more than 20 minutes apart, those of
  -- each type, whatever it reads and whichever insertions fail.
  pub run_detection-IsSpaced :
      (fetch : FuelSensor → Option (List FuelReading)) (sensors : List FuelSensor)
      (rows : List EventRow)
      → IsSpaced rows
      → IsSpaced (run_detection creates fetch sensors rows)
  unfolding run_detection
  run_detection-IsSpaced fetch [] rows h = h
  run_detection-IsSpaced fetch (s ∷ sensors) rows h =
      run_detection-IsSpaced fetch sensors (store_found creates s (fetch s) rows)
        (store_found-IsSpaced s (fetch s) rows h)

-- Every event of the list has a row near it.
abbrev IsStored : FuelSensor → List EventRow → List FuelEvent → Type 0
IsStored s rows = All {0, 0} (λ e. already_recorded s.device_id e rows ≡ true)

same_type_refl : (t : FuelEventType) → same_type t t ≡ true
same_type_refl fuel_fill = refl
same_type_refl fuel_drain = refl

recorded_self :
    (s : FuelSensor) (e : FuelEvent) (rows : List EventRow)
    → already_recorded s.device_id e (row_of s e ∷ rows) ≡ true
unfolding already_recorded
recorded_self s e rows = let same = same_type_refl e.type in ground (arith, same)

-- The events that the job finds for a sensor.
found_events : Option (List FuelReading) → List FuelEvent
found_events none = []
found_events (some readings) =
    if ltb (length readings) 2 then [] else detect_fuel_events default_fuel_opts readings

store_found-events :
    (creates : EventRow → Bool) (s : FuelSensor) (o : Option (List FuelReading))
    (rows : List EventRow)
    → store_found creates s o rows ≡ store_events creates s (found_events o) rows
unfolding found_events store_events
store_found-events creates s none rows = refl
store_found-events creates s (some readings) rows = elim (Bool-cases (ltb (length readings) 2)) [
  | inl k ↦ rw k refl
  | inr k ↦ rw k refl
]

-- Rows are added one by one, so what is recorded stays so.
store_events-keeps :
    (creates : EventRow → Bool) (s : FuelSensor) (device : ℕ) (d : FuelEvent) (es : List FuelEvent)
    (rows : List EventRow)
    → already_recorded device d rows ≡ true
    → already_recorded device d (store_events creates s es rows) ≡ true
unfolding store_events already_recorded
store_events-keeps creates s device d [] rows h = h
store_events-keeps creates s device d (e ∷ es) rows h =
    elim (Bool-cases (already_recorded s.device_id e rows)) [
      | inl k ↦ rw k (store_events-keeps creates s device d es rows h)
      | inr k ↦ elim (Bool-cases (creates (row_of s e))) [
        | inl c ↦
            let more : already_recorded device d (row_of s e ∷ rows) ≡ true = ground (arith, h) in
            rw k (rw c (store_events-keeps creates s device d es (row_of s e ∷ rows) more))
        | inr c ↦ rw k (rw c h)
      ]
    ]

run_detection-keeps :
    (creates : EventRow → Bool) (fetch : FuelSensor → Option (List FuelReading))
    (sensors : List FuelSensor) (device : ℕ) (d : FuelEvent) (rows : List EventRow)
    → already_recorded device d rows ≡ true
    → already_recorded device d (run_detection creates fetch sensors rows) ≡ true
unfolding run_detection
run_detection-keeps creates fetch [] device d rows h = h
run_detection-keeps creates fetch (s ∷ sensors) device d rows h =
    run_detection-keeps creates fetch sensors device d (store_found creates s (fetch s) rows) (
      rw (store_found-events creates s (fetch s) rows)
        (store_events-keeps creates s device d (found_events (fetch s)) rows h))

-- A job whose insertions all go through.
abbrev always : EventRow → Bool
always row = true

store_events-IsStored :
    (s : FuelSensor) (es : List FuelEvent) (rows : List EventRow)
    → IsStored s (store_events always s es rows) es
unfolding store_events
store_events-IsStored s [] rows = tt
store_events-IsStored s (e ∷ es) rows = elim (Bool-cases (already_recorded s.device_id e rows)) [
  | inl k ↦
      let same : store_events always s (e ∷ es) rows ≡ store_events always s es rows = rw k refl in
      subst (λ r. IsStored s r (e ∷ es)) (sym same)
        (store_events-keeps always s s.device_id e es rows k, store_events-IsStored s es rows)
  | inr k ↦
      let more = row_of s e ∷ rows in
      let same : store_events always s (e ∷ es) rows ≡ store_events always s es more = rw k refl in
      subst (λ r. IsStored s r (e ∷ es)) (sym same)
        (
          store_events-keeps always s s.device_id e es more (recorded_self s e rows),
          store_events-IsStored s es more,
        )
]

IsDone : (FuelSensor → Option (List FuelReading)) → List EventRow → List FuelSensor → Type 0
IsDone fetch rows = All {0, 0} (λ s. IsStored s rows (found_events (fetch s)))

run_detection-IsDone :
    (fetch : FuelSensor → Option (List FuelReading)) (sensors : List FuelSensor)
    (rows : List EventRow)
    → IsDone fetch (run_detection always fetch sensors rows) sensors
unfolding run_detection IsDone
run_detection-IsDone fetch [] rows = tt
run_detection-IsDone fetch (s ∷ sensors) rows =
    let after = store_found always s (fetch s) rows in
    let stored : IsStored s after (found_events (fetch s)) =
      rw (store_found-events always s (fetch s) rows)
        (store_events-IsStored s (found_events (fetch s)) rows) in
    (
      All-imp (found_events (fetch s))
          (λ e h. run_detection-keeps always fetch sensors s.device_id e after h) stored,
      run_detection-IsDone fetch sensors after,
    )

store_events-idle :
    (creates : EventRow → Bool) (s : FuelSensor) (es : List FuelEvent) (rows : List EventRow)
    → IsStored s rows es
    → store_events creates s es rows ≡ rows
unfolding store_events
store_events-idle creates s [] rows h = refl
store_events-idle creates s (e ∷ es) rows (h, hs) = rw h (store_events-idle creates s es rows hs)

run_detection-idle :
    (creates : EventRow → Bool) (fetch : FuelSensor → Option (List FuelReading))
    (sensors : List FuelSensor) (rows : List EventRow)
    → IsDone fetch rows sensors
    → run_detection creates fetch sensors rows ≡ rows
unfolding run_detection IsDone
run_detection-idle creates fetch [] rows h = refl
run_detection-idle creates fetch (s ∷ sensors) rows (h, hs) =
    let same : store_found creates s (fetch s) rows ≡ rows =
      store_found-events creates s (fetch s) rows
      ∙ store_events-idle creates s (found_events (fetch s)) rows h in
    rw same (run_detection-idle creates fetch sensors rows hs)

-- The job that reads again what it has read, after a run whose insertions all went through, stores
-- nothing.
run_detection_again :
    (creates : EventRow → Bool) (fetch : FuelSensor → Option (List FuelReading))
    (sensors : List FuelSensor) (rows : List EventRow)
    → run_detection creates fetch sensors (run_detection (λ r. true) fetch sensors rows)
      ≡ run_detection (λ r. true) fetch sensors rows
run_detection_again creates fetch sensors rows =
    run_detection-idle creates fetch sensors (run_detection always fetch sensors rows)
      (run_detection-IsDone fetch sensors rows)
