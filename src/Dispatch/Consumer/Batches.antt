-- ===== src/Dispatch/Consumer/Batches.antt =====
-- What the `for` of `consumeLoop` does with the entries of a read
-- (services/api/src/notifications/notification-dispatcher.service.ts).
use Prim.Native.String.{String}
use fleex.Common.{
  ℕ, Bool, true, false, Option, none, some, List, [], ◌∷◌, ◌++◌, ◌≡◌, ◌⊎◌, inl, inr, refl, ap, ◌∙◌,
  ◌||◌, ◌==◌, contains, any, arith, any,
}
use fleex.Dispatch.{EventEnvelope, Job}
use fleex.Dispatch.Consumer.{
  StreamEntry, ids_of, Batch, parse_entry, try_handle, after_handling, handle_batch, is_null,
  parse_and_handle, is_trimmed,
}

pub List-cases :
    (xs : List StreamEntry)
    → (xs ≡ []) ⊎ ((x : StreamEntry) × (ys : List StreamEntry) × (xs ≡ x ∷ ys))
List-cases [] = inl refl
List-cases (x ∷ xs) = inr (x, xs, refl)

pub contains-append :
    (xs ys : List ℕ) (a : ℕ) → contains (xs ++ ys) a ≡ (contains xs a || contains ys a)
contains-append [] ys a = refl
contains-append (x ∷ xs) ys a = ground (arith, contains-append xs ys a)

-- Whether an entry was handled, or dropped with an error.
abbrev pub is_attempted : List ℕ → List ℕ → ℕ → Bool
is_attempted handled dropped id = contains handled id || contains dropped id

ack_ids-after_handling :
    (id : ℕ) (o : Option (List Job)) (b : Batch) → (after_handling id o b).ack_ids ≡ id ∷ b.ack_ids
ack_ids-after_handling id none b = refl
ack_ids-after_handling id (some jobs) b = refl

is_attempted-after_handling :
    (id a : ℕ) (o : Option (List Job)) (b : Batch)
    → let c = after_handling id o b in
      is_attempted c.handled c.dropped a ≡ ((id == a) || is_attempted b.handled b.dropped a)
is_attempted-after_handling id a none b = ground arith
is_attempted-after_handling id a (some jobs) b = ground arith

dropped_more :
    (id a : ℕ) (o : Option (List Job)) (b : Batch)
    → contains b.dropped a ≡ true
    → contains (after_handling id o b).dropped a ≡ true
dropped_more id a none b h = ground arith
dropped_more id a (some jobs) b h = h

threw-after_handling :
    (id : ℕ) (o : Option (List Job)) (b : Batch) → (after_handling id o b).threw ≡ b.threw
threw-after_handling id none b = refl
threw-after_handling id (some jobs) b = refl

module _ (parse : String → Option EventEnvelope)
    (dispatch : EventEnvelope → Option (List Job)) where
  threw-parse_and_handle :
      (id : ℕ) (o : Option (List String)) (b : Batch)
      → (parse_and_handle parse dispatch id o b).threw ≡ (is_null o || b.threw)
  threw-parse_and_handle id none b = refl
  threw-parse_and_handle id (some fields) b =
      threw-after_handling id (try_handle parse dispatch (parse_entry parse dispatch fields)) b

  -- The `for` is ended by an entry that was trimmed, and by nothing else.
  pub threw-handle_batch :
      (es : List StreamEntry) → (handle_batch parse dispatch es).threw ≡ any is_trimmed es
  unfolding handle_batch
  threw-handle_batch [] = refl
  threw-handle_batch (e ∷ es) =
      threw-parse_and_handle e.id e.fields (handle_batch parse dispatch es)
      ∙ ap (λ x. is_trimmed e || x) (threw-handle_batch es)

  ack_ids-parse_and_handle :
      (id : ℕ) (o : Option (List String)) (b : Batch)
      → is_null o ≡ false
      → (parse_and_handle parse dispatch id o b).ack_ids ≡ id ∷ b.ack_ids
  ack_ids-parse_and_handle id none b h = cc
  ack_ids-parse_and_handle id (some fields) b h =
      ack_ids-after_handling id (try_handle parse dispatch (parse_entry parse dispatch fields)) b

  -- The ids to acknowledge are those of the batch, in its order.
  pub ack_ids-handle_batch :
      (es : List StreamEntry)
      → any is_trimmed es ≡ false
      → (handle_batch parse dispatch es).ack_ids ≡ ids_of es
  unfolding handle_batch
  ack_ids-handle_batch [] h = refl
  ack_ids-handle_batch (e ∷ es) h =
      let first : is_null e.fields ≡ false = ground (arith, h) in
      let rest : any is_trimmed es ≡ false = ground (arith, h) in
      ack_ids-parse_and_handle e.id e.fields (handle_batch parse dispatch es) first
      ∙ ap (λ l. e.id ∷ l) (ack_ids-handle_batch es rest)

  is_attempted-parse_and_handle :
      (id a : ℕ) (o : Option (List String)) (b : Batch)
      → is_null o ≡ false
      → let c = parse_and_handle parse dispatch id o b in
        is_attempted c.handled c.dropped a ≡ ((id == a) || is_attempted b.handled b.dropped a)
  is_attempted-parse_and_handle id a none b h = cc
  is_attempted-parse_and_handle id a (some fields) b h =
      is_attempted-after_handling id a
        (try_handle parse dispatch (parse_entry parse dispatch fields)) b

  pub is_attempted-handle_batch :
      (es : List StreamEntry) (a : ℕ)
      → any is_trimmed es ≡ false
      → let b = handle_batch parse dispatch es in
        is_attempted b.handled b.dropped a ≡ contains (ids_of es) a
  unfolding handle_batch
  is_attempted-handle_batch [] a h = refl
  is_attempted-handle_batch (e ∷ es) a h =
      let first : is_null e.fields ≡ false = ground (arith, h) in
      let rest : any is_trimmed es ≡ false = ground (arith, h) in
      is_attempted-parse_and_handle e.id a e.fields (handle_batch parse dispatch es) first
      ∙ ap (λ x. (e.id == a) || x) (is_attempted-handle_batch es a rest)

  dropped-parse_and_handle :
      (id a : ℕ) (o : Option (List String)) (b : Batch)
      → is_null o ≡ false
      → contains b.dropped a ≡ true
      → contains (parse_and_handle parse dispatch id o b).dropped a ≡ true
  dropped-parse_and_handle id a none b n h = cc
  dropped-parse_and_handle id a (some fields) b n h =
      dropped_more id a (try_handle parse dispatch (parse_entry parse dispatch fields)) b h

  dropped_first :
      (id : ℕ) (fields : List String) (o : Option (List String)) (b : Batch)
      → o ≡ some fields
      → try_handle parse dispatch (parse_entry parse dispatch fields) ≡ none
      → contains (parse_and_handle parse dispatch id o b).dropped id ≡ true
  dropped_first id fields o b e h = rw e (rw h (ground arith))

  -- An entry that cannot be read, or whose handling throws, is among those dropped.
  pub contains-dropped :
      (es : List StreamEntry) (e : StreamEntry) (fields : List String) (pre : List StreamEntry)
      → any is_trimmed (pre ++ (e ∷ es)) ≡ false
      → e.fields ≡ some fields
      → try_handle parse dispatch (parse_entry parse dispatch fields) ≡ none
      → contains (handle_batch parse dispatch (pre ++ (e ∷ es))).dropped e.id ≡ true
  unfolding handle_batch
  contains-dropped es e fields [] whole there h =
      dropped_first e.id fields e.fields (handle_batch parse dispatch es) there h
  contains-dropped es e fields (p ∷ pre) whole there h =
      let first : is_null p.fields ≡ false = ground (arith, whole) in
      let rest : any is_trimmed (pre ++ (e ∷ es)) ≡ false = ground (arith, whole) in
      dropped-parse_and_handle p.id e.id p.fields (handle_batch parse dispatch (pre ++ (e ∷ es)))
        first (contains-dropped es e fields pre rest there h)
