-- ===== src/Dispatch/Consumer/Restart.antt =====
-- How a consumer gets on that restarts with entries left over from before.
use Prim.Native.String.{String}
use fleex.Common.{
  ℕ, zero, suc, true, false, Option, none, some, List, [], ◌∷◌, ◌++◌, ◌≡◌, ◌<◌, ◌≤◌, ◌⊎◌, inl, inr,
  refl, ap, sym, ◌∙◌, contains, any, arith, Bool-cases, any,
}
use fleex.Dispatch.{EventEnvelope, Job}
use fleex.Dispatch.Consumer.{
  own_pending, new_entries, StreamEntry, ids_of, StreamGroup, parse_entry, try_handle, handle_batch,
  Worker, log_batch, with_entries, consume_round, consume_rounds, is_trimmed,
}
use fleex.Dispatch.Consumer.Batches.{
  List-cases, contains-append, threw-handle_batch, ack_ids-handle_batch, is_attempted-handle_batch,
  contains-dropped,
}

module _ {G : Type 0} (redis : StreamGroup G) (parse : String → Option EventEnvelope)
    (dispatch : EventEnvelope → Option (List Job)) where
  -- A round with something to do, and nothing trimmed.
  with_entries-has :
      (es : List StreamEntry) (g : G) (w : Worker G) (id : ℕ)
      → any is_trimmed es ≡ false
      → contains (ids_of es) id ≡ true
      → with_entries redis parse dispatch es g w
        ≡ log_batch redis parse dispatch
            (handle_batch parse dispatch es)
            (redis.xack (ids_of es) g)
            w
  with_entries-has [] g w id whole h = cc
  with_entries-has (e ∷ es) g w id whole h =
      rw (threw-handle_batch parse dispatch (e ∷ es) ∙ whole)
        (rw (ack_ids-handle_batch parse dispatch (e ∷ es) whole) refl)

  -- An entry of a read that is no envelope, or whose handling throws, is acknowledged by the round
  -- like the others, and is in the log of those dropped, whatever was read before and after it, if
  -- none of it was trimmed.
  dropped_is_acked :
      (w : Worker G) (pre : List StreamEntry) (e : StreamEntry) (fields : List String)
      (es : List StreamEntry)
      → (redis.read w.cursor w.group).0 ≡ pre ++ (e ∷ es)
      → any is_trimmed (pre ++ (e ∷ es)) ≡ false
      → e.fields ≡ some fields
      → try_handle parse dispatch (parse_entry parse dispatch fields) ≡ none
      → let v = consume_round redis parse dispatch w in
        (redis.unacked v.group e.id ≡ false) × (contains v.dropped e.id ≡ true)
  unfolding consume_round
  dropped_is_acked w pre e fields es read intact there h =
      let got = redis.read w.cursor w.group in
      let whole : any is_trimmed got.0 ≡ false = rw read intact in
      let drop : contains (handle_batch parse dispatch got.0).dropped e.id ≡ true =
        rw read (contains-dropped parse dispatch es e fields pre intact there h) in
      let seen = is_attempted-handle_batch parse dispatch got.0 e.id whole in
      let has : contains (ids_of got.0) e.id ≡ true = ground (arith, drop, seen) in
      let more = contains-append (handle_batch parse dispatch got.0).dropped w.dropped e.id in
      rw (with_entries-has got.0 got.1 w e.id whole has)
        (redis.xack_clears w.cursor w.group e.id has, ground (arith, more, drop))

  -- A round with something to do, and nothing trimmed.
  with_entries-some :
      (e : StreamEntry) (es : List StreamEntry) (g : G) (w : Worker G)
      → any is_trimmed (e ∷ es) ≡ false
      → with_entries redis parse dispatch (e ∷ es) g w
        ≡ log_batch redis parse dispatch
            (handle_batch parse dispatch (e ∷ es))
            (redis.xack (ids_of (e ∷ es)) g)
            w
  with_entries-some e es g w whole = with_entries-has (e ∷ es) g w e.id whole (ground arith)

  -- A round at the start either finds nothing left over, or acknowledges some of it, if what it
  -- reads is not trimmed.
  drain_round :
      (w : Worker G)
      → w.cursor ≡ own_pending
      → any is_trimmed (redis.read own_pending w.group).0 ≡ false
      → let v = consume_round redis parse dispatch w in
        ((v.cursor ≡ new_entries) × (redis.pending v.group ≡ 0))
        ⊎ ((v.cursor ≡ own_pending) × (redis.pending v.group < redis.pending w.group))
  unfolding consume_round
  drain_round w start intact =
      rw (ap (λ c. redis.read c w.group) start)
        (elim (List-cases (redis.read own_pending w.group).0) [
          | inl e ↦ inl (rw e (refl, redis.none_pending w.group e))
          | inr (x, xs, e) ↦
              let got = redis.read own_pending w.group in
              let same : with_entries redis parse dispatch got.0 got.1 w
                  ≡ log_batch redis parse dispatch (handle_batch parse dispatch got.0)
                      (redis.xack (ids_of got.0) got.1) w =
                rw e (with_entries-some x xs got.1 w (ap (any is_trimmed) (sym e) ∙ intact)) in
              inr (rw same (start, redis.fewer_pending w.group x xs e))
        ])

  -- A consumer at the start whose left-over entries are read with a trimmed one among them.
  abbrev IsStuck : Worker G → Type 0
  IsStuck w = (w.cursor ≡ own_pending) × (any is_trimmed (redis.read own_pending w.group).0 ≡ true)

  with_entries-trimmed :
      (es : List StreamEntry) (g : G) (w : Worker G)
      → any is_trimmed es ≡ true
      → with_entries redis parse dispatch es g w
        ≡ log_batch redis parse dispatch (handle_batch parse dispatch es) g w
  with_entries-trimmed [] g w h = cc
  with_entries-trimmed (e ∷ es) g w h = rw (threw-handle_batch parse dispatch (e ∷ es) ∙ h) refl

  IsStuck-round :
      (w : Worker G)
      → IsStuck w
      → let v = consume_round redis parse dispatch w in
        IsStuck v × ((id : ℕ) → redis.unacked v.group id ≡ redis.unacked w.group id)
  unfolding consume_round
  IsStuck-round w (start, out) =
      let got = redis.read own_pending w.group in
      rw (ap (λ c. redis.read c w.group) start) (
        rw (with_entries-trimmed got.0 got.1 w out) (
          (start, ap (any is_trimmed) (redis.read_again w.group) ∙ out),
          λ id. redis.read_keeps own_pending w.group id,
        ))

  -- A consumer that restarts and reads a left-over entry that was trimmed never gets on: after any
  -- number of rounds it has acknowledged nothing and reads the left-over entries again, not the
  -- new ones.
  trimmed_entry_stalls :
      (n : ℕ) (w : Worker G)
      → w.cursor ≡ own_pending
      → any is_trimmed (redis.read own_pending w.group).0 ≡ true
      → let v = consume_rounds redis parse dispatch n w in
        (v.cursor ≡ own_pending) × ((id : ℕ) → redis.unacked v.group id ≡ redis.unacked w.group id)
  trimmed_entry_stalls zero w start out = (start, λ id. refl)
  trimmed_entry_stalls (suc n) w start out =
      let ((start', out'), same) = IsStuck-round w (start, out) in
      let (own, kept) = trimmed_entry_stalls n (consume_round redis parse dispatch w) start' out' in
      (own, λ id. kept id ∙ same id)

  -- After m rounds, n at most, nothing is left over and the cursor is at the new entries.
  abbrev pub IsDrained : ℕ → Worker G → ℕ → Type 0
  IsDrained n w m =
      let v = consume_rounds redis parse dispatch m w in
      (m ≤ n) × (v.cursor ≡ new_entries) × (redis.pending v.group ≡ 0)

  -- After m rounds, n at most, the next read has a trimmed entry, and whatever rounds follow, the
  -- cursor stays at the left-over entries and nothing more is acknowledged.
  abbrev pub IsStalled : ℕ → Worker G → ℕ → Type 0
  IsStalled n w m =
      let v = consume_rounds redis parse dispatch m w in
      (m ≤ n)
      × (any is_trimmed (redis.read own_pending v.group).0 ≡ true)
      × ((k : ℕ)
          → let u = consume_rounds redis parse dispatch k v in
            (u.cursor ≡ own_pending)
            × ((id : ℕ) → redis.unacked u.group id ≡ redis.unacked v.group id))

  -- With nothing else done to the group meanwhile and no exception of Redis, the restart of a
  -- consumer comes to one of two ends, in at most one round more than there are entries left over
  -- from before: all of them are acknowledged and the cursor is at the new entries; or the next
  -- read has an entry that was trimmed, and then no later round acknowledges anything or reads new
  -- entries.
  pub drains_or_stalls :
      (n : ℕ) (w : Worker G)
      → w.cursor ≡ own_pending
      → redis.pending w.group < n
      → ((m : ℕ) × IsDrained n w m) ⊎ ((m : ℕ) × IsStalled n w m)
  drains_or_stalls zero w start h = absurd (omega (arith, h))
  drains_or_stalls (suc n) w start h =
      elim (Bool-cases (any is_trimmed (redis.read own_pending w.group).0)) [
        | inl out ↦ inr (0, (omega arith, out, λ k. trimmed_entry_stalls k w start out))
        | inr intact ↦ elim (drain_round w start intact) [
          | inl (new, done) ↦ inl (1, (omega arith, new, done))
          | inr (own, fewer) ↦
              elim (drains_or_stalls n (consume_round redis parse dispatch w) own (omega arith)) [
                | inl (m, (le, moved, done)) ↦ inl (suc m, (omega arith, moved, done))
                | inr (m, (le, out, stays)) ↦ inr (suc m, (omega arith, out, stays))
              ]
        ]
      ]
