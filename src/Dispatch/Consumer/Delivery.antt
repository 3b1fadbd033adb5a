-- ===== src/Dispatch/Consumer/Delivery.antt =====
-- What becomes of the entries of the stream, over any steps of the consumer and of Redis.
use Prim.Native.String.{String}
use fleex.Common.{
  ℕ, true, false, Option, List, [], ◌∷◌, ◌≡◌, ◌⊎◌, inl, inr, ◌∙◌, contains, any, arith, Bool-cases,
  any,
}
use fleex.Dispatch.{EventEnvelope, Job}
use fleex.Dispatch.Consumer.{
  StreamEntry, ids_of, StreamGroup, Batch, handle_batch, Worker, log_batch, with_entries,
  consume_round, handled_unacked, Step, round, crash, failed_ack, arrival, Reach, here, next,
  is_trimmed,
}
use fleex.Dispatch.Consumer.Batches.{
  contains-append, is_attempted, threw-handle_batch, ack_ids-handle_batch,
  is_attempted-handle_batch,
}

module _ {G : Type 0} (redis : StreamGroup G) (parse : String → Option EventEnvelope)
    (dispatch : EventEnvelope → Option (List Job)) where
  -- An entry is accounted for if the group has it unacknowledged, it was handled or dropped, or
  -- the producer has trimmed it.
  abbrev pub IsAccounted : ℕ → Worker G → Type 0
  IsAccounted id w =
      (redis.unacked w.group id ≡ true)
      ⊎ ((is_attempted w.handled w.dropped id ≡ true) ⊎ (contains w.trimmed id ≡ true))

  -- The logs only grow.
  IsAccounted-more :
      (b : Batch) (g : G) (w : Worker G) (id : ℕ)
      → (redis.unacked w.group id ≡ true → redis.unacked g id ≡ true)
      → IsAccounted id w
      → IsAccounted id (log_batch redis parse dispatch b g w)
  IsAccounted-more b g w id keep h =
      let more = contains-append b.handled w.handled id in
      let also = contains-append b.dropped w.dropped id in
      elim h [
        | inl k ↦ inl (keep k)
        | inr (inl k) ↦ inr (inl (ground (arith, more, also, k)))
        | inr (inr k) ↦ inr (inr k)
      ]

  IsAccounted-acked :
      (es : List StreamEntry) (g : G) (w : Worker G) (id : ℕ)
      → any is_trimmed es ≡ false
      → (contains (ids_of es) id ≡ false → redis.unacked g id ≡ redis.unacked w.group id)
      → IsAccounted id w
      → IsAccounted id (log_batch redis parse dispatch (handle_batch parse dispatch es) g w)
  IsAccounted-acked es g w id whole same h =
      let b = handle_batch parse dispatch es in
      let all = is_attempted-handle_batch parse dispatch es id whole in
      let more = contains-append b.handled w.handled id in
      let also = contains-append b.dropped w.dropped id in
      elim (Bool-cases (contains (ids_of es) id)) [
        | inl e ↦ inr (inl (ground (arith, all, more, also, e)))
        | inr e ↦ IsAccounted-more b g w id (λ k. same e ∙ k) h
      ]

  with_entries-IsAccounted :
      (es : List StreamEntry) (g : G) (w : Worker G) (id : ℕ)
      → redis.unacked g id ≡ redis.unacked w.group id
      → IsAccounted id w
      → IsAccounted id (with_entries redis parse dispatch es g w)
  with_entries-IsAccounted [] g w id same h = ground arith
  with_entries-IsAccounted (e ∷ es) g w id same h =
      let b = handle_batch parse dispatch (e ∷ es) in
      let threw = threw-handle_batch parse dispatch (e ∷ es) in
      elim (Bool-cases (any is_trimmed (e ∷ es))) [
        | inl t ↦ rw (threw ∙ t) (IsAccounted-more b g w id (λ k. same ∙ k) h)
        | inr t ↦
            let acks = ack_ids-handle_batch parse dispatch (e ∷ es) t in
            rw (threw ∙ t) (
              IsAccounted-acked (e ∷ es) (redis.xack b.ack_ids g) w id t
                (λ out. redis.xack_keeps b.ack_ids g id (rw acks out) ∙ same) h)
      ]

  Step-IsAccounted :
      {w v : Worker G} (id : ℕ)
      → Step redis parse dispatch w v
      → IsAccounted id w
      → IsAccounted id v
  unfolding consume_round handled_unacked
  Step-IsAccounted {w} id round h =
      let got = redis.read w.cursor w.group in
      with_entries-IsAccounted got.0 got.1 w id (redis.read_keeps w.cursor w.group id) h
  Step-IsAccounted {w} id (crash es) h =
      IsAccounted-more (handle_batch parse dispatch es) (redis.read w.cursor w.group).1 w id
        (λ k. redis.read_keeps w.cursor w.group id ∙ k) h
  Step-IsAccounted {w} id failed_ack h =
      let got = redis.read w.cursor w.group in
      IsAccounted-more (handle_batch parse dispatch got.0) got.1 w id
        (λ k. redis.read_keeps w.cursor w.group id ∙ k) h
  Step-IsAccounted {w} id (arrival g ids keep) h =
      let more = contains-append ids w.trimmed id in
      elim h [
        | inl k ↦ elim (keep id k) [
          | inl kept ↦ inl kept
          | inr out ↦ inr (inr (ground (arith, more, out)))
        ]
        | inr (inl k) ↦ inr (inl k)
        | inr (inr k) ↦ inr (inr (ground (arith, more, k)))
      ]

  -- Whatever order the rounds, the crashes part way through a batch, the failures of XACK and the
  -- arrivals come in, an entry that the group had not acknowledged is not acknowledged at the end
  -- either, or it was handled, or its handling failed, or the producer has trimmed it.
  pub no_event_lost :
      {w v : Worker G} (id : ℕ)
      → redis.unacked w.group id ≡ true
      → Reach redis parse dispatch w v
      → IsAccounted id v
  no_event_lost id kept here = inl kept
  no_event_lost id kept (next r st) = Step-IsAccounted id st (no_event_lost id kept r)
