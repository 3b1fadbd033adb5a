-- ===== src/Dispatch/Consumer.antt =====
-- `consumeLoop` and `parseEntry` of
-- services/api/src/notifications/notification-dispatcher.service.ts: the rounds of the loop that
-- reads the stream of events as one consumer of a Redis group.
pub mod Batches
pub mod Delivery
pub mod Restart
use Prim.Native.String.{String}
use text.Mathlib.Text.{◌==◌ as str_eq}
use fleex.Common.{
  ℕ, zero, suc, Bool, true, false, Option, none, some, List, [], ◌∷◌, ◌++◌, map, any, ◌⊎◌, ◌≡◌, ◌<◌,
  contains, if◌then◌else◌,
}
use fleex.Dispatch.{EventEnvelope, Job}

-- The arguments '0' and '>' of XREADGROUP: what was delivered and not acknowledged, or what is
-- new.
pub data Cursor : Type 0 where
  own_pending new_entries : Cursor

-- An entry as it is read. The fields are null where the entry was delivered before and has been
-- trimmed from the stream since.
pub record StreamEntry : Type 0 where
  pub id : ℕ
  pub fields : Option (List String)

abbrev pub is_null : Option (List String) → Bool
is_null none = true
is_null (some fields) = false

abbrev pub is_trimmed : StreamEntry → Bool
is_trimmed e = is_null e.fields

abbrev pub ids_of : List StreamEntry → List ℕ
ids_of = map (λ e. e.id)

-- What Redis documents of a consumer group: reading acknowledges nothing, acknowledging touches
-- the given entries alone and clears those that were read, and the entries of this consumer that
-- were delivered and not acknowledged are read again with '0' until there are none, the same as
-- long as none is acknowledged.
pub record StreamGroup (G : Type 0) : Type 0 where
  pub read : Cursor → G → List StreamEntry × G
  pub xack : List ℕ → G → G
  pub unacked : G → ℕ → Bool
  pub pending : G → ℕ
  pub read_keeps : (c : Cursor) (g : G) (id : ℕ) → unacked (read c g).1 id ≡ unacked g id
  pub xack_keeps :
      (ids : List ℕ) (g : G) (id : ℕ)
      → contains ids id ≡ false
      → unacked (xack ids g) id ≡ unacked g id
  pub xack_clears :
      (c : Cursor) (g : G) (id : ℕ)
      → contains (ids_of (read c g).0) id ≡ true
      → unacked (xack (ids_of (read c g).0) (read c g).1) id ≡ false
  pub none_pending : (g : G) → (read own_pending g).0 ≡ [] → pending (read own_pending g).1 ≡ 0
  pub fewer_pending :
      (g : G) (e : StreamEntry) (es : List StreamEntry)
      → (read own_pending g).0 ≡ e ∷ es
      → pending (xack (ids_of (read own_pending g).0) (read own_pending g).1) < pending g
  pub read_again : (g : G) → (read own_pending (read own_pending g).1).0 ≡ (read own_pending g).0

-- What has become of the entries of a batch: the ids to acknowledge, those that were handled,
-- those that could not be read or whose handling threw, the sends, and whether `parseEntry` threw.
pub record Batch : Type 0 where
  pub ack_ids : List ℕ
  pub handled : List ℕ
  pub dropped : List ℕ
  pub sent : List Job
  pub threw : Bool

abbrev pub empty_batch : Batch
empty_batch = record { ack_ids = []; handled = []; dropped = []; sent = []; threw = false }

abbrev pub after_handling : ℕ → Option (List Job) → Batch → Batch
after_handling id none b = record b { ack_ids = id ∷ b.ack_ids; dropped = id ∷ b.dropped }
after_handling id (some jobs) b = record b {
  ack_ids = id ∷ b.ack_ids;
  handled = id ∷ b.handled;
  sent = jobs ++ b.sent;
}

-- `parse` is JSON.parse at an envelope, and `dispatch` what `handle` sends, or none if it throws.
module _ (parse : String → Option EventEnvelope)
    (dispatch : EventEnvelope → Option (List Job)) where
  unfoldable pub parse_entry : List String → Option EventEnvelope
  parse_entry [] = none
  parse_entry (f ∷ []) = none
  parse_entry (f ∷ v ∷ rest) = if str_eq f "data" then parse v else parse_entry rest

  abbrev pub try_handle : Option EventEnvelope → Option (List Job)
  try_handle none = none
  try_handle (some ev) = dispatch ev

  -- `parseEntry` of null throws, outside the `catch` of `handle`, and ends the `for`.
  abbrev pub parse_and_handle : ℕ → Option (List String) → Batch → Batch
  parse_and_handle id none b = record empty_batch { threw = true }
  parse_and_handle id (some fields) b = after_handling id (try_handle (parse_entry fields)) b

  -- The `for` over the entries of a read.
  unfoldable pub handle_batch : List StreamEntry → Batch
  unfolding parse_entry
  handle_batch [] = empty_batch
  handle_batch (e ∷ es) = parse_and_handle e.id e.fields (handle_batch es)

-- The consumer and the group; the logs tell what it has done since the start, and which entries
-- the producer has trimmed.
pub record Worker (G : Type 0) : Type 0 where
  pub group : G
  pub cursor : Cursor
  pub handled : List ℕ
  pub dropped : List ℕ
  pub sent : List Job
  pub trimmed : List ℕ

module _ {G : Type 0} (redis : StreamGroup G) (parse : String → Option EventEnvelope)
    (dispatch : EventEnvelope → Option (List Job)) where
  -- The logs once the entries of a batch were handled, before they are acknowledged.
  abbrev pub log_batch : Batch → G → Worker G → Worker G
  log_batch b g w = record w {
    group = g;
    handled = b.handled ++ w.handled;
    dropped = b.dropped ++ w.dropped;
    sent = b.sent ++ w.sent;
  }

  abbrev pub with_entries : List StreamEntry → G → Worker G → Worker G
  with_entries [] g w = record w { group = g; cursor = new_entries }
  with_entries (e ∷ es) g w =
      let b = handle_batch parse dispatch (e ∷ es) in
      log_batch b (if b.threw then g else redis.xack b.ack_ids g) w

  -- One round of the `while`, with no exception of Redis. One of `parseEntry` leaves the cursor
  -- and acknowledges nothing.
  unfoldable pub consume_round : Worker G → Worker G
  unfolding handle_batch
  consume_round w = let (entries, g) = redis.read w.cursor w.group in with_entries entries g w

  abbrev pub consume_rounds : ℕ → Worker G → Worker G
  consume_rounds zero w = w
  consume_rounds (suc n) w = consume_rounds n (consume_round w)

  -- The process stops after it handled some entries of a read, and starts again; with all of them,
  -- also what a failed XACK leaves, but for the cursor.
  unfoldable pub handled_unacked : Cursor → List StreamEntry → Worker G → Worker G
  unfolding handle_batch
  handled_unacked c es w =
      let b = handle_batch parse dispatch es in
      record (log_batch b (redis.read w.cursor w.group).1 w) { cursor = c }

  -- A step of the consumer or of its surroundings. The producer adds entries and, as it bounds the
  -- stream, trims some: XADD with MaxLen in services/events-engine/internal/store/store.go.
  pub data Step (w : Worker G) : Worker G → Type 0 where
    round : Step w (consume_round w)
    crash : (es : List StreamEntry) → Step w (handled_unacked own_pending es w)
    failed_ack : Step w (handled_unacked w.cursor (redis.read w.cursor w.group).0 w)
    arrival :
        (g : G) (ids : List ℕ)
        → ((id : ℕ)
            → redis.unacked w.group id ≡ true
            → (redis.unacked g id ≡ true) ⊎ (contains ids id ≡ true))
        → Step w (record w { group = g; trimmed = ids ++ w.trimmed })

  pub data Reach (w : Worker G) : Worker G → Type 0 where
    here : Reach w w
    next : {u v : Worker G} → Reach w u → Step u v → Reach w v
