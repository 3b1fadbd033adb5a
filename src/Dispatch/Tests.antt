-- ===== src/Dispatch/Tests.antt =====
-- The theorems of Dispatch at two rules and a panic, and at a small group of a stream.
use Prim.Native.String.{String}
use text.Mathlib.Text.{◌==◌ as str_eq}
use fleex.Common.{
  if◌then◌else◌, ◌<◌, ◌&&◌, ℕ, ℤ, pos, ◌≡◌, Bool, true, false, none, some, List, [], ◌∷◌, ◌++◌, All,
  filter, ◌==◌, not, length, refl, contains, ap, arith, suc, Bool-cases, Option, inl, inr, ◌⊎◌,
}
use fleex.Dispatch.{
  Rule, EventEnvelope, Vehicle, info, critical, email, sms, refresh_rules, handle, Job,
}
use fleex.Dispatch.Consumer.{
  Cursor, own_pending, new_entries, StreamEntry, ids_of, StreamGroup, Worker, consume_round, Reach,
  here, next, crash, round, handled_unacked,
}
use fleex.Dispatch.Consumer.Delivery.{IsAccounted, no_event_lost}
use fleex.Dispatch.Consumer.Restart.{IsDrained, IsStalled, drains_or_stalls}
use fleex.Dispatch.Routing.{IsWarranted, handle-All-IsWarranted}

abbrev a_rule : ℕ → ℕ → Rule
a_rule id company = record {
  id = id;
  company_id = company;
  active = true;
  trigger_type = 9;
  min_severity = info;
  device_ids = [];
  geofence_ids = [];
  place_ids = [];
  channels = email ∷ sms ∷ [];
  emails = 70 ∷ [];
  phones = [];
  webhook_url = [];
  telegrams = [];
  pushes = [];
  whatsapps = [];
  vibers = [];
}

abbrev some_rules : List Rule
some_rules = a_rule 1 3 ∷ a_rule 2 4 ∷ record (a_rule 3 3) { active = false } ∷ []

abbrev a_panic : EventEnvelope
a_panic = record {
  company_id = 3;
  device_id = 21;
  geofence_id = none;
  type = 9;
  severity = critical;
  position = some (pos 1, pos 2);
}

abbrev a_neighbour : Vehicle
a_neighbour = record {
  id = 22;
  company_id = 3;
  active = true;
  last_seen_at = some 900;
  last_position = some (pos 1, pos 3);
  driver_phone = some 99;
}

abbrev always_near : ℤ × ℤ → ℤ × ℤ → Bool
always_near a b = true

handle-All-IsWarranted_example :
    All
      (IsWarranted always_near 9 1000 some_rules a_panic none (a_neighbour ∷ []))
      (handle always_near 9 1000 true (refresh_rules some_rules) (a_neighbour ∷ []) none a_panic)
handle-All-IsWarranted_example =
    handle-All-IsWarranted always_near 9 1000 some_rules a_panic none (a_neighbour ∷ []) true

-- A group that delivers what it has all at once.
record Backlog : Type 0 where
  entries : List StreamEntry
  delivered : Bool

abbrev read_backlog : Cursor → List StreamEntry → Bool → List StreamEntry × Backlog
read_backlog own_pending es true = (es, record { entries = es; delivered = true })
read_backlog own_pending es false = ([], record { entries = es; delivered = false })
read_backlog new_entries es true = ([], record { entries = es; delivered = true })
read_backlog new_entries es false = (es, record { entries = es; delivered = true })

abbrev keeps : List ℕ → StreamEntry → Bool
keeps ids e = not (contains ids e.id)

abbrev pending_of : List StreamEntry → Bool → ℕ
pending_of es true = length es
pending_of es false = 0

contains-keeps :
    (ids : List ℕ) (es : List StreamEntry) (id : ℕ)
    → contains (ids_of (filter (keeps ids) es)) id
      ≡ (contains (ids_of es) id && not (contains ids id))
contains-keeps ids [] id = refl
contains-keeps ids (e ∷ es) id = elim (Bool-cases (e.id == id)) [
  | inl k ↦
      let same : e.id ≡ id = ground (arith, k) in
      let here : contains ids e.id ≡ contains ids id = ap (contains ids) same in
      ground (arith, contains-keeps ids es id, here, k)
  | inr k ↦ ground (arith, contains-keeps ids es id, k)
]

keeps_none :
    (ids : List ℕ) (es : List StreamEntry)
    → ((id : ℕ) → contains (ids_of es) id ≡ true → contains ids id ≡ true)
    → length (filter (keeps ids) es) ≡ 0
keeps_none ids [] all = refl
keeps_none ids (e ∷ es) all =
    let first : (e.id == e.id) ≡ true = ground arith in
    let out = all e.id (ground (arith, first)) in
    rw out (keeps_none ids es (λ id h. all id (ground (arith, h))))

read_backlog-keeps :
    (c : Cursor) (es : List StreamEntry) (b : Bool) → (read_backlog c es b).1.entries ≡ es
read_backlog-keeps own_pending es true = refl
read_backlog-keeps own_pending es false = refl
read_backlog-keeps new_entries es true = refl
read_backlog-keeps new_entries es false = refl

read_backlog-some :
    (c : Cursor) (es : List StreamEntry) (b : Bool) (id : ℕ)
    → contains (ids_of (read_backlog c es b).0) id ≡ true
    → (read_backlog c es b).0 ≡ es
read_backlog-some own_pending es true id h = refl
read_backlog-some own_pending es false id h = cc
read_backlog-some new_entries es true id h = cc
read_backlog-some new_entries es false id h = refl

backlog_keeps :
    (ids : List ℕ) (es : List StreamEntry) (id : ℕ)
    → contains ids id ≡ false
    → contains (ids_of (filter (keeps ids) es)) id ≡ contains (ids_of es) id
backlog_keeps ids es id out = ground (arith, contains-keeps ids es id, out)

backlog_clears :
    (c : Cursor) (es : List StreamEntry) (b : Bool) (id : ℕ)
    → let r = read_backlog c es b in
      contains (ids_of r.0) id ≡ true
      → contains (ids_of (filter (keeps (ids_of r.0)) r.1.entries)) id ≡ false
backlog_clears c es b id h =
    let r = read_backlog c es b in ground (arith, contains-keeps (ids_of r.0) r.1.entries id, h)

none_left :
    (es : List StreamEntry) (b : Bool)
    → (read_backlog own_pending es b).0 ≡ []
    → pending_of
        (read_backlog own_pending es b).1.entries
        (read_backlog own_pending es b).1.delivered
      ≡ 0
none_left es true h = rw h refl
none_left es false h = refl

fewer_left :
    (old : List StreamEntry) (b : Bool) (e : StreamEntry) (es : List StreamEntry)
    → let r = read_backlog own_pending old b in
      r.0 ≡ e ∷ es
      → pending_of (filter (keeps (ids_of r.0)) r.1.entries) r.1.delivered < pending_of old b
fewer_left old true e es h =
    let gone = keeps_none (ids_of old) old (λ id k. k) in
    let some_ : length old ≡ suc (length es) = rw h refl in omega (arith, gone, some_)
fewer_left old false e es h = cc

backlog_again :
    (es : List StreamEntry) (b : Bool)
    → let r = (read_backlog own_pending es b).1 in
      (read_backlog own_pending r.entries r.delivered).0 ≡ (read_backlog own_pending es b).0
backlog_again es true = refl
backlog_again es false = refl

abbrev backlog_group : StreamGroup Backlog
backlog_group = record {
  read = λ c g. read_backlog c g.entries g.delivered;
  xack = λ ids g. record g { entries = filter (keeps ids) g.entries };
  unacked = λ g id. contains (ids_of g.entries) id;
  pending = λ g. pending_of g.entries g.delivered;
  read_keeps =
      λ c g id. ap (λ es. contains (ids_of es) id) (read_backlog-keeps c g.entries g.delivered);
  xack_keeps = λ ids g id out. backlog_keeps ids g.entries id out;
  xack_clears = λ c g id h. backlog_clears c g.entries g.delivered id h;
  none_pending = λ g h. none_left g.entries g.delivered h;
  fewer_pending = λ g e es h. fewer_left g.entries g.delivered e es h;
  read_again = λ g. backlog_again g.entries g.delivered;
}

-- Two entries that were left over: a panic, and one whose data does not parse.
abbrev some_entries : List StreamEntry
some_entries =
    record { id = 1; fields = some ("data" ∷ "panic" ∷ []) }
    ∷ record { id = 2; fields = some ("data" ∷ "broken" ∷ []) }
    ∷ []

abbrev parse_panic : String → Option EventEnvelope
parse_panic s = if str_eq s "panic" then some a_panic else none

abbrev page_panic : EventEnvelope → Option (List Job)
page_panic ev =
    some (handle always_near 9 1000 true (refresh_rules some_rules) (a_neighbour ∷ []) none ev)

abbrev a_worker : Worker Backlog
a_worker = record {
  group = record { entries = some_entries; delivered = true };
  cursor = own_pending;
  handled = [];
  dropped = [];
  sent = [];
  trimmed = [];
}

abbrev a_reach : Reach backlog_group parse_panic page_panic a_worker (
    consume_round backlog_group parse_panic page_panic
      (handled_unacked backlog_group parse_panic page_panic own_pending some_entries a_worker))
a_reach = next (next here (crash some_entries)) round

no_event_lost_example : IsAccounted backlog_group parse_panic page_panic 1 (
    consume_round backlog_group parse_panic page_panic
      (handled_unacked backlog_group parse_panic page_panic own_pending some_entries a_worker))
no_event_lost_example = no_event_lost backlog_group parse_panic page_panic 1 refl a_reach

-- A third one was left over, and trimmed since.
abbrev a_stuck_worker : Worker Backlog
a_stuck_worker = record a_worker {
  group = record {
    entries = some_entries ++ (record { id = 3; fields = none } ∷ []);
    delivered = true;
  };
}

drains_or_stalls_example :
    ((m : ℕ) × IsDrained backlog_group parse_panic page_panic 4 a_stuck_worker m)
    ⊎ ((m : ℕ) × IsStalled backlog_group parse_panic page_panic 4 a_stuck_worker m)
drains_or_stalls_example =
    drains_or_stalls backlog_group parse_panic page_panic 4 a_stuck_worker refl (omega arith)
