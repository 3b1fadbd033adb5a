-- ===== src/Live.antt =====
-- The live stream: services/api/src/websocket/live.gateway.ts, and `createWsTicket` of
-- services/api/src/auth/auth.service.ts. The state holds the tickets of the Redis store, the
-- contexts of the open sockets and what was sent on them, newest first. Sockets, tickets and
-- tokens are numbers.
pub mod Tickets
pub mod Isolation
mod Tests
use fleex.Common.{
  ℕ, ◌+◌, ◌*◌, Bool, true, false, not, ◌&&◌, ◌||◌, Option, none, some, List, [], ◌∷◌, ◌++◌, map,
  filter, find?, upsert, ltb, ◌==◌, is_id, contains, if◌then◌else◌,
}
use fleex.Access.Roles.{Role, Actor, is_super_admin, is_driver}

-- What a ticket stores, and when the store drops it.
pub record Ticket : Type 0 where
  pub key : ℕ
  pub expires_at : ℕ
  pub sub : ℕ
  pub role : Role
  pub company_id : Option ℕ
  pub device_ids : Option (List ℕ)

pub record ClientCtx : Type 0 where
  pub user_id : ℕ
  pub role : Role
  pub company_id : Option ℕ
  pub device_filter : List ℕ
  pub driver_device_ids : Option (List ℕ)

pub record Client : Type 0 where
  pub socket : ℕ
  pub ctx : ClientCtx

-- An envelope of `fleex.positions` or `fleex.events`, by what the fanout reads of it.
pub record Envelope : Type 0 where
  pub company_id : ℕ
  pub device_id : Option ℕ

pub record Delivery : Type 0 where
  pub to : ClientCtx
  pub envelope : Envelope

pub record LiveState : Type 0 where
  pub tickets : List Ticket
  pub clients : List Client
  pub sent : List Delivery

abbrev pub ticket_ms : ℕ
ticket_ms = 30 * 1000

abbrev pub has_key : ℕ → Ticket → Bool
has_key key t = t.key == key

abbrev pub has_socket : ℕ → Client → Bool
has_socket socket c = c.socket == socket

-- `createWsTicket` of a caller; `devices` are the vehicles that the query finds for a driver.
abbrev pub ticket_of : ℕ → ℕ → Actor → List ℕ → Ticket
ticket_of now key actor devices = record {
  key = key;
  expires_at = now + ticket_ms;
  sub = actor.id;
  role = actor.role;
  company_id = actor.company_id;
  device_ids = if is_driver actor.role then some devices else none;
}

unfoldable pub create_ws_ticket : ℕ → ℕ → Actor → List ℕ → LiveState → LiveState
create_ws_ticket now key actor devices s = record s {
  tickets =
      upsert (has_key key) (λ t. ticket_of now key actor devices) (ticket_of now key actor devices)
        s.tickets;
}

-- GETDEL: the value, unless it has run out, and the store without it.
unfoldable pub get_del : ℕ → ℕ → List Ticket → Option Ticket × List Ticket
get_del now key ts =
    (find? (λ t. has_key key t && ltb now t.expires_at) ts, filter (λ t. not (has_key key t)) ts)

abbrev pub or_empty : Option (List ℕ) → List ℕ
or_empty (some ids) = ids
or_empty none = []

abbrev pub ctx_of_ticket : Ticket → ClientCtx
ctx_of_ticket t = record {
  user_id = t.sub;
  role = t.role;
  company_id = t.company_id;
  device_filter = [];
  driver_device_ids = if is_driver t.role then some (or_empty t.device_ids) else none;
}

-- `this.clients.set`.
abbrev pub add_client : ℕ → ClientCtx → List Client → List Client
add_client socket ctx cs =
    upsert (has_socket socket) (λ c. record c { ctx = ctx }) (record { socket = socket; ctx = ctx })
      cs

-- What the verified payload of an access token says.
pub record JwtPayload : Type 0 where
  pub sub : ℕ
  pub role : Role
  pub company_id : Option ℕ

abbrev pub ctx_of_payload : JwtPayload → ClientCtx
ctx_of_payload p = record {
  user_id = p.sub;
  role = p.role;
  company_id = p.company_id;
  device_filter = [];
  driver_device_ids = if is_driver p.role then some [] else none;
}

pub record Upgrade : Type 0 where
  pub ticket : Option ℕ
  pub bearer : Option ℕ
  pub query_token : Option ℕ

-- A connection is accepted, or closed with 4001 for one of three reasons.
pub data Handshake : Type 0 where
  hello : ℕ → Handshake
  invalid_ticket no_token invalid_token : Handshake

abbrev pub pick_token : Bool → Upgrade → Option ℕ
pick_token allow_query u = elim u.bearer [
  | some t ↦ some t
  | none ↦ if allow_query then u.query_token else none
]

abbrev pub accept : ℕ → ClientCtx → LiveState → LiveState × Handshake
accept socket ctx s = (record s { clients = add_client socket ctx s.clients }, hello ctx.user_id)

-- What the check of the token gave: an exception closes the connection.
abbrev pub accept_payload : ℕ → Option JwtPayload → LiveState → LiveState × Handshake
accept_payload socket none s = (s, invalid_token)
accept_payload socket (some p) s = accept socket (ctx_of_payload p) s

abbrev pub accept_ticket : ℕ → Option Ticket → LiveState → LiveState × Handshake
accept_ticket socket none s = (s, invalid_ticket)
accept_ticket socket (some t) s = accept socket (ctx_of_ticket t) s

-- `verify` is the JWT library's check of a token, and `allow_query` the setting
-- WS_ALLOW_TOKEN_QUERY.
module _ (verify : ℕ → Option JwtPayload) (allow_query : Bool) where
  abbrev pub connect_by_token : ℕ → Option ℕ → LiveState → LiveState × Handshake
  connect_by_token socket none s = (s, no_token)
  connect_by_token socket (some token) s = accept_payload socket (verify token) s

  abbrev pub connect_by_ticket : ℕ → ℕ → ℕ → LiveState → LiveState × Handshake
  connect_by_ticket now socket key s =
      let got = get_del now key s.tickets in
      accept_ticket socket got.0 (record s { tickets = got.1 })

  unfoldable pub handle_connection : ℕ → ℕ → Upgrade → LiveState → LiveState × Handshake
  unfolding get_del
  handle_connection now socket u s = elim u.ticket [
    | some key ↦ connect_by_ticket now socket key s
    | none ↦ connect_by_token socket (pick_token allow_query u) s
  ]

unfoldable pub handle_disconnect : ℕ → LiveState → LiveState
handle_disconnect socket s = record s {
  clients = filter (λ c. not (has_socket socket c)) s.clients;
}

abbrev pub set_filter : ℕ → List ℕ → Client → Client
set_filter socket ids c =
    if has_socket socket c then record c { ctx = record c.ctx { device_filter = ids } } else c

unfoldable pub handle_subscribe : ℕ → List ℕ → LiveState → LiveState
handle_subscribe socket ids s = record s { clients = map (set_filter socket ids) s.clients }

-- The DRIVER rule: a list of vehicles, once there is one, must name the envelope's.
abbrev pub driver_sees : Option (List ℕ) → Option ℕ → Bool
driver_sees none device = true
driver_sees (some ids) none = false
driver_sees (some ids) (some d) = contains ids d

abbrev pub is_empty : List ℕ → Bool
is_empty [] = true
is_empty (d ∷ ds) = false

abbrev pub passes_filter : List ℕ → Option ℕ → Bool
passes_filter ids none = true
passes_filter ids (some d) = is_empty ids || contains ids d

unfoldable pub should_deliver : ClientCtx → Envelope → Bool
should_deliver ctx e =
    (is_super_admin ctx.role || is_id ctx.company_id e.company_id)
    && (driver_sees ctx.driver_device_ids e.device_id
        && passes_filter ctx.device_filter e.device_id)

abbrev pub deliver : Envelope → Client → Delivery
deliver e c = record { to = c.ctx; envelope = e }

-- The fanout to the open sockets, each of which is sent the envelope if it should be.
unfoldable pub fanout : Envelope → LiveState → LiveState
unfolding should_deliver
fanout e s = record s {
  sent = map (deliver e) (filter (λ c. should_deliver c.ctx e) s.clients) ++ s.sent;
}
