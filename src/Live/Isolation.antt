-- ===== src/Live/Isolation.antt =====
-- Who receives what: the tenant and driver rules of Live over every order of its operations.
use fleex.Common.{
  All-filter, ℕ, ◌≡◌, Bool, true, false, not, ◌&&◌, ◌||◌, Option, none, some, List, [], ◌∷◌, map,
  filter, ◌⊎◌, inl, inr, refl, Bool-cases, All, All-append, contains, is_id, is_id→eq,
}
use mathlib.Core.Path.{subst}
use fleex.Access.Roles.{Actor, is_super_admin, is_driver}
use fleex.Live.{
  ClientCtx, Client, Envelope, Delivery, LiveState, Upgrade, JwtPayload, Ticket, ctx_of_ticket,
  ctx_of_payload, create_ws_ticket, get_del, handle_connection, handle_disconnect, handle_subscribe,
  should_deliver, fanout, deliver, driver_sees, passes_filter, has_socket, set_filter, add_client,
  connect_by_token, accept_ticket, pick_token, or_empty, accept_payload,
}

-- A delivery that the rules allow.
unfoldable pub IsPermitted : Delivery → Type 0
IsPermitted d =
    ((is_super_admin d.to.role ≡ true) ⊎ (d.to.company_id ≡ some d.envelope.company_id))
    × ((is_driver d.to.role ≡ false)
        ⊎ ((ids : List ℕ) × (device : ℕ) × (d.to.driver_device_ids ≡ some ids)
            × (d.envelope.device_id ≡ some device)
            × (contains ids device ≡ true)))

-- A driver's context has a list of vehicles.
HasDriverList : Client → Type 0
HasDriverList c =
    is_driver c.ctx.role ≡ true → (ids : List ℕ) × (c.ctx.driver_device_ids ≡ some ids)

IsScoped : LiveState → Type 0
IsScoped s = All HasDriverList s.clients × All IsPermitted s.sent

sees-driver :
    (ids : List ℕ) (o : Option ℕ)
    → driver_sees (some ids) o ≡ true
    → (d : ℕ) × (o ≡ some d) × (contains ids d ≡ true)
sees-driver ids none h = cc
sees-driver ids (some d) h = (d, refl, h)

and_left : (a b : Bool) → (a && b) ≡ true → a ≡ true
and_left true b h = refl
and_left false b h = cc

and_right : (a b : Bool) → (a && b) ≡ true → b ≡ true
and_right true b h = h
and_right false b h = cc

or-cases : (a b : Bool) → (a || b) ≡ true → (a ≡ true) ⊎ (b ≡ true)
or-cases true b h = inl refl
or-cases false b h = inr h

deliver-IsPermitted :
    (e : Envelope) (c : Client)
    → HasDriverList c
    → should_deliver c.ctx e ≡ true
    → IsPermitted (deliver e c)
unfolding should_deliver IsPermitted HasDriverList
deliver-IsPermitted e c listed h =
    let tenant = is_super_admin c.ctx.role || is_id c.ctx.company_id e.company_id in
    let sees = driver_sees c.ctx.driver_device_ids e.device_id in
    let wanted = passes_filter c.ctx.device_filter e.device_id in
    let seen = and_left sees wanted (and_right tenant (sees && wanted) h) in
    (
      elim (or-cases (is_super_admin c.ctx.role) (is_id c.ctx.company_id e.company_id)
          (and_left tenant (sees && wanted) h)) [
            | inl super ↦ inl super
            | inr same ↦ inr (is_id→eq c.ctx.company_id e.company_id same)
          ],
      elim (Bool-cases (is_driver c.ctx.role)) [
        | inr other ↦ inl other
        | inl driver ↦
            let (ids, has) = listed driver in
            let (d, device, within) =
              sees-driver ids e.device_id
                (subst (λ o. driver_sees o e.device_id ≡ true) has seen) in
            inr (ids, d, has, device, within)
      ],
    )

fanout-All :
    (e : Envelope) (cs : List Client)
    → All HasDriverList cs
    → All IsPermitted (map (deliver e) (filter (λ c. should_deliver c.ctx e) cs))
fanout-All e [] h = tt
fanout-All e (c ∷ cs) (h, hs) = elim (Bool-cases (should_deliver c.ctx e)) [
  | inl t ↦ rw t (deliver-IsPermitted e c h t, fanout-All e cs hs)
  | inr t ↦ rw t (fanout-All e cs hs)
]

set_filter-All :
    (socket : ℕ) (ids : List ℕ) (cs : List Client)
    → All HasDriverList cs
    → All HasDriverList (map (set_filter socket ids) cs)
unfolding HasDriverList
set_filter-All socket ids [] h = tt
set_filter-All socket ids (c ∷ cs) (h, hs) = elim (Bool-cases (has_socket socket c)) [
  | inl t ↦ rw t (h, set_filter-All socket ids cs hs)
  | inr t ↦ rw t (h, set_filter-All socket ids cs hs)
]

add_client-All :
    (socket : ℕ) (ctx : ClientCtx) (cs : List Client)
    → HasDriverList (record { socket = socket; ctx = ctx })
    → All HasDriverList cs
    → All HasDriverList (add_client socket ctx cs)
unfolding HasDriverList
add_client-All socket ctx [] h k = (h, tt)
add_client-All socket ctx (c ∷ cs) h (k, ks) = elim (Bool-cases (has_socket socket c)) [
  | inl t ↦ rw t (h, ks)
  | inr t ↦ rw t (k, add_client-All socket ctx cs h ks)
]

ticket-HasDriverList :
    (socket : ℕ) (t : Ticket) → HasDriverList (record { socket = socket; ctx = ctx_of_ticket t })
unfolding HasDriverList
ticket-HasDriverList socket t driver = rw driver (or_empty t.device_ids, refl)

payload-HasDriverList :
    (socket : ℕ) (p : JwtPayload)
    → HasDriverList (record { socket = socket; ctx = ctx_of_payload p })
unfolding HasDriverList
payload-HasDriverList socket p driver = rw driver ([], refl)

payload-IsScoped :
    (socket : ℕ) (o : Option JwtPayload) (s : LiveState)
    → IsScoped s
    → IsScoped (accept_payload socket o s).0
unfolding IsScoped
payload-IsScoped socket none s h = h
payload-IsScoped socket (some p) s (clients, sent) = (
  add_client-All socket (ctx_of_payload p) s.clients (payload-HasDriverList socket p) clients,
  sent,
)

ticket-IsScoped :
    (socket : ℕ) (o : Option Ticket) (s : LiveState)
    → IsScoped s
    → IsScoped (accept_ticket socket o s).0
unfolding IsScoped
ticket-IsScoped socket none s h = h
ticket-IsScoped socket (some t) s (clients, sent) = (
  add_client-All socket (ctx_of_ticket t) s.clients (ticket-HasDriverList socket t) clients,
  sent,
)

-- A call of the gateway: its arguments, with the time and the new ticket where they matter.
pub data Call : Type 0 where
  mint : ℕ → ℕ → Actor → List ℕ → Call
  connect : ℕ → ℕ → Upgrade → Call
  disconnect : ℕ → Call
  subscribe : ℕ → List ℕ → Call
  publish : Envelope → Call

module _ (verify : ℕ → Option JwtPayload) (allow_query : Bool) where
  unfoldable pub step : Call → LiveState → LiveState
  step (mint now key actor devices) s = create_ws_ticket now key actor devices s
  step (connect now socket u) s = (handle_connection verify allow_query now socket u s).0
  step (disconnect socket) s = handle_disconnect socket s
  step (subscribe socket ids) s = handle_subscribe socket ids s
  step (publish e) s = fanout e s

  unfoldable pub run : List Call → LiveState → LiveState
  unfolding step
  run [] s = s
  run (c ∷ cs) s = run cs (step c s)

  token-IsScoped :
      (socket : ℕ) (o : Option ℕ) (s : LiveState)
      → IsScoped s
      → IsScoped (connect_by_token verify allow_query socket o s).0
  token-IsScoped socket none s h = h
  token-IsScoped socket (some token) s h = payload-IsScoped socket (verify token) s h

  connect-IsScoped :
      (now socket : ℕ) (ticket bearer query : Option ℕ) (s : LiveState)
      → IsScoped s
      → IsScoped
          (handle_connection verify allow_query now socket
            (record { ticket = ticket; bearer = bearer; query_token = query })
            s).0
  unfolding handle_connection IsScoped
  connect-IsScoped now socket none bearer query s h =
      let u : Upgrade = record { ticket = none; bearer = bearer; query_token = query } in
      token-IsScoped socket (pick_token allow_query u) s h
  connect-IsScoped now socket (some key) bearer query s h =
      let got = get_del now key s.tickets in
      ticket-IsScoped socket got.0 (record s { tickets = got.1 }) h

  step-IsScoped : (c : Call) (s : LiveState) → IsScoped s → IsScoped (step c s)
  unfolding step IsScoped create_ws_ticket handle_disconnect handle_subscribe fanout
  step-IsScoped (mint now key actor devices) s h = h
  step-IsScoped (connect now socket u) s h =
      connect-IsScoped now socket u.ticket u.bearer u.query_token s h
  step-IsScoped (disconnect socket) s (clients, sent) =
      (All-filter HasDriverList (λ c. not (has_socket socket c)) s.clients clients, sent)
  step-IsScoped (subscribe socket ids) s (clients, sent) =
      (set_filter-All socket ids s.clients clients, sent)
  step-IsScoped (publish e) s (clients, sent) = (
    clients,
    All-append IsPermitted (map (deliver e) (filter (λ c. should_deliver c.ctx e) s.clients)) s.sent
        (fanout-All e s.clients clients) sent,
  )

  run-IsScoped : (cs : List Call) (s : LiveState) → IsScoped s → IsScoped (run cs s)
  unfolding run
  run-IsScoped [] s h = h
  run-IsScoped (c ∷ cs) s h = run-IsScoped cs (step c s) (step-IsScoped c s h)

  -- In every order of ticket requests, connections, subscriptions, disconnections and
  -- publications, from an empty gateway, each envelope that was sent went to a super admin or to a
  -- client of the envelope's company, and to a driver only when it names a vehicle of the driver's
  -- list.
  pub run-All-IsPermitted :
      (cs : List Call)
      → All IsPermitted (run cs (record { tickets = []; clients = []; sent = [] })).sent
  unfolding IsScoped
  run-All-IsPermitted cs =
      (run-IsScoped cs (record { tickets = []; clients = []; sent = [] }) (tt, tt)).1
