-- ===== src/Live/Tickets.antt =====
-- The tickets of Live: what a ticket carries to the connection, how often and how long it is good.
use fleex.Common.{
  ℕ, ◌+◌, ◌<◌, ◌≡◌, Bool, true, not, ◌&&◌, Option, none, some, List, [], ◌∷◌, filter, find?, upsert,
  ltb, inl, inr, refl, ap, if◌then◌else◌, Bool-cases, arith,
}
use fleex.Access.Roles.{Actor, is_driver}
use fleex.Live.{
  ClientCtx, LiveState, Upgrade, JwtPayload, Ticket, hello, invalid_ticket, ctx_of_ticket,
  ticket_of, has_key, create_ws_ticket, get_del, handle_connection, ticket_ms, add_client,
}

find?-deleted :
    (now key : ℕ) (ts : List Ticket)
    → find? (λ t. has_key key t && ltb now t.expires_at) (filter (λ t. not (has_key key t)) ts)
      ≡ none
find?-deleted now key [] = refl
find?-deleted now key (t ∷ ts) = elim (Bool-cases (has_key key t)) [
  | inl e ↦ rw e (find?-deleted now key ts)
  | inr e ↦ rw e (rw e (find?-deleted now key ts))
]

find?-minted :
    (now key : ℕ) (new : Ticket) (ts : List Ticket)
    → has_key key new ≡ true
    → ltb now new.expires_at ≡ true
    → find? (λ t. has_key key t && ltb now t.expires_at) (upsert (has_key key) (λ t. new) new ts)
      ≡ some new
find?-minted now key new [] e l = rw e (rw l refl)
find?-minted now key new (t ∷ ts) e l = elim (Bool-cases (has_key key t)) [
  | inl k ↦ rw k (rw e (rw l refl))
  | inr k ↦ rw k (rw k (find?-minted now key new ts e l))
]

-- The context that a principal's ticket opens: the principal's own, and a driver's vehicles.
abbrev pub own_ctx : Actor → List ℕ → ClientCtx
own_ctx actor devices = record {
  user_id = actor.id;
  role = actor.role;
  company_id = actor.company_id;
  device_filter = [];
  driver_device_ids = if is_driver actor.role then some devices else none;
}

ticket_of-own_ctx :
    (now key : ℕ) (actor : Actor) (devices : List ℕ)
    → ctx_of_ticket (ticket_of now key actor devices) ≡ own_ctx actor devices
ticket_of-own_ctx now key actor devices = elim (Bool-cases (is_driver actor.role)) [
  | inl e ↦ rw e refl
  | inr e ↦ rw e refl
]

module _ (verify : ℕ → Option JwtPayload) (allow_query : Bool) where
  abbrev pub by_ticket : ℕ → Upgrade
  by_ticket key = record { ticket = some key; bearer = none; query_token = none }

  -- A ticket that a caller gets opens, within 30 seconds, a connection with the caller's own
  -- identity: user, role, company and, for a driver, the vehicles found when it was made. Any
  -- later connection with that ticket is refused.
  pub ticket_is_good_once :
      (now later last key socket other : ℕ) (actor : Actor) (devices : List ℕ) (s : LiveState)
      → later < now + ticket_ms
      → (let first =
            handle_connection verify allow_query later socket
              (by_ticket key)
              (create_ws_ticket now key actor devices s) in
          (first.1 ≡ hello actor.id)
          × (first.0.clients ≡ add_client socket (own_ctx actor devices) s.clients)
          × ((handle_connection verify allow_query last other (by_ticket key) first.0).1
              ≡ invalid_ticket))
  unfolding handle_connection get_del create_ws_ticket
  ticket_is_good_once now later last key socket other actor devices s h =
      let new = ticket_of now key actor devices in
      let kept = upsert (has_key key) (λ t. new) new s.tickets in
      let mine : has_key key new ≡ true = ground arith in
      let good : ltb later new.expires_at ≡ true = ground arith in
      rw (find?-minted later key new s.tickets mine good) (
        refl,
        ap (λ ctx. add_client socket ctx s.clients) (ticket_of-own_ctx now key actor devices),
        rw (find?-deleted last key kept) refl,
      )
