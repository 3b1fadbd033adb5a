-- ===== src/Live/Tests.antt =====
-- The theorems of Live at a driver's ticket and a tampered subscription.
use fleex.Common.{ℕ, ◌≡◌, false, Option, none, some, List, [], ◌∷◌, All, arith}
use fleex.Access.Roles.{Actor, driver}
use fleex.Live.{
  LiveState, JwtPayload, create_ws_ticket, handle_connection, hello, invalid_ticket, add_client,
  Handshake,
}
use fleex.Live.Tickets.{own_ctx, by_ticket, ticket_is_good_once}
use fleex.Live.Isolation.{
  Call, mint, connect, subscribe, publish, run, IsPermitted, run-All-IsPermitted,
}

abbrev a_driver : Actor
a_driver = record { id = 7; role = driver; company_id = some 3; driver_id = some 12 }

abbrev nobody : ℕ → Option JwtPayload
nobody token = none

abbrev empty : LiveState
empty = record { tickets = []; clients = []; sent = [] }

abbrev first_connection : LiveState × Handshake
first_connection =
    handle_connection nobody false 2000 1 (by_ticket nobody false 55)
      (create_ws_ticket 1000 55 a_driver (21 ∷ []) empty)

ticket_is_good_once_example :
    (first_connection.1 ≡ hello 7)
    × (first_connection.0.clients ≡ add_client 1 (own_ctx a_driver (21 ∷ [])) [])
    × ((handle_connection nobody false 3000 2 (by_ticket nobody false 55) first_connection.0).1
        ≡ invalid_ticket)
ticket_is_good_once_example =
    ticket_is_good_once nobody false 1000 2000 3000 55 1 2 a_driver (21 ∷ []) empty (ground arith)

abbrev some_calls : List Call
some_calls =
    mint 1000 55 a_driver (21 ∷ [])
    ∷ connect 2000 1 (by_ticket nobody false 55)
    ∷ subscribe 1 (22 ∷ [])
    ∷ publish (record { company_id = 3; device_id = some 21 })
    ∷ publish (record { company_id = 3; device_id = some 22 })
    ∷ []

run-All-IsPermitted_example : All IsPermitted (run nobody false some_calls empty).sent
run-All-IsPermitted_example = run-All-IsPermitted nobody false some_calls
