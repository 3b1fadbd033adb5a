-- ===== src/Support/Tickets/Statuses.antt =====
-- Who moves a ticket from one status to another.
use mathlib.Core.List.{Memᴰ}
use fleex.Common.{
  ℕ, ◌≡◌, refl, true, none, some, List, [], ◌∷◌, find?-update_first, All, ◌==◌, ◌⊎◌, update_first,
}
use fleex.Common.Results.{Result, ok, err}
use fleex.Access.Roles.{Actor, is_super_admin}
use fleex.Support.Tickets.{
  Status, opened, resolved, Ticket, Store, find_ticket, TicketDto, TicketPatch, patched, create,
  update, reply, remove,
}

pub data Call : Type 0 where
  creates : ℕ → TicketDto → Call
  updates : (now id : ℕ) → TicketPatch → Call
  replies : ℕ → Call
  removes : ℕ → Call

abbrev pub perform : Store → Actor → Call → Result Store
perform db actor (creates id dto) = create db actor id dto
perform db actor (updates now id dto) = update db actor now id dto
perform db actor (replies id) = reply db actor id
perform db actor (removes id) = remove db actor id

abbrev pub after : Store → Result Store → Store
after db (ok db') = db'
after db (err e) = db

abbrev pub run : Store → List (Actor × Call) → Store
run db [] = db
run db ((actor, call) ∷ cs) = run (after db (perform db actor call)) cs

-- A ticket is a new one, open and never resolved, or it has the status and the time of a ticket
-- with its id that was there at first.
abbrev pub IsUntouched : List Ticket → Ticket → Type 0
IsUntouched first t =
    ((t.status ≡ opened) × (t.resolved_at ≡ none))
    ⊎ ((u : Ticket) × Memᴰ u first
        × (u.id ≡ t.id)
        × (u.status ≡ t.status)
        × (u.resolved_at ≡ t.resolved_at))

module _ (first : List Ticket) where
  abbrev AllUntouched : Store → Type 0
  AllUntouched db = All (IsUntouched first) db.tickets

  Keeps : Result Store → Type 0
  Keeps r = (db' : Store) → r ≡ ok db' → AllUntouched db'

-- The status alone.
abbrev pub to_status : Status → TicketPatch
to_status s = record { status = some s; priority = none; category = none }

-- A ticket that a super admin resolves and opens again is open and keeps the time of the
-- resolution.
reopened_stays_resolved :
    (db : Store) (admin : Actor) (now later id : ℕ) (t : Ticket)
    → is_super_admin admin.role ≡ true
    → find_ticket id db.tickets ≡ some t
    → (db' : Store) × (db'' : Store) × (u : Ticket) × (update db admin now id (to_status resolved)
        ≡ ok db')
      × (update db' admin later id (to_status opened) ≡ ok db'')
      × (find_ticket id db''.tickets ≡ some u)
      × (u.status ≡ opened)
      × (u.resolved_at ≡ some now)
unfolding update
reopened_stays_resolved db admin now later id t super found =
    let resolve = patched now (to_status resolved) in
    let open_again = patched later (to_status opened) in
    let tickets = update_first (λ u. u.id == id) resolve db.tickets in
    let there = find?-update_first (λ u. u.id == id) resolve db.tickets t (λ u k. k) found in
    (
      record db { tickets = tickets },
      record db { tickets = update_first (λ u. u.id == id) open_again tickets },
      open_again (resolve t),
      rw found (rw super refl),
      rw there (rw super refl),
      find?-update_first (λ u. u.id == id) open_again tickets (resolve t) (λ u k. k) there,
      refl,
      refl,
    )
