-- ===== src/Support/Tickets.antt =====
-- services/api/src/support-tickets/support-tickets.module.ts. Ids and times are numbers; texts and
-- phones are left out, and so is whether the list is sorted.
pub mod Statuses
use fleex.Access.Ownership.{is_foreign}
use fleex.Common.{
  ℕ, Bool, true, false, not, ◌&&◌, ◌||◌, Option, none, some, List, [], ◌∷◌, filter, find?, length,
  update_first, ◌==◌, is_id, if◌then◌else◌, or_old,
}
use fleex.Common.Results.{
  Result, ok, err, forbidden, bad_request, not_found, ◌>>=◌, ◌>>◌, throw_if, or_throw,
}
use fleex.Access.Roles.{Actor, is_super_admin}

pub data Status : Type 0 where
  opened in_progress resolved closed : Status

pub data Priority : Type 0 where
  low normal high urgent : Priority

pub data Category : Type 0 where
  complaint bug repair_request other : Category

pub record Ticket : Type 0 where
  pub id : ℕ
  pub company_id : ℕ
  pub submitter_id : ℕ
  pub category : Category
  pub priority : Priority
  pub status : Status
  pub resolved_at : Option ℕ

pub record Reply : Type 0 where
  pub ticket_id : ℕ
  pub author_id : ℕ

pub record Store : Type 0 where
  pub tickets : List Ticket
  pub replies : List Reply

abbrev pub find_ticket : ℕ → List Ticket → Option Ticket
find_ticket id = find? (λ t. t.id == id)

abbrev pub is_open : Status → Bool
is_open opened = true
is_open _ = false

abbrev pub is_in_progress : Status → Bool
is_in_progress in_progress = true
is_in_progress _ = false

abbrev pub is_resolved : Option Status → Bool
is_resolved (some resolved) = true
is_resolved _ = false

abbrev pub is_given {ℓ} : {A : Type ℓ} → Option A → Bool
is_given none = false
is_given (some a) = true

unfoldable pub get : Store → Actor → ℕ → Result Ticket
get db actor id = or_throw (find_ticket id db.tickets) not_found >>= λ t.
    throw_if (is_foreign actor t.company_id) forbidden >> ok t

pub record TicketDto : Type 0 where
  pub category : Option Category
  pub priority : Option Priority

unfoldable pub create : Store → Actor → ℕ → TicketDto → Result Store
create db actor id dto = or_throw actor.company_id bad_request >>= λ company. ok (record db {
  tickets =
      record {
        id = id;
        company_id = company;
        submitter_id = actor.id;
        category = or_old dto.category other;
        priority = or_old dto.priority normal;
        status = opened;
        resolved_at = none;
      }
      ∷ db.tickets;
})

pub record TicketPatch : Type 0 where
  pub status : Option Status
  pub priority : Option Priority
  pub category : Option Category

abbrev pub patched : ℕ → TicketPatch → Ticket → Ticket
patched now dto t = record t {
  status = or_old dto.status t.status;
  priority = or_old dto.priority t.priority;
  category = or_old dto.category t.category;
  resolved_at = if is_resolved dto.status then some now else t.resolved_at;
}

unfoldable pub update : Store → Actor → ℕ → ℕ → TicketPatch → Result Store
update db actor now id dto = or_throw (find_ticket id db.tickets) not_found >>= λ t.
    throw_if (is_given dto.status && not (is_super_admin actor.role)) forbidden
    >> throw_if (is_foreign actor t.company_id) forbidden
    >> ok (record db { tickets = update_first (λ u. u.id == id) (patched now dto) db.tickets })

abbrev pub start : Ticket → Ticket
start t = record t { status = in_progress }

-- The first reply of an admin takes the ticket out of OPEN.
unfoldable pub reply : Store → Actor → ℕ → Result Store
reply db actor id = or_throw (find_ticket id db.tickets) not_found >>= λ t.
    throw_if (is_foreign actor t.company_id) forbidden
    >> ok (record {
      tickets =
          if is_super_admin actor.role && is_open t.status
          then update_first (λ u. u.id == id) start db.tickets
          else db.tickets;
      replies = record { ticket_id = id; author_id = actor.id } ∷ db.replies;
    })

-- The database deletes the replies with the ticket.
unfoldable pub remove : Store → Actor → ℕ → Result Store
remove db actor id = or_throw (find_ticket id db.tickets) not_found >>= λ t.
    throw_if (not (is_super_admin actor.role) && not (t.submitter_id == actor.id)) forbidden
    >> ok (record {
      tickets = filter (λ u. not (u.id == id)) db.tickets;
      replies = filter (λ r. not (r.ticket_id == id)) db.replies;
    })

-- The tickets that are open and those in progress, for the badge of the inbox.
unfoldable pub stats : Store → Actor → ℕ × ℕ
stats db actor =
    if is_super_admin actor.role
    then (
      length (filter (λ t. is_open t.status) db.tickets),
      length (filter (λ t. is_in_progress t.status) db.tickets),
    )
    else (0, 0)
