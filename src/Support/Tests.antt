-- ===== src/Support/Tests.antt =====
-- The theorems of Support at one ticket.
use fleex.Common.{none, some, List, [], ◌∷◌}
use fleex.Access.Roles.{Actor, company_admin}
use fleex.Support.Tickets.{Ticket, Store, opened, bug, normal, resolved}
use fleex.Support.Tickets.Statuses.{Call, creates, updates, replies, removes, to_status}

abbrev boss : Actor
boss = record { id = 2; role = company_admin; company_id = some 3; driver_id = none }

abbrev ticket : Ticket
ticket = record {
  id = 7;
  company_id = 3;
  submitter_id = 2;
  category = bug;
  priority = normal;
  status = opened;
  resolved_at = none;
}

abbrev db : Store
db = record { tickets = ticket ∷ []; replies = [] }

abbrev a_history : List (Actor × Call)
a_history =
    (boss, creates 8 (record { category = none; priority = none }))
    ∷ (boss, replies 7)
    ∷ (boss, updates 50 7 (to_status resolved))
    ∷ (boss, removes 8)
    ∷ []
