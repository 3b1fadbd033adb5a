-- ===== src/Access/Ownership.antt =====
-- The guard of a tenant that the services repeat on a row of a company:
-- `actor.role !== 'SUPER_ADMIN' && row.companyId !== actor.companyId`, and the company that a
-- service creates a row for.
use fleex.Common.{ℕ, Bool, true, false, not, ◌&&◌, Option, none, some, is_id}
use fleex.Common.Results.{Result, forbidden, internal, ◌>>◌, throw_if, or_throw}
use fleex.Access.Roles.{Actor, is_super_admin}

abbrev pub is_foreign : Actor → ℕ → Bool
is_foreign actor company = not (is_super_admin actor.role) && not (is_id actor.company_id company)

abbrev pub has_company : Option ℕ → Bool
has_company none = false
has_company (some c) = true

-- `actor.companyId!` after its check: for a super admin without a company the row is refused by
-- the database.
abbrev pub company_of : Actor → Result ℕ
company_of actor =
    throw_if (not (has_company actor.company_id) && not (is_super_admin actor.role)) forbidden
    >> or_throw actor.company_id internal
