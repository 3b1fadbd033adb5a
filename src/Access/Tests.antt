-- ===== src/Access/Tests.antt =====
-- The theorems of Access at concrete actors and queries.
use Prim.Native.String.{String}
use text.Mathlib.Text.{◌==◌ as str_eq}
use fleex.Common.{ap, ◌⊎◌, ◌≡◌, ◌≢◌, refl, true, false, some, [], ◌∷◌, arith}
use fleex.Access.Roles.{dispatcher, driver, Actor}
use fleex.Access.Scope.{Where, get_column, set_column, apply_actor_scope, no_driver_match}
use fleex.Access.Tenant.{TenantStore, GuardParams, apply_tenant_guard}
use fleex.Access.Isolation.{needs_scope, apply_tenant_guard_scopes}

abbrev a_driver : Actor
a_driver = record { id = 7; role = driver; company_id = some 3; driver_id = some 12 }

-- A query that asks for another company and for a status.
abbrev a_query : Where
a_query = ("companyId", some 4) ∷ ("status", some 1) ∷ []

abbrev a_store : TenantStore
a_store = record { company_id = some 3; role = dispatcher }

abbrev a_find : GuardParams
a_find = record { model = some "Device"; action = "findMany"; where_arg = some (some a_query) }

asks_own_company : get_column "companyId" (apply_actor_scope a_driver a_query) ≡ some (some 3)
unfolding get_column apply_actor_scope set_column
asks_own_company = refl

abbrev status_key : String
status_key = "status"

status_is_not_company : status_key ≢ "companyId"
status_is_not_company e = let k = ap (λ s. str_eq s "companyId") e in cc

status_is_not_driver : status_key ≢ "driverId"
status_is_not_driver e = let k = ap (λ s. str_eq s "driverId") e in cc

some_driver : some 12 ≢ some no_driver_match
some_driver = ground arith

apply_tenant_guard_scopes_example :
    ((needs_scope a_find a_store ≡ true)
      × ((w : Where) × ((apply_tenant_guard a_find (some a_store)).where_arg ≡ some (some w))
          × (get_column "companyId" w ≡ some (some 3))
          × (get_column status_key w ≡ get_column status_key a_query)))
    ⊎ ((needs_scope a_find a_store ≡ false) × (apply_tenant_guard a_find (some a_store) ≡ a_find))
apply_tenant_guard_scopes_example =
    apply_tenant_guard_scopes a_find a_store 3 status_key refl status_is_not_company
