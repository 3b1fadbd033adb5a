-- ===== src/Access/Tenant.antt =====
-- The Prisma middleware that forces the tenant's `companyId`:
-- services/api/src/common/tenant-guard.ts, with the request's store of
-- services/api/src/common/tenant-context.ts.
use Prim.Native.String.{String}
use text.Mathlib.Text.{◌==◌ as str_eq}
use fleex.Common.{ℕ, Bool, false, Option, none, some, List, [], ◌∷◌, any, if◌then◌else◌}
use fleex.Access.Roles.{Role, is_super_admin}
use fleex.Access.Scope.{Where, set_column}

pub record TenantStore : Type 0 where
  pub company_id : Option ℕ
  pub role : Role

-- `args` may be missing, and so may its `where`.
pub record GuardParams : Type 0 where
  pub model : Option String
  pub action : String
  pub where_arg : Option (Option Where)

abbrev pub tenant_models : List String
tenant_models =
    "AuditLog" ∷ "CustomField" ∷ "Device" ∷ "DeviceGroup" ∷ "DeviceHealthRule" ∷ "DeviceImage"
    ∷ "Driver" ∷ "DriverScore" ∷ "Event" ∷ "Garage" ∷ "Geofence" ∷ "NotificationRule" ∷ "Place"
    ∷ "Sensor" ∷ "ServiceTask" ∷ "Shift" ∷ "SupportTicket" ∷ "Trip" ∷ "User" ∷ []

abbrev pub guarded_actions : List String
guarded_actions =
    "findMany" ∷ "findFirst" ∷ "findFirstOrThrow" ∷ "count" ∷ "aggregate" ∷ "groupBy" ∷ "updateMany"
    ∷ "deleteMany" ∷ []

unfoldable pub has_name : List String → String → Bool
has_name names s = any (λ n. str_eq n s) names

unfoldable pub is_tenant_model : Option String → Bool
unfolding has_name
is_tenant_model none = false
is_tenant_model (some m) = has_name tenant_models m

abbrev pub where_or_empty : Option (Option Where) → Where
where_or_empty (some (some w)) = w
where_or_empty _ = []

scope_to : ℕ → GuardParams → GuardParams
scope_to company p = record p {
  where_arg = some (some (set_column "companyId" (some company) (where_or_empty p.where_arg)));
}

guard_company : Option ℕ → GuardParams → GuardParams
unfolding scope_to
guard_company none p = p
guard_company (some company) p =
    if is_tenant_model p.model
    then (if has_name guarded_actions p.action then scope_to company p else p)
    else p

unfoldable pub apply_tenant_guard : GuardParams → Option TenantStore → GuardParams
unfolding guard_company
apply_tenant_guard p none = p
apply_tenant_guard p (some store) =
    if is_super_admin store.role then p else guard_company store.company_id p
