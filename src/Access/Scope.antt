-- ===== src/Access/Scope.antt =====
-- Row scoping for an actor: services/api/src/auth/actor-scope.ts. A Prisma `where` is its list of
-- columns with the values they must equal; writing a column again replaces its value. The id of a
-- driver is a number, and NO_DRIVER_MATCH is a number that no row has.
use Prim.Native.String.{String}
use text.Mathlib.Text.{◌==◌ as str_eq}
use fleex.Common.{ℕ, Bool, true, false, Option, none, some, List, [], ◌∷◌, if◌then◌else◌, same_id}
use fleex.Access.Roles.{Actor, is_super_admin, is_driver}

abbrev pub Where : Type 0
Where = List (String × Option ℕ)

unfoldable pub get_column : String → Where → Option (Option ℕ)
get_column k [] = none
get_column k ((j, v) ∷ w) = if str_eq j k then some v else get_column k w

unfoldable pub set_column : String → Option ℕ → Where → Where
set_column k v [] = (k, v) ∷ []
set_column k v ((j, u) ∷ w) = if str_eq j k then (k, v) ∷ w else (j, u) ∷ set_column k v w

abbrev pub no_driver_match : ℕ
no_driver_match = 0

abbrev pub or_no_driver : Option ℕ → ℕ
or_no_driver none = no_driver_match
or_no_driver (some d) = d

unfoldable pub driver_scope_id : Actor → ℕ
driver_scope_id actor = or_no_driver actor.driver_id

unfoldable pub apply_actor_scope : Actor → Where → Where
unfolding driver_scope_id
apply_actor_scope actor w =
    if is_super_admin actor.role
    then w
    else (let scoped = set_column "companyId" actor.company_id w in
        if is_driver actor.role
        then set_column "driverId" (some (driver_scope_id actor)) scoped
        else scoped)

abbrev pub links : Option ℕ → Option ℕ → Bool
links none owner = false
links (some d) owner = same_id (some d) owner

unfoldable pub driver_may_access : Actor → Option ℕ → Bool
driver_may_access actor owner = if is_driver actor.role then links actor.driver_id owner else true
