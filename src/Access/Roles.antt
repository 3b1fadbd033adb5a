-- ===== src/Access/Roles.antt =====
-- The role ladder: `HIERARCHY` and `canActivate` of services/api/src/auth/roles.guard.ts, `rank`
-- of services/api/src/users/users.service.ts, and the principal of
-- services/api/src/auth/actor-scope.ts.
use fleex.Common.{
  ℕ, ◌≤◌, ◌≡◌, arith, Bool, true, false, Option, none, some, List, [], ◌∷◌, ltb, if◌then◌else◌,
}
use fleex.Common.Results.{Result, ok, err, forbidden, ◌>>◌, throw_if}

pub data Role : Type 0 where
  super_admin company_admin fleet_manager dispatcher driver viewer : Role

-- The principal that the JWT strategy resolves. Ids are opaque numbers.
pub record Actor : Type 0 where
  pub id : ℕ
  pub role : Role
  pub company_id : Option ℕ
  pub driver_id : Option ℕ

abbrev pub is_super_admin : Role → Bool
is_super_admin super_admin = true
is_super_admin _ = false

abbrev pub is_driver : Role → Bool
is_driver driver = true
is_driver _ = false

unfoldable pub rank : Role → ℕ
rank super_admin = 100
rank company_admin = 80
rank fleet_manager = 60
rank dispatcher = 40
rank driver = 20
rank viewer = 10

-- `Math.min` over the levels of the roles that a handler names.
abbrev pub min_rank : Role → List Role → ℕ
min_rank r [] = rank r
min_rank r (s ∷ rs) = let m = min_rank s rs in if ltb (rank r) m then rank r else m

-- `user` is the role of the request's user, if it has one.
abbrev check_role : List Role → Option Role → Result Bool
check_role [] user = ok true
check_role (r ∷ rs) none = err forbidden
check_role (r ∷ rs) (some user) = do throw_if (ltb (rank user) (min_rank r rs)) forbidden; ok true

unfoldable pub can_activate : Bool → List Role → Option Role → Result Bool
can_activate true required user = ok true
can_activate false required user = check_role required user

pub rank_le : (r : Role) → rank r ≤ 100
unfolding rank
rank_le r = ground arith

pub rank_of_super : (r : Role) → is_super_admin r ≡ true → rank r ≡ 100
unfolding rank
rank_of_super r h = ground arith
