-- ===== src/Identity/Users.antt =====
-- The operations of services/api/src/users/users.service.ts on users and their sessions. The hash
-- that argon2 makes of a password is an argument, and so is whether the current password fits.
-- Names and phones are left out: an edit of those alone changes no field of the model.
pub mod Ladder
pub mod History
pub mod Passwords
use Prim.Native.String.{String}
use fleex.Common.{
  ℕ, Bool, true, false, not, ◌&&◌, ◌||◌, Option, none, some, List, [], ◌∷◌, ◌==◌, ltb, leb, any,
  filter, update_first, same_id, is_id, if◌then◌else◌, or_old,
}
use fleex.Common.Results.{
  Result, ok, err, forbidden, bad_request, not_found, ◌>>=◌, ◌>>◌, throw_if, or_throw, internal,
}
use fleex.Access.Roles.{Role, Actor, is_super_admin, rank}
use fleex.Identity.Store.{User, UserStatus, active, RefreshToken, Store, find_user, find_email}
use fleex.Identity.Sessions.{revoke_family}

-- `ensureSameTenant`
abbrev pub ensure_same_tenant : Actor → Option ℕ → Result (Unit {0})
ensure_same_tenant actor company =
    throw_if (not (is_super_admin actor.role) && not (same_id actor.company_id company)) forbidden

pub record NewUser : Type 0 where
  pub email : String
  pub role : Role
  pub company_id : Option ℕ

abbrev pub new_user : Actor → ℕ → ℕ → NewUser → User
new_user actor id hash dto = record {
  id = id;
  company_id = if is_super_admin actor.role then dto.company_id else actor.company_id;
  driver_id = none;
  email = dto.email;
  password_hash = hash;
  role = dto.role;
  status = active;
  last_login_at = none;
  failed_logins = 0;
  locked_until = none;
}

abbrev is_found : Option User → Bool
is_found none = false
is_found (some u) = true

-- The addresses of mail are unique: the database refuses one that is in use.
unfoldable pub create_user : Store → Actor → ℕ → ℕ → NewUser → Result Store
create_user db actor id hash dto = do
  throw_if (ltb (rank actor.role) (rank dto.role)) forbidden
  throw_if (is_found (find_email dto.email db.users)) internal
  ok (record db { users = new_user actor id hash dto ∷ db.users })

-- `driver_id` is left alone, cleared or set.
pub record UserPatch : Type 0 where
  pub role : Option Role
  pub status : Option UserStatus
  pub driver_id : Option (Option ℕ)

abbrev pub patched : UserPatch → User → User
patched dto u = record u {
  role = or_old dto.role u.role;
  status = or_old dto.status u.status;
  driver_id = or_old dto.driver_id u.driver_id;
}

-- `drivers` holds the id and the company of each driver.
abbrev pub driver_ok : List (ℕ × ℕ) → Actor → User → Option (Option ℕ) → Bool
driver_ok drivers actor target (some (some d)) =
    any (λ r. r.0 == d && (is_super_admin actor.role || is_id target.company_id r.1)) drivers
driver_ok drivers actor target _ = true

abbrev pub grants_above : Actor → Option Role → Bool
grants_above actor none = false
grants_above actor (some r) = ltb (rank actor.role) (rank r)

abbrev pub is_given {ℓ} : {A : Type ℓ} → Option A → Bool
is_given none = false
is_given (some a) = true

abbrev pub mutates_privilege : UserPatch → Bool
mutates_privilege dto = is_given dto.role || is_given dto.status

abbrev pub out_of_reach : Actor → User → Bool
out_of_reach actor target =
    not (is_super_admin actor.role) && leb (rank actor.role) (rank target.role)

unfoldable pub update_user : Store → List (ℕ × ℕ) → Actor → ℕ → UserPatch → Result Store
update_user db drivers actor id dto = do
  target ← or_throw (find_user id db.users) not_found
  ensure_same_tenant actor target.company_id
  throw_if (not (driver_ok drivers actor target dto.driver_id)) bad_request
  throw_if (grants_above actor dto.role) forbidden
  throw_if (mutates_privilege dto && actor.id == id) forbidden
  throw_if (mutates_privilege dto && out_of_reach actor target) forbidden
  ok (record db { users = update_first (λ u. u.id == id) (patched dto) db.users })

abbrev pub with_password : ℕ → User → User
with_password hash u = record u { password_hash = hash; failed_logins = 0; locked_until = none }

abbrev pub reset_user : ℕ → User → User
reset_user hash u = record u {
  password_hash = hash;
  failed_logins = 0;
  locked_until = none;
  status = active;
}

unfoldable pub reset_password : Store → Actor → ℕ → ℕ → ℕ → Result Store
reset_password db actor now id hash = do
  target ← or_throw (find_user id db.users) not_found
  ensure_same_tenant actor target.company_id
  ok (record db {
    users = update_first (λ u. u.id == id) (reset_user hash) db.users;
    tokens = revoke_family now id db.tokens;
  })

unfoldable pub change_own_password : Store → ℕ → ℕ → Bool → ℕ → Result Store
change_own_password db now id fits hash = do
  target ← or_throw (find_user id db.users) not_found
  throw_if (not fits) bad_request
  ok (record db {
    users = update_first (λ u. u.id == id) (with_password hash) db.users;
    tokens = revoke_family now id db.tokens;
  })

-- The refresh tokens of a deleted user go with the row.
unfoldable pub delete_user : Store → Actor → ℕ → Result Store
delete_user db actor id = do
  target ← or_throw (find_user id db.users) not_found
  ensure_same_tenant actor target.company_id
  ok (record db {
    users = filter (λ u. not (u.id == id)) db.users;
    tokens = filter (λ t. not (t.user_id == id)) db.tokens;
  })
