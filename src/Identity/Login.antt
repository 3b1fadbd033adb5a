-- ===== src/Identity/Login.antt =====
-- `login` of services/api/src/auth/auth.service.ts.
pub mod Lockout
use Prim.Native.String.{String}
use text.Mathlib.Text.{◌==◌ as str_eq}
use fleex.Common.{
  ℕ, ◌+◌, ◌*◌, Bool, true, false, Option, none, some, List, ◌==◌, ltb, leb, if◌then◌else◌,
  update_first,
}
use fleex.Common.Results.{Result, ok, err, unauthorized, forbidden}
use fleex.Identity.Store.{
  User, UserStatus, active, Store, Note, unknown_user, inactive_user, locked_user, wrong_password,
  logged_in, find_email, note,
}
use fleex.Identity.Sessions.{issue_token}

abbrev pub fail_threshold : ℕ
fail_threshold = 5

abbrev pub lock_ms : ℕ
lock_ms = 15 * 60_000

abbrev pub is_active : UserStatus → Bool
is_active active = true
is_active _ = false

abbrev pub is_locked : Option ℕ → ℕ → Bool
is_locked none now = false
is_locked (some until) now = ltb now until

-- The increment, and the lock once the count has reached the threshold.
abbrev pub failed : ℕ → User → User
failed now u =
    if leb fail_threshold (u.failed_logins + 1)
    then record u { failed_logins = u.failed_logins + 1; locked_until = some (now + lock_ms) }
    else record u { failed_logins = u.failed_logins + 1 }

abbrev pub succeeded : ℕ → User → User
succeeded now u = record u {
  failed_logins = 0;
  locked_until = none;
  last_login_at = some now;
  status = active;
}

abbrev pub change_user : User → (User → User) → Store → Store
change_user u f db = record db { users = update_first (λ v. v.id == u.id) f db.users }

-- What the request asks for: the time, the password, and for the tokens their lifetime in days and
-- the hash of the refresh token that is made.
pub record Attempt : Type 0 where
  pub now : ℕ
  pub password : String
  pub days : ℕ
  pub fresh : ℕ

-- `verify` is argon2: whether a password fits a stored hash.
module _ (verify : ℕ → String → Bool) where
  unfoldable pub login_user : Store → Attempt → User → Store × Result ℕ
  login_user db a u =
      if is_active u.status
      then (if is_locked u.locked_until a.now
          then (note locked_user db, err forbidden)
          else (if verify u.password_hash a.password
              then (
                note logged_in
                    (issue_token (change_user u (succeeded a.now) db) a.now a.days u.id a.fresh),
                ok a.fresh,
              )
              else (note wrong_password (change_user u (failed a.now) db), err unauthorized)))
      else (note inactive_user db, err forbidden)

  login_found : Store → Attempt → Option User → Store × Result ℕ
  login_found db a none = (note unknown_user db, err unauthorized)
  login_found db a (some u) = login_user db a u

  unfoldable pub login : Store → String → Attempt → Store × Result ℕ
  unfolding login_found
  login db email a = login_found db a (find_email email db.users)
