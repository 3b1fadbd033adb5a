-- ===== src/Identity/Store.antt =====
-- The rows of users and refresh tokens (services/api/prisma/schema.prisma), the newest first. Ids
-- and hashes are opaque numbers; names, phones, IP addresses and user agents are left out.
use Prim.Native.String.{String}
use text.Mathlib.Text.{◌==◌ as str_eq}
use fleex.Common.{ℕ, Option, List, ◌∷◌, ◌==◌, find?}
use fleex.Access.Roles.{Role}

pub data UserStatus : Type 0 where
  active disabled locked : UserStatus

pub record User : Type 0 where
  pub id : ℕ
  pub company_id : Option ℕ
  pub driver_id : Option ℕ
  pub email : String
  pub password_hash : ℕ
  pub role : Role
  pub status : UserStatus
  pub last_login_at : Option ℕ
  pub failed_logins : ℕ
  pub locked_until : Option ℕ

pub record RefreshToken : Type 0 where
  pub user_id : ℕ
  pub token_hash : ℕ
  pub revoked_at : Option ℕ
  pub expires_at : ℕ

-- What the audit log is told of a login or a refresh.
pub data Note : Type 0 where
  unknown_user inactive_user locked_user wrong_password logged_in refresh_reuse logged_out : Note

pub record Store : Type 0 where
  pub users : List User
  pub tokens : List RefreshToken
  pub notes : List Note

abbrev pub find_email : String → List User → Option User
find_email email = find? (λ u. str_eq u.email email)

abbrev pub find_user : ℕ → List User → Option User
find_user id = find? (λ u. u.id == id)

-- `tokenHash` is unique.
abbrev pub find_token : ℕ → List RefreshToken → Option RefreshToken
find_token hash = find? (λ t. t.token_hash == hash)

abbrev pub note : Note → Store → Store
note n db = record db { notes = n ∷ db.notes }
