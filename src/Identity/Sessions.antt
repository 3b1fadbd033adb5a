-- ===== src/Identity/Sessions.antt =====
-- Refresh tokens: `issueTokens`, `refresh` and `logout` of services/api/src/auth/auth.service.ts.
-- The time, the hash of the random token that is made and the lifetime in days are arguments; the
-- access token is left out. `refresh` reads the row first and writes later, so that other requests
-- may come between.
pub mod Rotation
use fleex.Common.{
  ℕ, ◌+◌, ◌*◌, Bool, true, false, Option, none, some, List, [], ◌∷◌, ◌==◌, ◌&&◌, ltb, if◌then◌else◌,
  filter, length, update_many, update_first,
}
use fleex.Common.Dates.{day_ms}
use fleex.Common.Results.{Result, ok, err, unauthorized}
use fleex.Identity.Store.{RefreshToken, Note, refresh_reuse, logged_out, Store, find_token, note}

unfoldable pub issue_token : Store → ℕ → ℕ → ℕ → ℕ → Store
issue_token db now days user hash = record db {
  tokens =
      record {
        user_id = user;
        token_hash = hash;
        revoked_at = none;
        expires_at = now + days * day_ms;
      }
      ∷ db.tokens;
}

abbrev pub is_live : Option ℕ → Bool
is_live none = true
is_live (some t) = false

abbrev pub revoke : ℕ → RefreshToken → RefreshToken
revoke now t = record t { revoked_at = some now }

-- `updateMany({ where: { userId, revokedAt: null }, data: { revokedAt: now } })`
unfoldable pub revoke_family : ℕ → ℕ → List RefreshToken → List RefreshToken
revoke_family now user = update_many (λ t. t.user_id == user && is_live t.revoked_at) (revoke now)

-- `updateMany({ where: { id, revokedAt: null } })` at one row, and its count.
abbrev pub rotates : ℕ → RefreshToken → Bool
rotates hash t = t.token_hash == hash && is_live t.revoked_at

-- The part of `refresh` after the row was read as `stored`.
unfoldable pub commit_refresh : Store → ℕ → ℕ → ℕ → RefreshToken → Store × Result ℕ
unfolding revoke_family issue_token
commit_refresh db now days fresh stored =
    if ltb stored.expires_at now
    then (db, err unauthorized)
    else if is_live stored.revoked_at
    then (if length (filter (rotates stored.token_hash) db.tokens) == 1
        then (
          issue_token
              (record db {
                tokens = update_many (rotates stored.token_hash) (revoke now) db.tokens;
              })
              now days stored.user_id fresh,
          ok fresh,
        )
        else (
          record db { tokens = update_many (rotates stored.token_hash) (revoke now) db.tokens },
          err unauthorized,
        ))
    else (
      note refresh_reuse (record db { tokens = revoke_family now stored.user_id db.tokens }),
      err unauthorized,
    )

unfoldable pub refresh_found : Store → ℕ → ℕ → ℕ → Option RefreshToken → Store × Result ℕ
refresh_found db now days fresh none = (db, err unauthorized)
refresh_found db now days fresh (some stored) = commit_refresh db now days fresh stored

unfoldable pub refresh : Store → ℕ → ℕ → ℕ → ℕ → Store × Result ℕ
unfolding refresh_found
refresh db now days fresh hash = refresh_found db now days fresh (find_token hash db.tokens)

-- A logout of an unknown token is not an error. `user` is the id of the request's user.
unfoldable pub logout : Store → ℕ → ℕ → Option ℕ → Store
logout db now hash none = record db {
  tokens = update_first (λ t. t.token_hash == hash) (revoke now) db.tokens;
}
logout db now hash (some user) =
    note logged_out
      (record db { tokens = update_first (λ t. t.token_hash == hash) (revoke now) db.tokens })
