-- ===== src/Identity/Sessions/Rotation.antt =====
-- The rotation of refresh tokens of Identity/Sessions: a second use, and two requests at once.
use fleex.Common.{
  ◌⊎◌, Bool-cases, inl, inr, ℕ, ◌+◌, ◌*◌, ◌≤◌, ◌≡◌, ◌≢◌, refl, ap, ◌∙◌, true, false, none, some,
  List, [], ◌∷◌, ◌==◌, ◌&&◌, arith, length, filter, All, ltb, if◌then◌else◌, update_many,
  find?-update_many, update_many-none, length-filter-update_many, find?-eq-some, ==_iff,
}
use fleex.Common.Dates.{day_ms}
use fleex.Common.Results.{ok, err, unauthorized}
use fleex.Identity.Store.{User, disabled, RefreshToken, Store, find_token, find_user}
use fleex.Identity.Sessions.{is_live, revoke, revoke_family, rotates, commit_refresh, refresh}

pub revoke_family-All :
    (now user : ℕ) (tokens : List RefreshToken)
    → All (λ t. (t.user_id ≢ user) ⊎ (is_live t.revoked_at ≡ false)) (revoke_family now user tokens)
unfolding revoke_family
revoke_family-All now user [] = tt
revoke_family-All now user (t ∷ tokens) = (one t, revoke_family-All now user tokens)
  where
    one :
        (t : RefreshToken)
        → let t' = if t.user_id == user && is_live t.revoked_at then revoke now t else t in
          (t'.user_id ≢ user) ⊎ (is_live t'.revoked_at ≡ false)
    one t = elim (Bool-cases (t.user_id == user)) [
      | inl mine ↦ inr (ground (arith, mine))
      | inr other ↦ inl (ground (arith, other))
    ]

-- The rows after a rotation that succeeded.
abbrev rotated : List RefreshToken → ℕ → ℕ → RefreshToken → ℕ → List RefreshToken
rotated tokens now days stored fresh =
    record {
      user_id = stored.user_id;
      token_hash = fresh;
      revoked_at = none;
      expires_at = now + days * day_ms;
    }
    ∷ update_many (rotates stored.token_hash) (revoke now) tokens

commit_refresh-ok :
    (db : Store) (now days fresh : ℕ) (stored : RefreshToken)
    → (commit_refresh db now days fresh stored).1 ≡ ok fresh
    → ((commit_refresh db now days fresh stored).0.tokens ≡ rotated db.tokens now days stored fresh)
      × (ltb stored.expires_at now ≡ false)
      × (is_live stored.revoked_at ≡ true)
unfolding commit_refresh
commit_refresh-ok db now days fresh stored h = ground arith

find_token-revoked :
    (hash now days fresh : ℕ) (tokens : List RefreshToken) (stored : RefreshToken)
    → find_token hash tokens ≡ some stored
    → is_live stored.revoked_at ≡ true
    → fresh ≢ hash
    → find_token hash (rotated tokens now days stored fresh) ≡ some (revoke now stored)
find_token-revoked hash now days fresh tokens stored found live other =
    let same =
      (==_iff stored.token_hash hash).0
        (find?-eq-some (λ t. t.token_hash == hash) tokens stored found) in
    let later =
      find?-update_many (λ (t : RefreshToken). t.token_hash == hash) (rotates stored.token_hash)
        (revoke now) tokens stored (λ x. refl) found in
    let self = (==_iff stored.token_hash stored.token_hash).1 refl in ground (arith, later, self)

refused_reuse :
    (db : Store) (now days fresh : ℕ) (stored : RefreshToken)
    → is_live stored.revoked_at ≡ false
    → ltb stored.expires_at now ≡ false
    → let r = commit_refresh db now days fresh stored in
      (r.1 ≡ err unauthorized)
      × All (λ t. (t.user_id ≢ stored.user_id) ⊎ (is_live t.revoked_at ≡ false)) r.0.tokens
unfolding commit_refresh
refused_reuse db now days fresh stored dead in_time =
    rw in_time (rw dead (refl, revoke_family-All now stored.user_id db.tokens))

refresh_of_found :
    (db : Store) (hash now days fresh : ℕ) (stored : RefreshToken)
    → find_token hash db.tokens ≡ some stored
    → refresh db now days fresh hash ≡ commit_refresh db now days fresh stored
unfolding refresh
refresh_of_found db hash now days fresh stored found = rw found

commit_refresh-lost :
    (db : Store) (now days fresh : ℕ) (stored : RefreshToken)
    → is_live stored.revoked_at ≡ true
    → length (filter (rotates stored.token_hash) db.tokens) ≡ 0
    → ((commit_refresh db now days fresh stored).1 ≡ err unauthorized)
      × ((commit_refresh db now days fresh stored).0.tokens ≡ db.tokens)
unfolding commit_refresh
commit_refresh-lost db now days fresh stored live gone =
    let same = update_many-none (rotates stored.token_hash) (revoke now) db.tokens gone in
    rw live (rw gone (ground (arith, same), ground (arith, same)))

rotated_gone :
    (tokens : List RefreshToken) (now days fresh : ℕ) (stored : RefreshToken)
    → fresh ≢ stored.token_hash
    → length (filter (rotates stored.token_hash) (rotated tokens now days stored fresh)) ≡ 0
rotated_gone tokens now days fresh stored other =
    let rest =
      length-filter-update_many (rotates stored.token_hash) (revoke now) tokens
        (λ x. ground arith) in
    ground (arith, rest)

-- A refresh token is good for one exchange. Once it has been exchanged for a new token, presenting
-- it again before it expires is refused, and leaves no live token of its user: the new one is
-- revoked too.
pub refresh_single_use :
    (db : Store) (hash now days fresh later days' fresh' : ℕ) (stored : RefreshToken)
    → find_token hash db.tokens ≡ some stored
    → (refresh db now days fresh hash).1 ≡ ok fresh
    → fresh ≢ hash
    → later ≤ stored.expires_at
    → let r = refresh (refresh db now days fresh hash).0 later days' fresh' hash in
      (r.1 ≡ err unauthorized)
      × All (λ t. (t.user_id ≢ stored.user_id) ⊎ (is_live t.revoked_at ≡ false)) r.0.tokens
refresh_single_use db hash now days fresh later days' fresh' stored found h other in_time =
    let e = refresh_of_found db hash now days fresh stored found in
    let (tokens, _, live) = commit_refresh-ok db now days fresh stored (rw e at h) in
    let revoked = find_token-revoked hash now days fresh db.tokens stored found live other in
    let again =
      refresh_of_found (commit_refresh db now days fresh stored).0 hash later days' fresh'
        (revoke now stored) (ap (find_token hash) tokens ∙ revoked) in
    rw e (
      rw again (
        refused_reuse (commit_refresh db now days fresh stored).0 later days' fresh'
          (revoke now stored) refl (ground arith)))

-- Two requests that read the same live row: when the first has rotated it, the second is refused
-- and changes no token, so that a double submit does not end the user's sessions.
refresh_race :
    (db : Store) (now days fresh later days' fresh' : ℕ) (stored : RefreshToken)
    → (commit_refresh db now days fresh stored).1 ≡ ok fresh
    → fresh ≢ stored.token_hash
    → let db' = (commit_refresh db now days fresh stored).0 in
      let r = commit_refresh db' later days' fresh' stored in
      (r.1 ≡ err unauthorized) × (r.0.tokens ≡ db'.tokens)
refresh_race db now days fresh later days' fresh' stored h other =
    let (tokens, _, live) = commit_refresh-ok db now days fresh stored h in
    commit_refresh-lost (commit_refresh db now days fresh stored).0 later days' fresh' stored live (
      ap (λ ts. length (filter (rotates stored.token_hash) ts)) tokens
      ∙ rotated_gone db.tokens now days fresh stored other)

-- The row of a live token: it is the only one with its hash.
abbrev pub IsCurrent : Store → ℕ → RefreshToken → Type 0
IsCurrent db hash stored =
    (find_token hash db.tokens ≡ some stored)
    × (is_live stored.revoked_at ≡ true)
    × (length (filter (rotates stored.token_hash) db.tokens) ≡ 1)

-- A live token that has not expired is exchanged also when its user has been disabled: the new
-- token is live, for the same user and the full number of days.
refresh_of_disabled :
    (db : Store) (hash now days fresh : ℕ) (stored : RefreshToken) (u : User)
    → IsCurrent db hash stored
    → now ≤ stored.expires_at
    → find_user stored.user_id db.users ≡ some u
    → u.status ≡ disabled
    → ((refresh db now days fresh hash).1 ≡ ok fresh)
      × (find_token fresh (refresh db now days fresh hash).0.tokens
          ≡ some (record {
            user_id = u.id;
            token_hash = fresh;
            revoked_at = none;
            expires_at = now + days * day_ms;
          }))
unfolding commit_refresh
refresh_of_disabled db hash now days fresh stored u (found, live, one) in_time owner off =
    let e = refresh_of_found db hash now days fresh stored found in
    let user =
      (==_iff u.id stored.user_id).0
        (find?-eq-some (λ v. v.id == stored.user_id) db.users u owner) in
    let count = (==_iff (length (filter (rotates stored.token_hash) db.tokens)) 1).1 one in
    let in_time' : ltb stored.expires_at now ≡ false = ground arith in
    rw e (rw in_time' (rw live (rw count (refl, ground (arith, user)))))
