-- ===== src/Web/Session/Tabs.antt =====
-- Two tabs of one browser against services/api/src/auth/auth.service.ts: each has a `refreshing`
-- of its own, but they share the stored tokens.
use fleex.Common.{ℕ, ◌≤◌, ◌≡◌, refl, ◌≢◌, true, false, none, some, [], ◌∷◌, All, ◌⊎◌}
use fleex.Common.Results.{ok, err, unauthorized as refused}
use fleex.Identity.Store.{Store, RefreshToken, find_token}
use fleex.Identity.Sessions.{refresh, is_live}
use fleex.Identity.Sessions.Rotation.{refresh_single_use}
use fleex.Web.Session.{
  Storage, on_unauthorized, on_refreshed, on_refresh_failed, set_tokens, clear_tokens,
}
use fleex.Web.Session.Single.{loaded}

-- When requests of two tabs are answered with 401 before either tab has new tokens, both post the
-- same token. If the server exchanges it for one, for a token with another hash, and the other
-- post comes before the old token expires, that one is refused, and its tab clears the tokens that
-- the first has stored and goes to the login page; and no refresh token of the user is live any
-- more.
pub two_tabs_log_out :
    (s : Storage) (db : Store) (hash access fresh now days later days' fresh' q q' : ℕ)
    (stored : RefreshToken)
    → s.refresh ≡ some hash
    → find_token hash db.tokens ≡ some stored
    → (refresh db now days fresh hash).1 ≡ ok fresh
    → fresh ≢ hash
    → later ≤ stored.expires_at
    → let one = on_unauthorized false q (loaded s) in
      let two = on_unauthorized false q' (loaded s) in
      let served = refresh db now days fresh hash in
      let again = refresh served.0 later days' fresh' hash in
      let one' = on_refreshed access fresh one in
      let two' = on_refresh_failed (record two { storage = one'.storage }) in
      (one.posted ≡ hash ∷ [])
      × (two.posted ≡ hash ∷ [])
      × (one'.storage.refresh ≡ some fresh)
      × (again.1 ≡ err refused)
      × All (λ t. (t.user_id ≢ stored.user_id) ⊎ (is_live t.revoked_at ≡ false)) again.0.tokens
      × (two'.storage.refresh ≡ none)
      × (two'.at_login ≡ true)
unfolding on_unauthorized on_refreshed on_refresh_failed set_tokens clear_tokens
two_tabs_log_out s db hash access fresh now days later days' fresh' q q' stored e found h other t =
    let (refusal, dead) =
      refresh_single_use db hash now days fresh later days' fresh' stored found h other t in
    (rw e refl, rw e refl, rw e refl, refusal, dead, rw e refl, rw e refl)
