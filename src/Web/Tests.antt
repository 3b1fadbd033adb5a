-- ===== src/Web/Tests.antt =====
-- The theorems of Web at one browser and one page.
use fleex.Common.{◌≡◌, refl, ◌≢◌, true, false, none, some, [], ◌∷◌, All, ◌⊎◌, arith, List, ◌+◌, map}
use fleex.Common.Results.{err, unauthorized as refused, ok}
use fleex.Identity.Store.{Store, RefreshToken}
use fleex.Identity.Sessions.{refresh, is_live, refresh_found, commit_refresh}
use fleex.Web.LiveSocket.{
  Hook, Reach, ticket, mount, connect, open_socket, on_open, on_close, ticket_answers, opens,
  closes, here, next,
}
use fleex.Web.LiveSocket.Recovery.{IsLive, mount-IsLive, mount_recovers}
use fleex.Web.Session.{
  Storage, Event, unauthorized, refreshed, login, run, on_unauthorized, on_refreshed,
  on_refresh_failed,
}
use fleex.Web.Session.Readiness.{Distinct}
use fleex.Web.Session.Single.{loaded, posts_once}
use fleex.Web.Session.Outcomes.{IsAttended, count, request_of, requests_end}
use fleex.Web.Session.Tabs.{two_tabs_log_out}

-- A page whose socket opened and was lost, and which waits for the first second.
abbrev lost : Hook
lost = on_close (on_open ticket (open_socket ticket (record (mount true) { requesting = false })))

lost-Reach : Reach (mount true) lost
unfolding mount connect open_socket on_open on_close
lost-Reach =
    next (next (next here (ticket_answers ticket refl)) (opens ticket refl)) (closes _ refl)

mount-IsLive_example : IsLive lost
mount-IsLive_example = mount-IsLive true lost lost-Reach

mount_recovers_example : (h' : Hook) × Reach lost h' × (h'.connected ≡ true) × (h'.retry ≡ 0)
unfolding mount connect open_socket on_open on_close
mount_recovers_example = mount_recovers true lost lost-Reach refl

abbrev signed_in : Storage
signed_in = record { access = some 400; refresh = some 500 }

-- Two requests fail, new tokens come, one of the requests fails again, and a login follows.
abbrev a_session : List Event
a_session =
    unauthorized false 1
    ∷ unauthorized false 2
    ∷ refreshed 401 501
    ∷ unauthorized true 1
    ∷ unauthorized false 3
    ∷ login 402 502
    ∷ []

posts_once_example : Distinct (run a_session (loaded signed_in)).posted
posts_once_example = posts_once signed_in a_session (refl, (refl, (refl, tt)))

requests_end_example :
    let c = run a_session (loaded signed_in) in
    (count 1 (map request_of c.outcomes) + count 1 c.tab.waiting ≡ 2) × IsAttended c
requests_end_example = requests_end signed_in a_session 1

abbrev a_token : RefreshToken
a_token = record { user_id = 10; token_hash = 500; revoked_at = none; expires_at = 9000 }

abbrev server : Store
server = record { users = []; tokens = a_token ∷ []; notes = [] }

exchanged : (refresh server 1000 30 501 500).1 ≡ ok 501
unfolding refresh refresh_found commit_refresh
exchanged = refl

two_tabs_log_out_example :
    let one = on_unauthorized false 1 (loaded signed_in) in
    let two = on_unauthorized false 2 (loaded signed_in) in
    let served = refresh server 1000 30 501 500 in
    let again = refresh served.0 2000 30 502 500 in
    let one' = on_refreshed 401 501 one in
    let two' = on_refresh_failed (record two { storage = one'.storage }) in
    (one.posted ≡ 500 ∷ [])
    × (two.posted ≡ 500 ∷ [])
    × (one'.storage.refresh ≡ some 501)
    × (again.1 ≡ err refused)
    × All (λ t. (t.user_id ≢ 10) ⊎ (is_live t.revoked_at ≡ false)) again.0.tokens
    × (two'.storage.refresh ≡ none)
    × (two'.at_login ≡ true)
two_tabs_log_out_example =
    two_tabs_log_out signed_in server 500 401 501 1000 30 2000 30 502 1 2 a_token refl refl
      exchanged (ground arith) (ground arith)
