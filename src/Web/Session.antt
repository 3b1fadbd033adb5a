-- ===== src/Web/Session.antt =====
-- The tokens of a browser: services/web/src/lib/api.ts, with its interceptors, in the tabs of one
-- browser, which share the storage. A token is a number. The requests themselves are left out but
-- for those that a tab holds back while it asks for new tokens.
pub mod Readiness
pub mod Single
pub mod Outcomes
pub mod Tabs
use fleex.Common.{ℕ, Bool, true, false, Option, none, some, List, [], ◌∷◌, ◌++◌, map, if◌then◌else◌}

-- The two keys of `localStorage`.
pub record Storage : Type 0 where
  pub access : Option ℕ
  pub refresh : Option ℕ

unfoldable pub set_tokens : ℕ → ℕ → Storage → Storage
set_tokens a r s = record { access = some a; refresh = some r }

unfoldable pub clear_tokens : Storage → Storage
clear_tokens s = record { access = none; refresh = none }

-- What becomes of a request that was answered with 401: it is given up, or sent again with an
-- access token.
pub data Outcome : Type 0 where
  rejected : ℕ → Outcome
  retried : ℕ → ℕ → Outcome

-- The variables of the module in one tab: the refresh token that `refreshing` has posted, and the
-- requests that await it.
pub record Tab : Type 0 where
  pub refreshing : Option ℕ
  pub waiting : List ℕ

-- A tab with the storage, the refresh tokens that were posted, the last one first, and what became
-- of its requests; `at_login` is whether it was sent to /login.
pub record Client : Type 0 where
  pub storage : Storage
  pub tab : Tab
  pub posted : List ℕ
  pub outcomes : List Outcome
  pub at_login : Bool

abbrev pub reject : ℕ → Client → Client
reject request c = record c { outcomes = rejected request ∷ c.outcomes }

abbrev pub wait : ℕ → Client → Client
wait request c = record c { tab = record c.tab { waiting = c.tab.waiting ++ (request ∷ []) } }

-- The post of the current refresh token, if none is under way.
abbrev pub start_refresh : ℕ → Option ℕ → Client → Client
start_refresh token (some under_way) c = c
start_refresh token none c = record c {
  tab = record c.tab { refreshing = some token };
  posted = token ∷ c.posted;
}

abbrev pub refresh_with : Option ℕ → ℕ → Client → Client
refresh_with none request c = reject request c
refresh_with (some token) request c = wait request (start_refresh token c.tab.refreshing c)

-- The response interceptor at an answer 401, up to its await; `retry` is the request's `_retry`.
unfoldable pub on_unauthorized : Bool → ℕ → Client → Client
on_unauthorized retry request c =
    if retry then reject request c else refresh_with c.storage.refresh request c

-- The post is answered: the tokens are stored, and every request that waits is sent again in one
-- go of the event loop.
abbrev pub resolve : ℕ → ℕ → Option ℕ → Client → Client
resolve a r none c = c
resolve a r (some token) c = record c {
  storage = set_tokens a r c.storage;
  tab = record { refreshing = none; waiting = [] };
  outcomes = map (λ q. retried q a) c.tab.waiting ++ c.outcomes;
}

unfoldable pub on_refreshed : ℕ → ℕ → Client → Client
unfolding set_tokens
on_refreshed a r c = resolve a r c.tab.refreshing c

-- The post fails, by an answer or by the network: every request that waits clears the tokens.
abbrev pub fail : Option ℕ → Client → Client
fail none c = c
fail (some token) c = record c {
  storage = clear_tokens c.storage;
  tab = record { refreshing = none; waiting = [] };
  outcomes = map rejected c.tab.waiting ++ c.outcomes;
  at_login = true;
}

unfoldable pub on_refresh_failed : Client → Client
unfolding clear_tokens
on_refresh_failed c = fail c.tab.refreshing c

-- The login page, and the button that logs out.
unfoldable pub on_login : ℕ → ℕ → Client → Client
unfolding set_tokens
on_login a r c = record c { storage = set_tokens a r c.storage }

unfoldable pub on_logout : Client → Client
unfolding clear_tokens
on_logout c = record c { storage = clear_tokens c.storage }

pub data Event : Type 0 where
  unauthorized : Bool → ℕ → Event
  refreshed : (access refresh : ℕ) → Event
  refresh_failed : Event
  login : (access refresh : ℕ) → Event
  logout : Event

unfoldable pub handle : Event → Client → Client
unfolding on_unauthorized on_refreshed on_refresh_failed on_login on_logout
handle (unauthorized retry request) c = on_unauthorized retry request c
handle (refreshed a r) c = on_refreshed a r c
handle refresh_failed c = on_refresh_failed c
handle (login a r) c = on_login a r c
handle logout c = on_logout c

unfoldable pub run : List Event → Client → Client
unfolding handle
run [] c = c
run (e ∷ es) c = run es (handle e c)
