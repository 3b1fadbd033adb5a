-- ===== src/Web/Session/Outcomes.antt =====
-- That a tab forgets no request that was answered with 401.
use fleex.Common.{
  ℕ, ◌+◌, ◌≡◌, refl, Bool, true, false, Option, none, some, List, [], ◌∷◌, ◌++◌, map, ◌==◌,
  if◌then◌else◌, arith,
}
use fleex.Web.Session.{
  Storage, Client, Outcome, rejected, retried, Event, unauthorized, refreshed, refresh_failed,
  login, logout, on_unauthorized, on_refreshed, on_refresh_failed, on_login, on_logout, handle, run,
  start_refresh, refresh_with, resolve, fail,
}
use fleex.Web.Session.Single.{loaded}

-- The requests that were answered with 401.
abbrev pub failures : List Event → List ℕ
failures [] = []
failures (unauthorized retry request ∷ es) = request ∷ failures es
failures (refreshed a r ∷ es) = failures es
failures (refresh_failed ∷ es) = failures es
failures (login a r ∷ es) = failures es
failures (logout ∷ es) = failures es

-- How often a request is in a list.
abbrev pub count : ℕ → List ℕ → ℕ
count q [] = 0
count q (p ∷ ps) = if p == q then count q ps + 1 else count q ps

abbrev pub request_of : Outcome → ℕ
request_of (rejected q) = q
request_of (retried q a) = q

-- How often a request came to its end, or waits.
abbrev pub accounted : ℕ → Client → ℕ
accounted q c = count q (map request_of c.outcomes) + count q c.tab.waiting

-- Nothing waits for a post that is not under way.
abbrev pub IsIdle : Option ℕ → List ℕ → Type 0
IsIdle none waiting = waiting ≡ []
IsIdle (some t) waiting = Unit

abbrev pub IsAttended : Client → Type 0
IsAttended c = IsIdle c.tab.refreshing c.tab.waiting

count-append : (q : ℕ) (xs ys : List ℕ) → count q (xs ++ ys) ≡ count q xs + count q ys
count-append q [] ys = omega arith
count-append q (x ∷ xs) ys = ground (arith, count-append q xs ys)

settled :
    (q : ℕ) (f : ℕ → Outcome) (waiting : List ℕ) (outcomes : List Outcome)
    → ((p : ℕ) → request_of (f p) ≡ p)
    → count q (map request_of (map f waiting ++ outcomes))
      ≡ count q (map request_of outcomes) + count q waiting
settled q f [] outcomes same = omega arith
settled q f (w ∷ waiting) outcomes same = ground (arith, same w, settled q f waiting outcomes same)

module _ (q : ℕ) where
  start_refresh_effect :
      (t : ℕ) (under_way : Option ℕ) (c : Client)
      → c.tab.refreshing ≡ under_way
      → (accounted q (start_refresh t under_way c) ≡ accounted q c)
        × ((ts : List ℕ) → IsIdle (start_refresh t under_way c).tab.refreshing ts)
  start_refresh_effect t none c e = (refl, λ ts. tt)
  start_refresh_effect t (some u) c e = (refl, λ ts. rw e tt)

  refresh_with_effect :
      (token : Option ℕ) (request : ℕ) (c : Client)
      → IsAttended c
      → (accounted q (refresh_with token request c) ≡ accounted q c + count q (request ∷ []))
        × IsAttended (refresh_with token request c)
  refresh_with_effect none request c h = (ground arith, h)
  refresh_with_effect (some t) request c h =
      let c' = start_refresh t c.tab.refreshing c in
      let (same, attended) = start_refresh_effect t c.tab.refreshing c refl in
      (
        omega (arith, same, count-append q c'.tab.waiting (request ∷ [])),
        attended (c'.tab.waiting ++ (request ∷ [])),
      )

  on_unauthorized_effect :
      (retry : Bool) (request : ℕ) (c : Client)
      → IsAttended c
      → (accounted q (on_unauthorized retry request c) ≡ accounted q c + count q (request ∷ []))
        × IsAttended (on_unauthorized retry request c)
  unfolding on_unauthorized
  on_unauthorized_effect true request c h = (ground arith, h)
  on_unauthorized_effect false request c h = refresh_with_effect c.storage.refresh request c h

  resolve_effect :
      (a r : ℕ) (under_way : Option ℕ) (c : Client)
      → IsAttended c
      → (accounted q (resolve a r under_way c) ≡ accounted q c)
        × IsAttended (resolve a r under_way c)
  resolve_effect a r none c h = (refl, h)
  resolve_effect a r (some t) c h =
      (omega (arith, settled q (λ p. retried p a) c.tab.waiting c.outcomes (λ p. refl)), refl)

  fail_effect :
      (under_way : Option ℕ) (c : Client)
      → IsAttended c
      → (accounted q (fail under_way c) ≡ accounted q c) × IsAttended (fail under_way c)
  fail_effect none c h = (refl, h)
  fail_effect (some t) c h =
      (omega (arith, settled q rejected c.tab.waiting c.outcomes (λ p. refl)), refl)

  run_effect :
      (es : List Event) (c : Client)
      → IsAttended c
      → (accounted q (run es c) ≡ accounted q c + count q (failures es)) × IsAttended (run es c)
  unfolding run handle on_refreshed on_refresh_failed on_login on_logout
  run_effect [] c h = (omega arith, h)
  run_effect (unauthorized retry request ∷ es) c h =
      let (more, kept) = on_unauthorized_effect retry request c h in
      let (all, end) = run_effect es (on_unauthorized retry request c) kept in
      let first = count-append q (request ∷ []) (failures es) in
      (omega (arith, all, more, first), end)
  run_effect (refreshed a r ∷ es) c h =
      let (same, kept) = resolve_effect a r c.tab.refreshing c h in
      let (all, end) = run_effect es (on_refreshed a r c) kept in (omega (arith, all, same), end)
  run_effect (refresh_failed ∷ es) c h =
      let (same, kept) = fail_effect c.tab.refreshing c h in
      let (all, end) = run_effect es (on_refresh_failed c) kept in (omega (arith, all, same), end)
  run_effect (login a r ∷ es) c h = run_effect es (on_login a r c) h
  run_effect (logout ∷ es) c h = run_effect es (on_logout c) h

-- As often as a request was answered with 401, so often it was given up or sent again, or waits;
-- and none waits unless a post is under way.
pub requests_end :
    (s : Storage) (es : List Event) (q : ℕ)
    → let c = run es (loaded s) in
      (count q (map request_of c.outcomes) + count q c.tab.waiting ≡ count q (failures es))
      × IsAttended c
requests_end s es q =
    let (all, attended) = run_effect q es (loaded s) refl in (omega (arith, all), attended)
