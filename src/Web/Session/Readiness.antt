-- ===== src/Web/Session/Readiness.antt =====
-- What holds of the tokens of a tab of services/web/src/lib/api.ts between its events.
use fleex.Common.{
  ℕ, ◌≡◌, refl, Bool, false, Option, none, some, List, [], ◌∷◌, All, All-imp, contains, arith,
}
use fleex.Web.Session.{Client, Tab, Outcome, set_tokens, clear_tokens}

abbrev pub Distinct : List ℕ → Type 0
Distinct [] = Unit
Distinct (t ∷ ts) = (contains ts t ≡ false) × Distinct ts

abbrev pub stored : Option ℕ → List ℕ
stored none = []
stored (some t) = t ∷ []

abbrev pub IsOld : List ℕ → Option ℕ → Type 0
IsOld future none = Unit
IsOld future (some t) = contains future t ≡ false

abbrev pub IsUnposted : Option ℕ → Option ℕ → List ℕ → Type 0
IsUnposted none none posted = Unit
IsUnposted none (some t) posted = contains posted t ≡ false
IsUnposted (some u) token posted = Unit

-- The tokens of the client, none of which is among those still to come.
pub record IsReady (future : List ℕ) (c : Client) : Type 0 where
  pub differ : Distinct c.posted
  pub past : All (λ t. contains future t ≡ false) c.posted
  pub old : IsOld future c.storage.refresh
  pub unposted : IsUnposted c.tab.refreshing c.storage.refresh c.posted

not_posted :
    (r : ℕ) (rest ts : List ℕ)
    → All {0, 0} (λ t. contains (r ∷ rest) t ≡ false) ts
    → contains ts r ≡ false
not_posted r rest [] h = refl
not_posted r rest (t ∷ ts) (h, hs) = ground (arith, not_posted r rest ts hs)

past_rest :
    (r : ℕ) (rest ts : List ℕ)
    → All {0, 0} (λ t. contains (r ∷ rest) t ≡ false) ts
    → All {0, 0} (λ t. contains rest t ≡ false) ts
past_rest r rest ts h = All-imp ts (λ t k. ground (arith, k)) h

IsUnposted-any :
    (o : Option ℕ) (t : ℕ) (posted : List ℕ)
    → contains posted t ≡ false
    → IsUnposted o (some t) posted
IsUnposted-any none t posted h = h
IsUnposted-any (some u) t posted h = tt

IsUnposted-none : (o : Option ℕ) (posted : List ℕ) → IsUnposted o none posted
IsUnposted-none none posted = tt
IsUnposted-none (some u) posted = tt

module _ (future : List ℕ) (c : Client) (tab : Tab) (outcomes : List Outcome) (b : Bool) where
  -- Tokens that take the place of the stored ones, which are newly issued.
  pub IsReady-set_tokens :
      (a r : ℕ)
      → contains future r ≡ false
      → IsReady (r ∷ future) c
      → IsReady future (record c {
        storage = set_tokens a r c.storage;
        tab = tab;
        outcomes = outcomes;
        at_login = b;
      })
  unfolding set_tokens
  IsReady-set_tokens a r fresh h = record {
    differ = h.differ;
    past = past_rest r future c.posted h.past;
    old = fresh;
    unposted = IsUnposted-any tab.refreshing r c.posted (not_posted r future c.posted h.past);
  }

  pub IsReady-clear_tokens :
      IsReady future c
      → IsReady future (record c {
        storage = clear_tokens c.storage;
        tab = tab;
        outcomes = outcomes;
        at_login = b;
      })
  unfolding clear_tokens
  IsReady-clear_tokens h = record {
    differ = h.differ;
    past = h.past;
    old = tt;
    unposted = IsUnposted-none tab.refreshing c.posted;
  }

-- A token that was issued and not used changes nothing.
pub IsReady-rest :
    (r : ℕ) (future : List ℕ) (c : Client) → IsReady (r ∷ future) c → IsReady future c
IsReady-rest r future c h = record {
  differ = h.differ;
  past = past_rest r future c.posted h.past;
  old = IsOld-rest c.storage.refresh h.old;
  unposted = h.unposted;
}
  where
    IsOld-rest : (o : Option ℕ) → IsOld (r ∷ future) o → IsOld future o
    IsOld-rest none k = tt
    IsOld-rest (some t) k = ground (arith, k)

pub unposted_of :
    (under_way token : Option ℕ) (t : ℕ) (posted : List ℕ)
    → under_way ≡ none
    → token ≡ some t
    → IsUnposted under_way token posted
    → contains posted t ≡ false
unposted_of none (some u) t posted d e h = ground (arith, e, h)
unposted_of none none t posted d e h = cc
unposted_of (some u) token t posted d e h = cc

pub old_of :
    (future : List ℕ) (token : Option ℕ) (t : ℕ)
    → token ≡ some t
    → IsOld future token
    → contains future t ≡ false
old_of future none t e h = cc
old_of future (some u) t e h = ground (arith, e, h)
