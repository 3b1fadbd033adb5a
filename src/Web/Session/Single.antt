-- ===== src/Web/Session/Single.antt =====
-- One tab: that no refresh token is posted twice.
use fleex.Common.{
  ℕ, ◌≡◌, refl, Bool, true, false, Option, none, some, List, [], ◌∷◌, ◌++◌, contains,
}
use fleex.Web.Session.{
  Storage, Client, Outcome, Event, unauthorized, refreshed, refresh_failed, login, logout,
  on_unauthorized, on_refreshed, on_refresh_failed, on_login, on_logout, handle, run, start_refresh,
  refresh_with, resolve, fail,
}
use fleex.Web.Session.Readiness.{
  Distinct, stored, IsOld, IsUnposted, IsReady, IsReady-set_tokens, IsReady-clear_tokens,
  IsReady-rest, unposted_of, old_of,
}

-- The refresh tokens that a run of events hands out, in their order.
abbrev pub issued : List Event → List ℕ
issued [] = []
issued (unauthorized retry request ∷ es) = issued es
issued (refreshed a r ∷ es) = r ∷ issued es
issued (refresh_failed ∷ es) = issued es
issued (login a r ∷ es) = r ∷ issued es
issued (logout ∷ es) = issued es

-- A tab as it is loaded.
abbrev pub loaded : Storage → Client
loaded s = record {
  storage = s;
  tab = record { refreshing = none; waiting = [] };
  posted = [];
  outcomes = [];
  at_login = false;
}

start_refresh-IsReady :
    (future : List ℕ) (t : ℕ) (under_way : Option ℕ) (c : Client)
    → IsReady future c
    → c.storage.refresh ≡ some t
    → c.tab.refreshing ≡ under_way
    → IsReady future (start_refresh t under_way c)
start_refresh-IsReady future t (some u) c h stored idle = h
start_refresh-IsReady future t none c h stored idle = record {
  differ =
      (unposted_of c.tab.refreshing c.storage.refresh t c.posted idle stored h.unposted, h.differ);
  past = (old_of future c.storage.refresh t stored h.old, h.past);
  old = h.old;
  unposted = tt;
}

same_tokens :
    (future : List ℕ) (c : Client) (waiting : List ℕ) (outcomes : List Outcome)
    → IsReady future c
    → IsReady future (record c { tab = record c.tab { waiting = waiting }; outcomes = outcomes })
same_tokens future c waiting outcomes h = record {
  differ = h.differ;
  past = h.past;
  old = h.old;
  unposted = h.unposted;
}

refresh_with-IsReady :
    (future : List ℕ) (token : Option ℕ) (request : ℕ) (c : Client)
    → IsReady future c
    → c.storage.refresh ≡ token
    → IsReady future (refresh_with token request c)
refresh_with-IsReady future none request c h e = same_tokens future c _ _ h
refresh_with-IsReady future (some t) request c h e =
    let c' = start_refresh t c.tab.refreshing c in
    same_tokens future c' (c'.tab.waiting ++ (request ∷ [])) c'.outcomes
      (start_refresh-IsReady future t c.tab.refreshing c h e refl)

on_unauthorized-IsReady :
    (future : List ℕ) (retry : Bool) (request : ℕ) (c : Client)
    → IsReady future c
    → IsReady future (on_unauthorized retry request c)
unfolding on_unauthorized
on_unauthorized-IsReady future true request c h = same_tokens future c _ _ h
on_unauthorized-IsReady future false request c h =
    refresh_with-IsReady future c.storage.refresh request c h refl

resolve-IsReady :
    (future : List ℕ) (a r : ℕ) (under_way : Option ℕ) (c : Client)
    → contains future r ≡ false
    → IsReady (r ∷ future) c
    → IsReady future (resolve a r under_way c)
resolve-IsReady future a r none c fresh h = IsReady-rest r future c h
resolve-IsReady future a r (some t) c fresh h =
    IsReady-set_tokens future c _ _ c.at_login a r fresh h

fail-IsReady :
    (future : List ℕ) (under_way : Option ℕ) (c : Client)
    → IsReady future c
    → IsReady future (fail under_way c)
fail-IsReady future none c h = h
fail-IsReady future (some t) c h = IsReady-clear_tokens future c _ _ true h

run-IsReady :
    (es : List Event) (c : Client)
    → Distinct (issued es)
    → IsReady (issued es) c
    → Distinct (run es c).posted
unfolding run handle on_refreshed on_refresh_failed on_login on_logout
run-IsReady [] c fresh h = h.differ
run-IsReady (unauthorized retry request ∷ es) c fresh h =
    run-IsReady es _ fresh (on_unauthorized-IsReady (issued es) retry request c h)
run-IsReady (refreshed a r ∷ es) c (new, fresh) h =
    run-IsReady es _ fresh (resolve-IsReady (issued es) a r c.tab.refreshing c new h)
run-IsReady (refresh_failed ∷ es) c fresh h =
    run-IsReady es _ fresh (fail-IsReady (issued es) c.tab.refreshing c h)
run-IsReady (login a r ∷ es) c (new, fresh) h =
    run-IsReady es _ fresh (IsReady-set_tokens (issued es) c c.tab c.outcomes c.at_login a r new h)
run-IsReady (logout ∷ es) c fresh h =
    run-IsReady es _ fresh (IsReady-clear_tokens (issued es) c c.tab c.outcomes c.at_login h)

loaded-IsReady :
    (future : List ℕ) (s : Storage)
    → Distinct (stored s.refresh ++ future)
    → IsReady future (loaded s)
loaded-IsReady future s h = record {
  differ = tt;
  past = tt;
  old = old_stored s.refresh h;
  unposted = free s.refresh;
}
  where
    old_stored : (o : Option ℕ) → Distinct (stored o ++ future) → IsOld future o
    old_stored none k = tt
    old_stored (some t) k = k.0

    free : (o : Option ℕ) → IsUnposted none o []
    free none = tt
    free (some t) = refl

Distinct-rest : (o : Option ℕ) (ts : List ℕ) → Distinct (stored o ++ ts) → Distinct ts
Distinct-rest none ts h = h
Distinct-rest (some t) ts h = h.1

-- When the tokens that the server hands out differ from one another and from the one that is
-- stored, a tab posts no refresh token twice, whatever requests fail, whenever the answers come,
-- and whoever logs in or out between.
pub posts_once :
    (s : Storage) (es : List Event)
    → Distinct (stored s.refresh ++ issued es)
    → Distinct (run es (loaded s)).posted
posts_once s es h =
    run-IsReady es (loaded s) (Distinct-rest s.refresh (issued es) h)
      (loaded-IsReady (issued es) s h)
