-- ===== src/Identity/Users/History.antt =====
-- Histories of user management: whom the calls of a history can change.
use mathlib.Core.Path.{subst}
use fleex.Common.{
  ℕ, ◌≤◌, ◌≡◌, refl, ap, ◌∙◌, sym, Bool, true, false, not, ◌&&◌, ◌||◌, Option, none, some, List, [],
  ◌∷◌, ◌==◌, arith, ltb, leb, map, filter, map-filter-update_first, All, or_old,
}
use fleex.Common.Results.{Result, ok, err}
use fleex.Access.Roles.{Role, Actor, is_super_admin, rank, rank_le, rank_of_super}
use fleex.Identity.Store.{User, UserStatus, Store, find_user}
use fleex.Identity.Users.{
  NewUser, create_user, UserPatch, patched, grants_above, is_given, mutates_privilege, out_of_reach,
  update_user,
}
use fleex.Identity.Users.Ladder.{update_user-Updated}

-- The two calls by which roles and statuses are given.
pub data Call : Type 0 where
  creates : (id hash : ℕ) → NewUser → Call
  updates : (drivers : List (ℕ × ℕ)) (id : ℕ) → UserPatch → Call

abbrev pub after : Store → Result Store → Store
after db (ok db') = db'
after db (err e) = db

abbrev pub step : Store → Actor × Call → Store
step db (actor, creates id hash dto) = after db (create_user db actor id hash dto)
step db (actor, updates drivers id dto) = after db (update_user db drivers actor id dto)

abbrev pub run : Store → List (Actor × Call) → Store
run db [] = db
run db (c ∷ cs) = run (step db c) cs

abbrev pub is_above : ℕ → User → Bool
is_above k u = ltb k (rank u.role)

abbrev pub privilege : User → ℕ × Role × UserStatus
privilege u = (u.id, u.role, u.status)

-- The users above a rank, with their role and status.
abbrev pub above : ℕ → Store → List (ℕ × Role × UserStatus)
above k db = map privilege (filter (is_above k) db.users)

create_user-above :
    (db : Store) (actor : Actor) (id hash k : ℕ) (dto : NewUser)
    → rank actor.role ≤ k
    → above k (after db (create_user db actor id hash dto)) ≡ above k db
unfolding create_user
create_user-above db actor id hash k dto low = ground arith

reach_below :
    (super : Bool) (k mine theirs : ℕ)
    → mine ≤ k
    → theirs ≤ 100
    → (super ≡ true → mine ≡ 100)
    → (not super && leb mine theirs) ≡ false
    → ltb k theirs ≡ false
reach_below true k mine theirs low bound full reach = let e = full refl in ground arith
reach_below false k mine theirs low bound full reach = ground arith

-- Whoever is changed stands at most at `k` before and after, if the actor stands at most at `k`.
above_case :
    (k mine : ℕ) (super : Bool) (old : Role) (wanted : Option Role) (given : Bool)
    → mine ≤ k
    → (super ≡ true → mine ≡ 100)
    → ((is_given wanted || given) ≡ true → (not super && leb mine (rank old)) ≡ false)
    → ((r : Role) → wanted ≡ some r → rank r ≤ mine)
    → (ltb k (rank (or_old wanted old)) ≡ ltb k (rank old))
      × (ltb k (rank old) ≡ true → (wanted ≡ none) × (given ≡ false))
above_case k mine super old none false low full reach grant = (refl, λ _. (refl, refl))
above_case k mine super old none true low full reach grant =
    let below = reach_below super k mine (rank old) low (rank_le old) full (reach refl) in
    (refl, λ t. cc)
above_case k mine super old (some r) given low full reach grant =
    let below = reach_below super k mine (rank old) low (rank_le old) full (reach refl) in
    let le = grant r refl in (ground arith, λ t. cc)

is_given-none {ℓ} : {A : Type ℓ} (o : Option A) → is_given o ≡ false → o ≡ none
is_given-none none h = refl
is_given-none (some a) h = cc

same_target :
    (u v : User) (id : ℕ) (db : Store)
    → find_user id db.users ≡ some u
    → find_user id db.users ≡ some v
    → v ≡ u
same_target u v id db h k = cc

patched-above :
    (actor : Actor) (dto : UserPatch) (u : User) (k : ℕ)
    → rank actor.role ≤ k
    → grants_above actor dto.role ≡ false
    → (mutates_privilege dto && out_of_reach actor u) ≡ false
    → (is_above k (patched dto u) ≡ is_above k u)
      × (is_above k u ≡ true → privilege (patched dto u) ≡ privilege u)
patched-above actor dto u k low grant reach =
    let (same, quiet) =
      above_case k (rank actor.role) (is_super_admin actor.role) u.role dto.role
        (is_given dto.status) low (rank_of_super actor.role) (λ m. rw m at reach) granted in
    (same, λ t. unchanged (quiet t).0 (is_given-none dto.status (quiet t).1))
  where
    granted : (r : Role) → dto.role ≡ some r → rank r ≤ rank actor.role
    granted r e = let g = rw e at grant in ground arith

    unchanged : dto.role ≡ none → dto.status ≡ none → privilege (patched dto u) ≡ privilege u
    unchanged e f = rw e (rw f)

update_user-above :
    (db : Store) (drivers : List (ℕ × ℕ)) (actor : Actor) (id k : ℕ) (dto : UserPatch)
    → rank actor.role ≤ k
    → above k (after db (update_user db drivers actor id dto)) ≡ above k db
update_user-above db drivers actor id k dto low = go (update_user db drivers actor id dto) refl
  where
    go :
        (r : Result Store)
        → update_user db drivers actor id dto ≡ r
        → above k (after db r) ≡ above k db
    go (err e) h = refl
    go (ok db') h =
        let p = update_user-Updated db drivers actor id dto db' h in
        ap (above k) (sym p.result)
        ∙ map-filter-update_first (λ u. u.id == id) (is_above k) privilege (patched dto) db.users
            (λ u found. patched-above actor dto u k low p.grant (
              subst (λ v. (mutates_privilege dto && out_of_reach actor v) ≡ false)
                (same_target u p.target id db found p.found) p.reach))

-- Over any history of creations and updates by actors who stand at most at some rank, the users
-- above that rank are the same, each with the same role and the same status.
pub run-above :
    (k : ℕ) (db : Store) (cs : List (Actor × Call))
    → All (λ c. rank c.0.role ≤ k) cs
    → above k (run db cs) ≡ above k db
run-above k db [] low = refl
run-above k db ((actor, creates id hash dto) ∷ cs) (low, more) =
    run-above k (after db (create_user db actor id hash dto)) cs more
    ∙ create_user-above db actor id hash k dto low
run-above k db ((actor, updates drivers id dto) ∷ cs) (low, more) =
    run-above k (after db (update_user db drivers actor id dto)) cs more
    ∙ update_user-above db drivers actor id k dto low
