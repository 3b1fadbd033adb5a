-- ===== src/Identity/Users/Ladder.antt =====
-- Who can change whom: an update of a user and the role ladder.
use fleex.Common.{
  none, ℕ, ◌≤◌, ◌<◌, ◌≡◌, ◌≢◌, refl, ap, ◌∙◌, sym, Bool, true, false, not, ◌&&◌, Option, some, List,
  ◌==◌, arith, leb, update_first, inl, inr, find?-update_first, same_id, same_id→eq, ◌⊎◌,
}
use fleex.Common.Results.{ok, or_throw, >>=-eq-ok, >>-eq-ok}
use fleex.Access.Roles.{Role, Actor, is_super_admin, rank}
use fleex.Identity.Store.{User, Store, find_user}
use fleex.Identity.Users.{
  UserPatch, patched, driver_ok, grants_above, mutates_privilege, out_of_reach, update_user,
}

-- What an update that goes through has passed.
pub record Updated (db : Store) (actor : Actor) (id : ℕ) (dto : UserPatch) (db' : Store)
    : Type 0 where
  pub target : User
  pub found : find_user id db.users ≡ some target
  pub tenant :
      (not (is_super_admin actor.role) && not (same_id actor.company_id target.company_id)) ≡ false
  pub grant : grants_above actor dto.role ≡ false
  pub other : (mutates_privilege dto && actor.id == id) ≡ false
  pub reach : (mutates_privilege dto && out_of_reach actor target) ≡ false
  pub result : record db { users = update_first (λ u. u.id == id) (patched dto) db.users } ≡ db'

pub update_user-Updated :
    (db : Store) (drivers : List (ℕ × ℕ)) (actor : Actor) (id : ℕ) (dto : UserPatch) (db' : Store)
    → update_user db drivers actor id dto ≡ ok db'
    → Updated db actor id dto db'
unfolding update_user
update_user-Updated db drivers actor id dto db' h =
    let (u, found, h₁) = >>=-eq-ok (or_throw (find_user id db.users) _) _ h in
    let (tenant, h₂) =
      >>-eq-ok (not (is_super_admin actor.role) && not (same_id actor.company_id u.company_id)) _ _
        h₁ in
    let (_, h₃) = >>-eq-ok (not (driver_ok drivers actor u dto.driver_id)) _ _ h₂ in
    let (grant, h₄) = >>-eq-ok (grants_above actor dto.role) _ _ h₃ in
    let (other, h₅) = >>-eq-ok (mutates_privilege dto && actor.id == id) _ _ h₄ in
    let (reach, h₆) = >>-eq-ok (mutates_privilege dto && out_of_reach actor u) _ _ h₅ in
    record {
      target = u;
      found = ground arith;
      tenant = tenant;
      grant = grant;
      other = other;
      reach = reach;
      result = ground arith;
    }

-- An update that goes through stays in the actor's company (SUPER_ADMIN excepted), grants no role
-- above the actor's, and changes a role or a status only of another user, who stands below the
-- actor (SUPER_ADMIN excepted). The user then has exactly the patch's changes.
pub update_user_ladder :
    (db : Store) (drivers : List (ℕ × ℕ)) (actor : Actor) (id : ℕ) (dto : UserPatch) (db' : Store)
    → update_user db drivers actor id dto ≡ ok db'
    → (target : User) × (find_user id db.users ≡ some target)
      × ((is_super_admin actor.role ≡ true) ⊎ (actor.company_id ≡ target.company_id))
      × ((dto.role ≡ none) ⊎ ((r : Role) × (dto.role ≡ some r) × (rank r ≤ rank actor.role)))
      × ((mutates_privilege dto ≡ false)
          ⊎ ((actor.id ≢ id)
              × ((is_super_admin actor.role ≡ true) ⊎ (rank target.role < rank actor.role))))
      × (find_user id db'.users ≡ some (patched dto target))
update_user_ladder db drivers actor id dto db' h =
    let p = update_user-Updated db drivers actor id dto db' h in
    let u = p.target in
    let updated =
      find?-update_first (λ (v : User). v.id == id) (patched dto) db.users u (λ x e. e) p.found in
    (
      u,
      p.found,
      tenant_or (is_super_admin actor.role) actor.company_id u.company_id p.tenant,
      granted actor dto.role p.grant,
      reach_or actor u id (mutates_privilege dto) p.other p.reach,
      ap (find_user id) (ap (λ (d : Store). d.users) (sym p.result)) ∙ updated,
    )
  where
    tenant_or :
        (s : Bool) (a b : Option ℕ) → (not s && not (same_id a b)) ≡ false → (s ≡ true) ⊎ (a ≡ b)
    tenant_or true a b e = inl refl
    tenant_or false a b e = inr (same_id→eq a b (ground arith))

    granted :
        (actor : Actor) (wanted : Option Role)
        → grants_above actor wanted ≡ false
        → (wanted ≡ none) ⊎ ((r : Role) × (wanted ≡ some r) × (rank r ≤ rank actor.role))
    granted actor none g = inl refl
    granted actor (some r) g = inr (r, refl, ground arith)

    reach_or :
        (actor : Actor) (u : User) (id : ℕ) (m : Bool)
        → (m && actor.id == id) ≡ false
        → (m && out_of_reach actor u) ≡ false
        → (m ≡ false)
          ⊎ ((actor.id ≢ id)
              × ((is_super_admin actor.role ≡ true) ⊎ (rank u.role < rank actor.role)))
    reach_or actor u id false o r = inl refl
    reach_or actor u id true o r =
        inr (
          λ same. ground arith,
          below (is_super_admin actor.role) (rank actor.role) (rank u.role) r,
        )
      where
        below : (s : Bool) (a b : ℕ) → (not s && leb a b) ≡ false → (s ≡ true) ⊎ (b < a)
        below true a b e = inl refl
        below false a b e = inr (ground arith)
