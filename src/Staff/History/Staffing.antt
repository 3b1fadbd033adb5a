-- ===== src/Staff/History/Staffing.antt =====
-- The calls on one driver.
use fleex.Access.Ownership.{company_of, is_foreign}
use mathlib.Core.Path.{subst}
use fleex.Common.{
  ℕ, ◌≡◌, refl, Bool, true, false, not, Option, none, some, List, any, find?-eq-some, All-filter,
  All-update_found, any-find?, ◌==◌, arith,
}
use fleex.Common.Results.{
  ok, forbidden, not_found, >>=-eq-ok, >>-eq-ok, or_throw-eq-ok, throw_if-eq-ok, ok-inj, or_throw,
  throw_if, ◌>>◌,
}
use fleex.Access.Roles.{Actor, is_super_admin}
use fleex.Fleet.Devices.{Change, keep, set, changed, reference}
use fleex.Staff.Groups.{Group, Driver, Store, find_group}
use fleex.Staff.Drivers.{
  find_driver, is_owned, ensure_group, DriverDto, DriverPatch, patched, create, update, remove,
  ensure_group_ownership,
}
use fleex.Staff.History.{is_of, IsGroupOf, IsGrouped, Keeps}

-- A group that the guard lets through is one of the company's.
ensure_group-IsGroupOf :
    (db : Store) (super : Bool) (company : ℕ) (o : Option ℕ) {u : Unit {0}}
    → super ≡ false
    → ensure_group db super company o ≡ ok u
    → IsGroupOf db.groups company o
ensure_group-IsGroupOf db super company none plain h = tt
ensure_group-IsGroupOf db true company (some id) plain h = cc
ensure_group-IsGroupOf db false company (some id) plain h =
    let owned = throw_if-eq-ok (not (is_owned company (find_group id db.groups))) forbidden h in
    found_group (find_group id db.groups) refl owned
  where
    found_group :
        (o : Option Group)
        → find_group id db.groups ≡ o
        → not (is_owned company o) ≡ false
        → any (is_of id company) db.groups ≡ true
    found_group none e k = cc
    found_group (some g) e k =
        let named = find?-eq-some (λ g. g.id == id) db.groups g e in
        any-find? (λ g. g.id == id) (is_of id company) db.groups g e (ground (arith, named, k))

IsGroupOf-changed :
    (groups : List Group) (company : ℕ) (c : Change) (old : Option ℕ)
    → IsGroupOf groups company old
    → IsGroupOf groups company (reference c)
    → IsGroupOf groups company (changed c old)
IsGroupOf-changed groups company keep old h k = h
IsGroupOf-changed groups company (set new) old h k = k

same_driver :
    (id : ℕ) (drivers : List Driver) (d e : Driver)
    → find_driver id drivers ≡ some d
    → find_driver id drivers ≡ some e
    → d ≡ e
same_driver id drivers d e h k = cc

module _ (db : Store) (actor : Actor) (s : IsGrouped db) where
  pub creates_driver-Keeps :
      (id : ℕ) (dto : DriverDto)
      → is_super_admin actor.role ≡ false
      → Keeps db (create db actor id dto)
  unfolding create Keeps ensure_group_ownership
  creates_driver-Keeps id dto plain db' h =
      let (company, own, h1) = >>=-eq-ok (company_of actor) _ h in
      let super = is_super_admin actor.role in
      let (u, mine, h2) = >>=-eq-ok (ensure_group db super company dto.group_id) _ h1 in
      subst IsGrouped (ok-inj h2)
        (ensure_group-IsGroupOf db super company dto.group_id plain mine, s)

  pub updates_driver-Keeps :
      (id : ℕ) (dto : DriverPatch)
      → is_super_admin actor.role ≡ false
      → Keeps db (update db actor id dto)
  unfolding update Keeps ensure_group_ownership
  updates_driver-Keeps id dto plain db' h =
      let super = is_super_admin actor.role in
      let (d, found, h1) = >>=-eq-ok (or_throw (find_driver id db.drivers) not_found) _ h in
      let guard = throw_if (is_foreign actor d.company_id) forbidden in
      let owned = ensure_group db super d.company_id (reference dto.group_id) in
      let (u, passed, h2) = >>=-eq-ok (guard >> owned) _ h1 in
      let (mine, let_in) = >>-eq-ok (is_foreign actor d.company_id) forbidden owned passed in
      let here = or_throw-eq-ok (find_driver id db.drivers) not_found found in
      let group =
        ensure_group-IsGroupOf db super d.company_id (reference dto.group_id) plain let_in in
      subst IsGrouped (ok-inj h2) (
        All-update_found (λ e. e.id == id) (patched dto) db.drivers
          (λ e found' k. IsGroupOf-changed db.groups e.company_id dto.group_id e.group_id k (
            subst (λ e. IsGroupOf db.groups e.company_id (reference dto.group_id))
              (same_driver id db.drivers d e here found') group))
          s)

  pub removes_driver-Keeps : (id : ℕ) → Keeps db (remove db actor id)
  unfolding remove Keeps
  removes_driver-Keeps id db' h =
      let (d, found, h1) = >>=-eq-ok (or_throw (find_driver id db.drivers) not_found) _ h in
      let (mine, h2) = >>-eq-ok (is_foreign actor d.company_id) forbidden _ h1 in
      subst IsGrouped (ok-inj h2) (All-filter _ (λ e. not (e.id == id)) db.drivers s)
