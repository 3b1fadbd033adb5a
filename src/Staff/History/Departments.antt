-- ===== src/Staff/History/Departments.antt =====
-- The calls on groups and shifts.
use fleex.Access.Ownership.{company_of, has_company, is_foreign}
use mathlib.Core.Path.{subst}
use fleex.Common.{
  ℕ, ◌≡◌, refl, ◌∙◌, Bool, true, false, not, ◌&&◌, Option, none, some, List, [], ◌∷◌, any, filter,
  update_many, All, All-imp, any-filter, any-update_first, any-update_many, ◌==◌, is_id, arith,
  Bool-cases, inl, inr,
}
use fleex.Common.Results.{
  forbidden, not_found, >>=-eq-ok, >>-eq-ok, ok-inj, or_throw, throw_if, ◌>>◌, bad_request,
  internal,
}
use fleex.Common.Texts.{Text}
use fleex.Access.Roles.{Actor, is_super_admin}
use fleex.Fleet.Devices.{Change, reference}
use fleex.Staff.Groups.{Group, Driver, Store, find_group, leave_group, orphan}
use fleex.Staff.Groups
use fleex.Staff.Shifts.{check_parent, ShiftDto, ShiftPatch, leave_shift}
use fleex.Staff.Shifts
use fleex.Staff.History.{is_of, IsGroupOf, IsGrouped, Keeps}

IsGroupOf-imp :
    (groups groups' : List Group) (company : ℕ) (o : Option ℕ)
    → ((id : ℕ) → any (is_of id company) groups ≡ true → any (is_of id company) groups' ≡ true)
    → IsGroupOf groups company o
    → IsGroupOf groups' company o
IsGroupOf-imp groups groups' company none imp h = tt
IsGroupOf-imp groups groups' company (some id) imp h = imp id h

-- Groups of which none is lost.
more_groups :
    (groups groups' : List Group) (drivers : List Driver)
    → ((id company : ℕ)
        → any (is_of id company) groups ≡ true
        → any (is_of id company) groups' ≡ true)
    → All {0, 0} (λ d. IsGroupOf groups d.company_id d.group_id) drivers
    → All {0, 0} (λ d. IsGroupOf groups' d.company_id d.group_id) drivers
more_groups groups groups' drivers imp =
    All-imp drivers
      (λ d h. IsGroupOf-imp groups groups' d.company_id d.group_id (λ id. imp id d.company_id) h)

module _ (db : Store) (actor : Actor) (s : IsGrouped db) where
  pub creates_group-Keeps :
      (id : ℕ) (name : Text) (parent : Option ℕ) → Keeps db (Groups.create db actor id name parent)
  unfolding Groups.create Keeps
  creates_group-Keeps id name parent db' h =
      let (company, own, h1) = >>=-eq-ok (company_of actor) _ h in
      let g : Group = record { id = id; company_id = company; name = name; parent_id = parent } in
      subst IsGrouped (ok-inj h1)
        (more_groups db.groups (g ∷ db.groups) db.drivers (λ i c k. ground (arith, k)) s)

  pub updates_group-Keeps :
      (id : ℕ) (name : Option Text) (parent : Change)
      → Keeps db (Groups.update db actor id name parent)
  unfolding Groups.update Keeps
  updates_group-Keeps id name parent db' h =
      let (g, found, h1) = >>=-eq-ok (or_throw (find_group id db.groups) not_found) _ h in
      let (mine, h2) = >>-eq-ok (is_foreign actor g.company_id) forbidden _ h1 in
      subst IsGrouped (ok-inj h2) (
        more_groups db.groups _ db.drivers
          (λ i c k.
            any-update_first (λ h. h.id == id) (is_of i c) (Groups.patched name parent) db.groups
              (λ h. refl)
            ∙ k)
          s)

abbrev groups_without : ℕ → List Group → List Group
groups_without id groups =
    update_many (λ h. is_id h.parent_id id) orphan (filter (λ h. not (h.id == id)) groups)

IsGroupOf-without :
    (id company : ℕ) (groups : List Group) (o : Option ℕ)
    → is_id o id ≡ false
    → IsGroupOf groups company o
    → IsGroupOf (groups_without id groups) company o
IsGroupOf-without id company groups none other h = tt
IsGroupOf-without id company groups (some g) other h =
    any-update_many (λ h. is_id h.parent_id id) (is_of g company) orphan
      (filter (λ h. not (h.id == id)) groups) (λ h. refl)
    ∙ any-filter (λ h. not (h.id == id)) (is_of g company) groups (λ h k. ground (arith, other, k))
    ∙ h

-- The drivers of a group that is removed leave it.
leave-IsGrouped :
    (id : ℕ) (groups : List Group) (drivers : List Driver)
    → All {0, 0} (λ d. IsGroupOf groups d.company_id d.group_id) drivers
    → All {0, 0}
        (λ d. IsGroupOf (groups_without id groups) d.company_id d.group_id)
        (update_many (λ d. is_id d.group_id id) leave_group drivers)
leave-IsGrouped id groups [] h = tt
leave-IsGrouped id groups (d ∷ drivers) (h, hs) =
    let rest = leave-IsGrouped id groups drivers hs in
    elim (Bool-cases (is_id d.group_id id)) [
      | inl e ↦ rw e (tt, rest)
      | inr e ↦ rw e (IsGroupOf-without id d.company_id groups d.group_id e h, rest)
    ]

same_groups :
    (groups : List Group) (p : Driver → Bool) (f : Driver → Driver) (drivers : List Driver)
    → ((d : Driver) → ((f d).company_id ≡ d.company_id) × ((f d).group_id ≡ d.group_id))
    → All {0, 0} (λ d. IsGroupOf groups d.company_id d.group_id) drivers
    → All {0, 0} (λ d. IsGroupOf groups d.company_id d.group_id) (update_many p f drivers)
same_groups groups p f [] same h = tt
same_groups groups p f (d ∷ drivers) same (h, hs) =
    let rest = same_groups groups p f drivers same hs in
    elim (Bool-cases (p d)) [
      | inl e ↦ rw e (rw (same d).0 (rw (same d).1 h), rest)
      | inr e ↦ rw e (h, rest)
    ]

module _ (db : Store) (actor : Actor) (s : IsGrouped db) where
  pub removes_group-Keeps : (id : ℕ) → Keeps db (Groups.remove db actor id)
  unfolding Groups.remove Keeps
  removes_group-Keeps id db' h =
      let (g, found, h1) = >>=-eq-ok (or_throw (find_group id db.groups) not_found) _ h in
      let (mine, h2) = >>-eq-ok (is_foreign actor g.company_id) forbidden _ h1 in
      subst IsGrouped (ok-inj h2) (leave-IsGrouped id db.groups db.drivers s)

  pub removes_shift-Keeps : (id : ℕ) → Keeps db (Shifts.remove db actor id)
  unfolding Shifts.remove Keeps
  removes_shift-Keeps id db' h =
      let (t, found, h1) = >>=-eq-ok (or_throw (Shifts.find_shift id db.shifts) not_found) _ h in
      let (mine, h2) = >>-eq-ok (is_foreign actor t.company_id) forbidden _ h1 in
      subst IsGrouped (ok-inj h2) (
        same_groups db.groups (λ d. is_id d.shift_id id) leave_shift db.drivers (λ d. (refl, refl))
          s)

pub creates_shift-Keeps :
    (db : Store) (actor : Actor) (id : ℕ) (dto : ShiftDto)
    → IsGrouped db
    → Keeps db (Shifts.create db actor id dto)
unfolding Shifts.create Keeps
creates_shift-Keeps db actor id dto s db' h =
    let named =
      throw_if (not (has_company actor.company_id) && not (is_super_admin actor.role)) forbidden in
    let (u, passed, h1) = >>=-eq-ok (named >> check_parent db actor dto.parent_id) _ h in
    let (company, own, h2) = >>=-eq-ok (or_throw actor.company_id internal) _ h1 in
    subst IsGrouped (ok-inj h2) s

pub updates_shift-Keeps :
    (db : Store) (actor : Actor) (id : ℕ) (dto : ShiftPatch)
    → IsGrouped db
    → Keeps db (Shifts.update db actor id dto)
unfolding Shifts.update Keeps
updates_shift-Keeps db actor id dto s db' h =
    let (t, found, h1) = >>=-eq-ok (or_throw (Shifts.find_shift id db.shifts) not_found) _ h in
    let mine = throw_if (is_foreign actor t.company_id) forbidden in
    let other = throw_if (is_id (reference dto.parent_id) id) bad_request in
    let (u, passed, h2) = >>=-eq-ok (mine >> other) _ h1 in subst IsGrouped (ok-inj h2) s
