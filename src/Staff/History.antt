-- ===== src/Staff/History.antt =====
-- Histories of the calls of services/api/src/drivers/drivers.module.ts, groups/groups.module.ts
-- and shifts/shifts.module.ts.
pub mod Departments
pub mod Staffing
pub mod Imports
pub mod Ownership
use fleex.Access.Ownership.{company_of, has_company, is_foreign}
use mathlib.Core.Path.{subst}
use fleex.Common.{
  ℕ, ◌+◌, ◌≡◌, refl, sym, ap, ◌∙◌, Bool, true, false, not, ◌&&◌, ◌||◌, Option, none, some, List, [],
  ◌∷◌, any, filter, find?, find?-eq-some, update_many, All, All-imp, All-filter, All-update_found,
  any-find?, any-filter, any-update_first, any-update_many, ◌==◌, is_id, is_id→eq, arith,
  Bool-cases, if◌then◌else◌, inl, inr, ◌⊎◌,
}
use fleex.Common.Results.{
  Result, ok, err, forbidden, not_found, >>=-eq-ok, >>-eq-ok, or_throw-eq-ok, throw_if-eq-ok,
  ok-inj, or_throw, throw_if, ◌>>◌, bad_request, internal,
}
use fleex.Common.Texts.{Text, text_eq}
use fleex.Access.Roles.{Actor, is_super_admin}
use fleex.Fleet.Devices.{Change, keep, set, changed, reference}
use fleex.Staff.Groups.{Group, Driver, Store, find_group, leave_group, orphan}
use fleex.Staff.Groups
use fleex.Staff.Shifts.{check_parent, ShiftDto, ShiftPatch, leave_shift}
use fleex.Staff.Shifts
use fleex.Staff.Drivers.{
  find_driver, is_owned, ensure_group, DriverDto, DriverPatch, patched, SheetRow, Import, later,
  group_by_name, row_group, store_row, import_rows, import_excel, create, update, remove,
  ensure_group_ownership,
}

pub data Call : Type 0 where
  creates_group : ℕ → Text → Option ℕ → Call
  updates_group : ℕ → Option Text → Change → Call
  removes_group : ℕ → Call
  creates_shift : ℕ → ShiftDto → Call
  updates_shift : ℕ → ShiftPatch → Call
  removes_shift : ℕ → Call
  creates_driver : ℕ → DriverDto → Call
  updates_driver : ℕ → DriverPatch → Call
  removes_driver : ℕ → Call
  imports : List SheetRow → Call

abbrev pub after : Store → Result Store → Store
after db (ok db') = db'
after db (err e) = db

abbrev pub imported : Result Import → Result Store
imported (ok i) = ok i.store
imported (err e) = err e

abbrev pub perform : Store → Actor → Call → Result Store
perform db actor (creates_group id name parent) = Groups.create db actor id name parent
perform db actor (updates_group id name parent) = Groups.update db actor id name parent
perform db actor (removes_group id) = Groups.remove db actor id
perform db actor (creates_shift id dto) = Shifts.create db actor id dto
perform db actor (updates_shift id dto) = Shifts.update db actor id dto
perform db actor (removes_shift id) = Shifts.remove db actor id
perform db actor (creates_driver id dto) = create db actor id dto
perform db actor (updates_driver id dto) = update db actor id dto
perform db actor (removes_driver id) = remove db actor id
perform db actor (imports rows) = imported (import_excel db actor rows)

abbrev pub run : Store → List (Actor × Call) → Store
run db [] = db
run db ((actor, call) ∷ cs) = run (after db (perform db actor call)) cs

abbrev pub is_of : ℕ → ℕ → Group → Bool
is_of id company g = g.id == id && g.company_id == company

-- The group is one of the company's.
abbrev pub IsGroupOf : List Group → ℕ → Option ℕ → Type 0
IsGroupOf groups company none = Unit
IsGroupOf groups company (some id) = any (is_of id company) groups ≡ true

-- A driver's group, if there is one, is a group of the driver's company.
abbrev pub IsGrouped : Store → Type 0
IsGrouped db = All {0, 0} (λ d. IsGroupOf db.groups d.company_id d.group_id) db.drivers

pub Keeps : Store → Result Store → Type 0
Keeps db r = (db' : Store) → r ≡ ok db' → IsGrouped db'
