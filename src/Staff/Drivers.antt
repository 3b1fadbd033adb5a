-- ===== src/Staff/Drivers.antt =====
-- services/api/src/drivers/drivers.module.ts; of a row of an Excel file its cells are read
-- already.
use fleex.Access.Ownership.{company_of, is_foreign}
use fleex.Common.{
  ℕ, ◌+◌, Bool, false, not, ◌&&◌, Option, none, some, List, [], ◌∷◌, filter, find?, update_first,
  ◌==◌, if◌then◌else◌, or_old,
}
use fleex.Common.Results.{Result, ok, forbidden, not_found, ◌>>=◌, ◌>>◌, throw_if, or_throw}
use fleex.Common.Texts.{Text, text_eq}
use fleex.Access.Roles.{Actor, is_super_admin}
use fleex.Fleet.Devices.{Change, changed, reference}
use fleex.Staff.Groups.{Group, Driver, Store, find_group}

abbrev pub find_driver : ℕ → List Driver → Option Driver
find_driver id = find? (λ d. d.id == id)

-- The group is there, and of the company.
abbrev pub is_owned : ℕ → Option Group → Bool
is_owned company none = false
is_owned company (some g) = g.company_id == company

abbrev pub ensure_group : Store → Bool → ℕ → Option ℕ → Result (Unit {0})
ensure_group db super company none = ok tt
ensure_group db super company (some id) =
    if super then ok tt else throw_if (not (is_owned company (find_group id db.groups))) forbidden

unfoldable pub ensure_group_ownership : Store → Actor → ℕ → Option ℕ → Result (Unit {0})
ensure_group_ownership db actor company group =
    ensure_group db (is_super_admin actor.role) company group

pub record DriverDto : Type 0 where
  pub full_name : Text
  pub group_id : Option ℕ
  pub shift_id : Option ℕ

unfoldable pub create : Store → Actor → ℕ → DriverDto → Result Store
unfolding ensure_group_ownership
create db actor id dto = company_of actor >>= λ company.
    ensure_group_ownership db actor company dto.group_id
    >> ok (record db {
      drivers =
          record {
            id = id;
            company_id = company;
            full_name = dto.full_name;
            group_id = dto.group_id;
            shift_id = dto.shift_id;
          }
          ∷ db.drivers;
    })

pub record DriverPatch : Type 0 where
  pub full_name : Option Text
  pub group_id : Change
  pub shift_id : Change

abbrev pub patched : DriverPatch → Driver → Driver
patched dto d = record d {
  full_name = or_old dto.full_name d.full_name;
  group_id = changed dto.group_id d.group_id;
  shift_id = changed dto.shift_id d.shift_id;
}

unfoldable pub update : Store → Actor → ℕ → DriverPatch → Result Store
unfolding ensure_group_ownership
update db actor id dto = or_throw (find_driver id db.drivers) not_found >>= λ d.
    throw_if (is_foreign actor d.company_id) forbidden
    >> ensure_group_ownership db actor d.company_id (reference dto.group_id)
    >> ok (record db { drivers = update_first (λ e. e.id == id) (patched dto) db.drivers })

unfoldable pub remove : Store → Actor → ℕ → Result Store
remove db actor id = or_throw (find_driver id db.drivers) not_found >>= λ d.
    throw_if (is_foreign actor d.company_id) forbidden
    >> ok (record db { drivers = filter (λ e. not (e.id == id)) db.drivers })

-- `groupByName` at a name: the last of the company's groups that is called so.
abbrev pub later {ℓ} : {A : Type ℓ} → Option A → Option A → Option A
later none earlier = earlier
later (some a) earlier = some a

unfoldable pub group_by_name : ℕ → Text → List Group → Option ℕ
group_by_name company name [] = none
group_by_name company name (g ∷ gs) =
    later (group_by_name company name gs)
      (if g.company_id == company && text_eq g.name name then some g.id else none)

-- A row: its full name, the name of its group, and the id that it gets if the database takes it.
pub record SheetRow : Type 0 where
  pub full_name : Text
  pub group_name : Option Text
  pub stored_as : Option ℕ

abbrev pub row_group : ℕ → Option Text → List Group → Option ℕ
row_group company none groups = none
row_group company (some name) groups = group_by_name company name groups

-- The rows that were stored and those that were refused.
pub record Import : Type 0 where
  pub store : Store
  pub created_count : ℕ
  pub error_count : ℕ

abbrev pub store_row : ℕ → Text → Option ℕ → Option ℕ → Import → Import
store_row company [] group stored i = record i { error_count = i.error_count + 1 }
store_row company (c ∷ name) group none i = record i { error_count = i.error_count + 1 }
store_row company (c ∷ name) group (some id) i = record i {
  store = record i.store {
    drivers =
        record {
          id = id;
          company_id = company;
          full_name = c ∷ name;
          group_id = group;
          shift_id = none;
        }
        ∷ i.store.drivers;
  };
  created_count = i.created_count + 1;
}

-- The groups are read once, before the rows.
unfoldable pub import_rows : ℕ → List Group → List SheetRow → Import → Import
unfolding group_by_name
import_rows company groups [] i = i
import_rows company groups (r ∷ rows) i =
    import_rows company groups rows
      (store_row company r.full_name (row_group company r.group_name groups) r.stored_as i)

unfoldable pub import_excel : Store → Actor → List SheetRow → Result Import
unfolding import_rows
import_excel db actor rows = company_of actor >>= λ company.
    ok (
      import_rows company db.groups rows
        (record { store = db; created_count = 0; error_count = 0 }))
