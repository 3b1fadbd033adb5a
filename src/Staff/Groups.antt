-- ===== src/Staff/Groups.antt =====
-- services/api/src/groups/groups.module.ts, and the tables of the three modules. Names are texts
-- in lower case; descriptions, colours and the data of a licence are left out, and so are the
-- devices of a group.
use fleex.Access.Ownership.{company_of, is_foreign}
use fleex.Common.{
  ℕ, Bool, not, Option, none, List, ◌∷◌, filter, find?, update_first, update_many, ◌==◌, is_id,
  or_old,
}
use fleex.Common.Results.{Result, ok, forbidden, not_found, ◌>>=◌, ◌>>◌, throw_if, or_throw}
use fleex.Common.Texts.{Text}
use fleex.Access.Roles.{Actor}
use fleex.Fleet.Devices.{Change, changed}

pub record Group : Type 0 where
  pub id : ℕ
  pub company_id : ℕ
  pub name : Text
  pub parent_id : Option ℕ

-- Times are minutes of the day.
pub record Shift : Type 0 where
  pub id : ℕ
  pub company_id : ℕ
  pub start_time : ℕ
  pub end_time : ℕ
  pub parent_id : Option ℕ
  pub active : Bool

pub record Driver : Type 0 where
  pub id : ℕ
  pub company_id : ℕ
  pub full_name : Text
  pub group_id : Option ℕ
  pub shift_id : Option ℕ

pub record Store : Type 0 where
  pub groups : List Group
  pub shifts : List Shift
  pub drivers : List Driver

abbrev pub find_group : ℕ → List Group → Option Group
find_group id = find? (λ g. g.id == id)

unfoldable pub create : Store → Actor → ℕ → Text → Option ℕ → Result Store
create db actor id name parent = company_of actor >>= λ company. ok (record db {
  groups = record { id = id; company_id = company; name = name; parent_id = parent } ∷ db.groups;
})

abbrev pub patched : Option Text → Change → Group → Group
patched name parent g = record g {
  name = or_old name g.name;
  parent_id = changed parent g.parent_id;
}

unfoldable pub update : Store → Actor → ℕ → Option Text → Change → Result Store
update db actor id name parent = or_throw (find_group id db.groups) not_found >>= λ g.
    throw_if (is_foreign actor g.company_id) forbidden
    >> ok (record db { groups = update_first (λ h. h.id == id) (patched name parent) db.groups })

abbrev pub orphan : Group → Group
orphan g = record g { parent_id = none }

abbrev pub leave_group : Driver → Driver
leave_group d = record d { group_id = none }

-- The foreign keys of the drivers and of the groups below are set to null with the row.
unfoldable pub remove : Store → Actor → ℕ → Result Store
remove db actor id = or_throw (find_group id db.groups) not_found >>= λ g.
    throw_if (is_foreign actor g.company_id) forbidden
    >> ok (record db {
      groups =
          update_many (λ h. is_id h.parent_id id) orphan (filter (λ h. not (h.id == id)) db.groups);
      drivers = update_many (λ d. is_id d.group_id id) leave_group db.drivers;
    })
