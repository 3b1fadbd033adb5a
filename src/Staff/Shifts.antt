-- ===== src/Staff/Shifts.antt =====
-- services/api/src/shifts/shifts.module.ts.
pub mod Cycles
use fleex.Access.Ownership.{has_company, is_foreign}
use fleex.Common.{
  ℕ, Bool, true, false, not, ◌&&◌, ◌||◌, Option, none, some, List, [], ◌∷◌, filter, find?,
  update_first, update_many, ◌==◌, is_id, if◌then◌else◌, or_old,
}
use fleex.Common.Results.{
  Result, ok, err, forbidden, bad_request, not_found, internal, ◌>>=◌, ◌>>◌, throw_if, or_throw,
}
use fleex.Access.Roles.{Actor, is_super_admin}
use fleex.Fleet.Devices.{Change, changed, reference}
use fleex.Staff.Groups.{Shift, Driver, Store}

abbrev pub find_shift : ℕ → List Shift → Option Shift
find_shift id = find? (λ s. s.id == id)

-- The parent of a new shift is there, and not of another company.
abbrev pub check_parent : Store → Actor → Option ℕ → Result (Unit {0})
check_parent db actor none = ok tt
check_parent db actor (some id) = or_throw (find_shift id db.shifts) bad_request >>= λ parent.
    throw_if (is_foreign actor parent.company_id) bad_request

pub record ShiftDto : Type 0 where
  pub start_time : ℕ
  pub end_time : ℕ
  pub parent_id : Option ℕ
  pub active : Option Bool

-- The parent is looked up between the check of the user and the insertion.
unfoldable pub create : Store → Actor → ℕ → ShiftDto → Result Store
create db actor id dto =
    throw_if (not (has_company actor.company_id) && not (is_super_admin actor.role)) forbidden
    >> check_parent db actor dto.parent_id
    >> (or_throw actor.company_id internal >>= λ company. ok (record db {
      shifts =
          record {
            id = id;
            company_id = company;
            start_time = dto.start_time;
            end_time = dto.end_time;
            parent_id = dto.parent_id;
            active = or_old dto.active true;
          }
          ∷ db.shifts;
    }))

pub record ShiftPatch : Type 0 where
  pub start_time : Option ℕ
  pub end_time : Option ℕ
  pub parent_id : Change
  pub active : Option Bool

abbrev pub patched : ShiftPatch → Shift → Shift
patched dto s = record s {
  start_time = or_old dto.start_time s.start_time;
  end_time = or_old dto.end_time s.end_time;
  parent_id = changed dto.parent_id s.parent_id;
  active = or_old dto.active s.active;
}

unfoldable pub update : Store → Actor → ℕ → ShiftPatch → Result Store
update db actor id dto = or_throw (find_shift id db.shifts) not_found >>= λ s.
    throw_if (is_foreign actor s.company_id) forbidden
    >> throw_if (is_id (reference dto.parent_id) id) bad_request
    >> ok (record db { shifts = update_first (λ t. t.id == id) (patched dto) db.shifts })

abbrev pub orphan : Shift → Shift
orphan s = record s { parent_id = none }

abbrev pub leave_shift : Driver → Driver
leave_shift d = record d { shift_id = none }

unfoldable pub remove : Store → Actor → ℕ → Result Store
remove db actor id = or_throw (find_shift id db.shifts) not_found >>= λ s.
    throw_if (is_foreign actor s.company_id) forbidden
    >> ok (record db {
      shifts =
          update_many (λ t. is_id t.parent_id id) orphan (filter (λ t. not (t.id == id)) db.shifts);
      drivers = update_many (λ d. is_id d.shift_id id) leave_shift db.drivers;
    })
