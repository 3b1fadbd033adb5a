-- ===== src/Staff/Tests.antt =====
-- The theorems of Staff at one company.
use fleex.Common.{refl, true, none, some, List, [], ◌∷◌, ℕ}
use fleex.Common.Texts.{codes}
use fleex.Access.Roles.{Actor, fleet_manager}
use fleex.Staff.Groups.{Shift, Store}
use fleex.Staff.History.{
  Call, creates_group, removes_group, creates_driver, imports, IsGrouped, run,
}
use fleex.Staff.History.Ownership.{run-IsGrouped}

abbrev manager : Actor
manager = record { id = 2; role = fleet_manager; company_id = some 3; driver_id = none }

abbrev stranger : Actor
stranger = record { id = 5; role = fleet_manager; company_id = some 4; driver_id = none }

abbrev shift_of : ℕ → Shift
shift_of id = record {
  id = id;
  company_id = 3;
  start_time = 480;
  end_time = 1020;
  parent_id = none;
  active = true;
}

abbrev db : Store
db = record { groups = []; shifts = shift_of 20 ∷ shift_of 21 ∷ []; drivers = [] }

-- A group and a driver in it, one of another company who asks for it, an import and a removal.
abbrev a_history : List (Actor × Call)
a_history =
    (manager, creates_group 30 (codes "north") none)
    ∷ (
      manager,
      creates_driver 40 (record { full_name = codes "Bat"; group_id = some 30; shift_id = none }),
    )
    ∷ (
      stranger,
      creates_driver 41 (record { full_name = codes "Od"; group_id = some 30; shift_id = none }),
    )
    ∷ (
      manager,
      imports (
          record {
            full_name = codes "Dorj";
            group_name = some (codes "north");
            stored_as = some 42;
          }
          ∷ []),
    )
    ∷ (manager, removes_group 30)
    ∷ []

run-IsGrouped_example : IsGrouped (run db a_history)
run-IsGrouped_example = run-IsGrouped db a_history (refl, (refl, (refl, (refl, (refl, tt))))) tt
