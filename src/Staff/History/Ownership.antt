-- ===== src/Staff/History/Ownership.antt =====
-- That no driver is in a group of another company.
use fleex.Common.{◌≡◌, refl, false, List, [], ◌∷◌, All}
use fleex.Common.Results.{Result, ok, err}
use fleex.Access.Roles.{Actor, is_super_admin}
use fleex.Staff.Groups.{Store}
use fleex.Staff.History.{
  Call, after, perform, run, IsGrouped, Keeps, creates_group, updates_group, removes_group,
  creates_shift, updates_shift, removes_shift, creates_driver, updates_driver, removes_driver,
  imports,
}
use fleex.Staff.History.Departments.{
  creates_group-Keeps, updates_group-Keeps, removes_group-Keeps, creates_shift-Keeps,
  updates_shift-Keeps, removes_shift-Keeps,
}
use fleex.Staff.History.Staffing.{creates_driver-Keeps, updates_driver-Keeps, removes_driver-Keeps}
use fleex.Staff.History.Imports.{imports-Keeps}

perform-Keeps :
    (db : Store) (actor : Actor) (call : Call)
    → is_super_admin actor.role ≡ false
    → IsGrouped db
    → Keeps db (perform db actor call)
perform-Keeps db actor (creates_group id name parent) plain s =
    creates_group-Keeps db actor s id name parent
perform-Keeps db actor (updates_group id name parent) plain s =
    updates_group-Keeps db actor s id name parent
perform-Keeps db actor (removes_group id) plain s = removes_group-Keeps db actor s id
perform-Keeps db actor (creates_shift id dto) plain s = creates_shift-Keeps db actor id dto s
perform-Keeps db actor (updates_shift id dto) plain s = updates_shift-Keeps db actor id dto s
perform-Keeps db actor (removes_shift id) plain s = removes_shift-Keeps db actor s id
perform-Keeps db actor (creates_driver id dto) plain s =
    creates_driver-Keeps db actor s id dto plain
perform-Keeps db actor (updates_driver id dto) plain s =
    updates_driver-Keeps db actor s id dto plain
perform-Keeps db actor (removes_driver id) plain s = removes_driver-Keeps db actor s id
perform-Keeps db actor (imports rows) plain s = imports-Keeps db actor rows s

after-IsGrouped :
    (db : Store) (r : Result Store) → IsGrouped db → Keeps db r → IsGrouped (after db r)
unfolding Keeps
after-IsGrouped db (ok db') s keeps = keeps db' refl
after-IsGrouped db (err e) s keeps = s

-- Over any history of calls by users who are not super admins, every driver who is in a group is
-- in one of his own company, if that was so at the start.
pub run-IsGrouped :
    (db : Store) (cs : List (Actor × Call))
    → All (λ c. is_super_admin c.0.role ≡ false) cs
    → IsGrouped db
    → IsGrouped (run db cs)
run-IsGrouped db [] plain s = s
run-IsGrouped db ((actor, call) ∷ cs) (p, plain) s =
    run-IsGrouped (after db (perform db actor call)) cs plain
      (after-IsGrouped db (perform db actor call) s (perform-Keeps db actor call p s))
