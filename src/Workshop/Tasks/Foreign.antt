-- ===== src/Workshop/Tasks/Foreign.antt =====
-- What the guard on creation lets a super admin do.
use fleex.Common.{ℕ, ◌≡◌, refl, ◌≢◌, true, false, Option, some, ◌∷◌, ◌==◌, arith}
use fleex.Common.Results.{ok, err, forbidden}
use fleex.Common.Texts.{Text}
use fleex.Access.Roles.{Actor, is_super_admin}
use fleex.Workshop.Tasks.{Device, Store, TaskDto, find_device, new_task, create, update}

-- A super admin with a company creates tasks for the devices of any other, which get his own
-- company: the users of the device's company cannot change the new task.
super_task_is_foreign :
    (parse : Text → Option ℕ) (db : Store) (actor user : Actor) (id device company : ℕ)
    (dto dto' : TaskDto) (dev : Device)
    → is_super_admin actor.role ≡ true
    → actor.company_id ≡ some company
    → find_device device db.devices ≡ some dev
    → is_super_admin user.role ≡ false
    → user.company_id ≡ some dev.company_id
    → dev.company_id ≢ company
    → let db' = record db { tasks = new_task parse id actor company device dto ∷ db.tasks } in
      (create parse db actor id device dto ≡ ok db')
      × (update parse db' user id dto' ≡ err forbidden)
unfolding create update
super_task_is_foreign parse db actor user id device company dto dto' dev super own found plain mine
      ne =
    let here : (id == id) ≡ true = ground arith in
    let other : (dev.company_id == company) ≡ false = ground (arith, ne) in
    (rw super (rw found (rw own refl)), rw here (rw plain (rw mine (rw other refl))))
