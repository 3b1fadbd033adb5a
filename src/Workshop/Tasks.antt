-- ===== src/Workshop/Tasks.antt =====
-- The calls of services/api/src/service-tasks/service-tasks.module.ts that guard, read and write
-- tasks and their attachments. Ids are numbers; of a task the fields are kept that other code
-- reads, of an attachment its size and type.
pub mod Ownership
pub mod Foreign
use fleex.Access.Ownership.{has_company, is_foreign}
use fleex.Common.{
  ℕ, ◌*◌, Bool, true, false, not, ◌&&◌, ◌||◌, Option, none, some, List, [], ◌∷◌, filter, find?,
  update_first, ltb, ◌==◌, is_id, if◌then◌else◌,
}
use fleex.Common.Results.{
  Result, ok, err, forbidden, bad_request, not_found, internal, ◌>>=◌, ◌>>◌, throw_if, or_throw,
}
use fleex.Common.Texts.{Text}
use fleex.Access.Roles.{Actor, is_super_admin}
use fleex.Workshop.Prediction.{Status}

pub record Device : Type 0 where
  pub id : ℕ
  pub company_id : ℕ

pub record Task : Type 0 where
  pub id : ℕ
  pub company_id : ℕ
  pub device_id : ℕ
  pub status : Status
  pub scheduled_at : Option ℕ
  pub completed_at : Option ℕ
  pub scheduled_odometer : Option ℕ
  pub created_by : ℕ

pub data Mime : Type 0 where
  jpeg png webp gif other : Mime

abbrev pub is_image : Mime → Bool
is_image other = false
is_image _ = true

pub record Attachment : Type 0 where
  pub id : ℕ
  pub task_id : ℕ
  pub mime : Mime
  pub size : ℕ

pub record Store : Type 0 where
  pub devices : List Device
  pub tasks : List Task
  pub attachments : List Attachment

-- A field of a body: absent, null or a text.
pub data Field (A : Type 0) : Type 0 where
  absent : Field A
  null : Field A
  given : A → Field A

-- `coerce` at a date; `parse` is `new Date(text).getTime()`, or none where that is NaN, as it is
-- at the empty text.
abbrev pub coerce_date : (Text → Option ℕ) → Field Text → Field ℕ
coerce_date parse absent = absent
coerce_date parse null = null
coerce_date parse (given text) = elim (parse text) [ none ↦ null | some time ↦ given time ]

abbrev pub written : Field ℕ → Option ℕ → Option ℕ
written absent old = old
written null old = none
written (given a) old = some a

abbrev pub status_or : Option Status → Status → Status
status_or none old = old
status_or (some s) old = s

pub record TaskDto : Type 0 where
  pub status : Option Status
  pub scheduled_at : Field Text
  pub completed_at : Field Text
  pub scheduled_odometer : Field ℕ

abbrev pub find_task : ℕ → List Task → Option Task
find_task id = find? (λ t. t.id == id)

abbrev pub find_device : ℕ → List Device → Option Device
find_device id = find? (λ d. d.id == id)

abbrev pub new_task : (Text → Option ℕ) → ℕ → Actor → ℕ → ℕ → TaskDto → Task
new_task parse id actor company device dto = record {
  id = id;
  company_id = company;
  device_id = device;
  status = status_or dto.status Status.planned;
  scheduled_at = written (coerce_date parse dto.scheduled_at) none;
  completed_at = written (coerce_date parse dto.completed_at) none;
  scheduled_odometer = written dto.scheduled_odometer none;
  created_by = actor.id;
}

abbrev pub patched : (Text → Option ℕ) → TaskDto → Task → Task
patched parse dto t = record t {
  status = status_or dto.status t.status;
  scheduled_at = written (coerce_date parse dto.scheduled_at) t.scheduled_at;
  completed_at = written (coerce_date parse dto.completed_at) t.completed_at;
  scheduled_odometer = written dto.scheduled_odometer t.scheduled_odometer;
}

module _ (parse : Text → Option ℕ) where
  -- The row gets the company of the actor; without one the database refuses it.
  unfoldable pub create : Store → Actor → ℕ → ℕ → TaskDto → Result Store
  create db actor id device dto =
      throw_if (not (has_company actor.company_id) && not (is_super_admin actor.role)) forbidden
      >> (or_throw (find_device device db.devices) not_found >>= λ dev.
          throw_if (is_foreign actor dev.company_id) forbidden
          >> (or_throw actor.company_id internal >>= λ company.
              ok (record db { tasks = new_task parse id actor company device dto ∷ db.tasks })))

  unfoldable pub update : Store → Actor → ℕ → TaskDto → Result Store
  update db actor id dto = or_throw (find_task id db.tasks) not_found >>= λ t.
      throw_if (is_foreign actor t.company_id) forbidden
      >> ok (record db { tasks = update_first (λ u. u.id == id) (patched parse dto) db.tasks })

-- The database deletes the attachments with the task.
unfoldable pub remove : Store → Actor → ℕ → Result Store
remove db actor id = or_throw (find_task id db.tasks) not_found >>= λ t.
    throw_if (is_foreign actor t.company_id) forbidden
    >> ok (record db {
      tasks = filter (λ u. not (u.id == id)) db.tasks;
      attachments = filter (λ a. not (a.task_id == id)) db.attachments;
    })

abbrev pub max_size : ℕ
max_size = 5 * 1024 * 1024

-- A file that was uploaded: its size and type, if it has a buffer.
unfoldable pub add_attachment : Store → Actor → ℕ → ℕ → Option (ℕ × Mime) → Result Store
add_attachment db actor task id none = err bad_request
add_attachment db actor task id (some (size, mime)) =
    throw_if (ltb max_size size) bad_request
    >> throw_if (not (is_image mime)) bad_request
    >> (or_throw (find_task task db.tasks) not_found >>= λ t.
        throw_if (is_foreign actor t.company_id) forbidden
        >> ok (record db {
          attachments =
              record { id = id; task_id = task; mime = mime; size = size } ∷ db.attachments;
        }))

-- The attachment, by its id and that of its task, and the task, whose company counts.
abbrev pub owned_attachment : Store → Actor → ℕ → ℕ → Result Attachment
owned_attachment db actor task id =
    or_throw (find? (λ a. a.id == id) db.attachments) not_found >>= λ a.
    throw_if (not (a.task_id == task)) not_found
    >> (or_throw (find_task a.task_id db.tasks) not_found >>= λ t.
        throw_if (is_foreign actor t.company_id) forbidden >> ok a)

unfoldable pub get_attachment : Store → Actor → ℕ → ℕ → Result Attachment
get_attachment db actor task id = owned_attachment db actor task id

unfoldable pub remove_attachment : Store → Actor → ℕ → ℕ → Result Store
remove_attachment db actor task id = owned_attachment db actor task id >>= λ a.
    ok (record db { attachments = filter (λ b. not (b.id == id)) db.attachments })
