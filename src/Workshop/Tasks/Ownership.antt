-- ===== src/Workshop/Tasks/Ownership.antt =====
-- Histories of the calls of a company's users.
use fleex.Access.Ownership.{has_company, is_foreign}
use mathlib.Core.Path.{subst}
use fleex.Common.{
  ℕ, ◌≤◌, ◌≡◌, refl, Bool, true, false, not, ◌&&◌, Option, none, some, List, [], ◌∷◌, filter, any,
  All, All-imp, All-filter, All-update_first, any-find?, any-filter, any-update_first, ltb, ◌==◌,
  is_id, arith, find?-eq-some, ◌∙◌, Bool-cases, inl, inr,
}
use fleex.Common.Results.{
  Result, ok, err, forbidden, bad_request, not_found, internal, >>=-eq-ok, >>-eq-ok, or_throw-eq-ok,
  ok-inj, throw_if-eq-ok, throw_if, ◌>>◌, or_throw,
}
use fleex.Common.Texts.{Text}
use fleex.Access.Roles.{Actor, is_super_admin}
use fleex.Workshop.Tasks.{
  Device, Task, Mime, is_image, Attachment, Store, TaskDto, find_task, find_device, new_task,
  patched, create, update, remove, max_size, add_attachment, owned_attachment, remove_attachment,
}

pub data Call : Type 0 where
  creates : (id device : ℕ) → TaskDto → Call
  updates : ℕ → TaskDto → Call
  removes : ℕ → Call
  attaches : (task id : ℕ) → Option (ℕ × Mime) → Call
  detaches : (task id : ℕ) → Call

abbrev pub after : Store → Result Store → Store
after db (ok db') = db'
after db (err e) = db

module _ (parse : Text → Option ℕ) where
  abbrev pub perform : Store → Actor → Call → Result Store
  perform db actor (creates id device dto) = create parse db actor id device dto
  perform db actor (updates id dto) = update parse db actor id dto
  perform db actor (removes id) = remove db actor id
  perform db actor (attaches task id file) = add_attachment db actor task id file
  perform db actor (detaches task id) = remove_attachment db actor task id

  abbrev pub run : Store → List (Actor × Call) → Store
  run db [] = db
  run db ((actor, call) ∷ cs) = run (after db (perform db actor call)) cs

abbrev pub is_with : Task → Device → Bool
is_with t d = d.id == t.device_id && d.company_id == t.company_id

abbrev pub has_task : List Task → ℕ → Bool
has_task tasks id = any (λ t. t.id == id) tasks

abbrev pub IsStored : List Task → Attachment → Type 0
IsStored tasks a =
    (a.size ≤ max_size) × (is_image a.mime ≡ true) × (has_task tasks a.task_id ≡ true)

-- Each task is of a device that is there, with the device's company, and each attachment is an
-- image of at most 5 MB of a task that is there.
pub record IsSound (db : Store) : Type 0 where
  pub owned : All (λ t. any (is_with t) db.devices ≡ true) db.tasks
  pub attached : All (λ a. IsStored db.tasks a) db.attachments

abbrev pub IsOrdinary : Actor × Call → Type 0
IsOrdinary c = is_super_admin c.0.role ≡ false

Keeps : Store → Result Store → Type 0
Keeps db r = (db' : Store) → r ≡ ok db' → IsSound db'

found_owner :
    (super : Bool) (o : Option ℕ) (company dev : ℕ)
    → super ≡ false
    → o ≡ some company
    → (not super && not (is_id o dev)) ≡ false
    → (dev == company) ≡ true
found_owner super o company dev plain own h = ground (arith, plain, own, h)

create-Keeps :
    (parse : Text → Option ℕ) (db : Store) (actor : Actor) (id device : ℕ) (dto : TaskDto)
    → is_super_admin actor.role ≡ false
    → IsSound db
    → Keeps db (create parse db actor id device dto)
unfolding create Keeps
create-Keeps parse db actor id device dto plain s db' h =
    let (named, h1) =
      >>-eq-ok (not (has_company actor.company_id) && not (is_super_admin actor.role)) forbidden _
        h in
    let (dev, found, h2) = >>=-eq-ok (or_throw (find_device device db.devices) not_found) _ h1 in
    let (mine, h3) = >>-eq-ok (is_foreign actor dev.company_id) forbidden _ h2 in
    let (company, own, h4) = >>=-eq-ok (or_throw actor.company_id internal) _ h3 in
    let there = or_throw-eq-ok (find_device device db.devices) not_found found in
    let t = new_task parse id actor company device dto in
    let same_id = find?-eq-some (λ d. d.id == device) db.devices dev there in
    let same_company =
      found_owner (is_super_admin actor.role) actor.company_id company dev.company_id plain
        (or_throw-eq-ok actor.company_id internal own) mine in
    let s' : IsSound (record db { tasks = t ∷ db.tasks }) = record {
      owned = (
        any-find? (λ d. d.id == device) (is_with t) db.devices dev there
            (rw same_id (rw same_company refl)),
        s.owned,
      );
      attached = All-imp db.attachments (λ a k. (k.0, k.1, ground (arith, k.2))) s.attached;
    } in
    subst IsSound (ok-inj h4) s'

update-Keeps :
    (parse : Text → Option ℕ) (db : Store) (actor : Actor) (id : ℕ) (dto : TaskDto)
    → IsSound db
    → Keeps db (update parse db actor id dto)
unfolding update Keeps
update-Keeps parse db actor id dto s db' h =
    let (t, found, h1) = >>=-eq-ok (or_throw (find_task id db.tasks) not_found) _ h in
    let (mine, h2) = >>-eq-ok (is_foreign actor t.company_id) forbidden _ h1 in
    subst IsSound (ok-inj h2) (record {
      owned = All-update_first (λ u. u.id == id) (patched parse dto) db.tasks (λ u k. k) s.owned;
      attached =
          All-imp db.attachments
            (λ a k. (
              k.0,
              k.1,
              any-update_first (λ u. u.id == id) (λ u. u.id == a.task_id) (patched parse dto)
                    db.tasks (λ u. refl)
                  ∙ k.2,
            ))
            s.attached;
    })

IsStored-without :
    (id : ℕ) (tasks : List Task) (rows : List Attachment)
    → All (λ a. IsStored tasks a) rows
    → All
        (λ a. IsStored (filter (λ u. not (u.id == id)) tasks) a)
        (filter (λ a. not (a.task_id == id)) rows)
IsStored-without id tasks [] h = tt
IsStored-without id tasks (a ∷ rows) ((small, image, there), h) =
    let rest = IsStored-without id tasks rows h in
    elim (Bool-cases (a.task_id == id)) [
      | inl e ↦ rw e rest
      | inr e ↦
          let kept =
            any-filter (λ u. not (u.id == id)) (λ u. u.id == a.task_id) tasks
              (λ u k. ground (arith, e, k)) in
          rw e ((small, image, kept ∙ there), rest)
    ]

remove-Keeps : (db : Store) (actor : Actor) (id : ℕ) → IsSound db → Keeps db (remove db actor id)
unfolding remove Keeps
remove-Keeps db actor id s db' h =
    let (t, found, h1) = >>=-eq-ok (or_throw (find_task id db.tasks) not_found) _ h in
    let (mine, h2) = >>-eq-ok (is_foreign actor t.company_id) forbidden _ h1 in
    subst IsSound (ok-inj h2) (record {
      owned = All-filter _ (λ u. not (u.id == id)) db.tasks s.owned;
      attached = IsStored-without id db.tasks db.attachments s.attached;
    })

add_attachment-Keeps :
    (db : Store) (actor : Actor) (task id : ℕ) (file : Option (ℕ × Mime))
    → IsSound db
    → Keeps db (add_attachment db actor task id file)
unfolding add_attachment Keeps
add_attachment-Keeps db actor task id none s db' h = cc
add_attachment-Keeps db actor task id (some (size, mime)) s db' h =
    let fits = throw_if (ltb max_size size) bad_request in
    let shows = throw_if (not (is_image mime)) bad_request in
    let (u, passed, h2) = >>=-eq-ok (fits >> shows) _ h in
    let (small, two) = >>-eq-ok (ltb max_size size) bad_request shows passed in
    let image = throw_if-eq-ok (not (is_image mime)) bad_request two in
    let (t, found, h3) = >>=-eq-ok (or_throw (find_task task db.tasks) not_found) _ h2 in
    let (mine, h4) = >>-eq-ok (is_foreign actor t.company_id) forbidden _ h3 in
    let there = or_throw-eq-ok (find_task task db.tasks) not_found found in
    let named = find?-eq-some (λ t. t.id == task) db.tasks t there in
    subst IsSound (ok-inj h4) (record {
      owned = s.owned;
      attached = (
        (
          ground (arith, small),
          ground (arith, image),
          any-find? (λ t. t.id == task) (λ t. t.id == task) db.tasks t there named,
        ),
        s.attached,
      );
    })

remove_attachment-Keeps :
    (db : Store) (actor : Actor) (task id : ℕ)
    → IsSound db
    → Keeps db (remove_attachment db actor task id)
unfolding remove_attachment Keeps
remove_attachment-Keeps db actor task id s db' h =
    let (a, found, h1) = >>=-eq-ok (owned_attachment db actor task id) _ h in
    subst IsSound (ok-inj h1) (record {
      owned = s.owned;
      attached = All-filter _ (λ b. not (b.id == id)) db.attachments s.attached;
    })

after-IsSound : (db : Store) (r : Result Store) → IsSound db → Keeps db r → IsSound (after db r)
unfolding Keeps
after-IsSound db (ok db') s keeps = keeps db' refl
after-IsSound db (err e) s keeps = s

perform-Keeps :
    (parse : Text → Option ℕ) (db : Store) (actor : Actor) (call : Call)
    → is_super_admin actor.role ≡ false
    → IsSound db
    → Keeps db (perform parse db actor call)
perform-Keeps parse db actor (creates id device dto) plain s =
    create-Keeps parse db actor id device dto plain s
perform-Keeps parse db actor (updates id dto) plain s = update-Keeps parse db actor id dto s
perform-Keeps parse db actor (removes id) plain s = remove-Keeps db actor id s
perform-Keeps parse db actor (attaches task id file) plain s =
    add_attachment-Keeps db actor task id file s
perform-Keeps parse db actor (detaches task id) plain s = remove_attachment-Keeps db actor task id s

-- Over any history of calls by users who are not super admins, every task stays one of a device
-- that is there and of that device's company, and every attachment an image of at most 5 MB of a
-- task that is there.
pub run-IsSound :
    (parse : Text → Option ℕ) (db : Store) (cs : List (Actor × Call))
    → All IsOrdinary cs
    → IsSound db
    → IsSound (run parse db cs)
run-IsSound parse db [] plain s = s
run-IsSound parse db ((actor, call) ∷ cs) (p, plain) s =
    run-IsSound parse (after db (perform parse db actor call)) cs plain
      (after-IsSound db (perform parse db actor call) s (perform-Keeps parse db actor call p s))
