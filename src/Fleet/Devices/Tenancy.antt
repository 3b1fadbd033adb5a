-- ===== src/Fleet/Devices/Tenancy.antt =====
-- That rows stay with the company of their device, and what an update may touch.
use fleex.Common.{
  ℕ, ◌≡◌, refl, ap, sym, ◌∙◌, true, false, not, Option, none, some, List, [], ◌∷◌, map, find?, ◌==◌,
  if◌then◌else◌, arith, All, Bool-cases, inl, inr, ◌⊎◌, update_first, update_many,
  find?-update_first, find?-eq-some, contains,
}
use fleex.Common.Results.{ok, >>=-eq-ok, >>-eq-ok, or_throw, forbidden, not_found, bad_request}
use mathlib.Core.Path.{subst}
use fleex.Access.Roles.{Actor, is_super_admin}
use fleex.Fleet.Devices.{
  Device, EventRow, ChildRow, RuleRow, Company, Store, find_device, move_device, move_event,
  move_children, without, unlist, move, transfer,
}

-- The company of the device with an id.
abbrev pub company_of : ℕ → List Device → Option ℕ
company_of id [] = none
company_of id (d ∷ ds) = if d.id == id then some d.company_id else company_of id ds

-- A row with the id of a device and a company: there is no such device, or it is the device's
-- company.
abbrev pub IsHome : List Device → ℕ → ℕ → Type 0
IsHome devices device company =
    (company_of device devices ≡ none) ⊎ (company_of device devices ≡ some company)

abbrev pub AreHome : List Device → List ChildRow → Type 0
AreHome devices = All {0, 0} (λ r. IsHome devices r.device_id r.company_id)

abbrev pub IsConsistent : Store → Type 0
IsConsistent db =
    All {0, 0} (λ e. IsHome db.devices e.device_id e.company_id) db.events
    × (AreHome db.devices db.sensors
        × (AreHome db.devices db.service_tasks
            × (AreHome db.devices db.trips × AreHome db.devices db.positions)))

module _ (id to : ℕ) where
  company_of-other :
      (devices : List Device) (k : ℕ)
      → (k == id) ≡ false
      → company_of k (update_first (λ d. d.id == id) (move_device to) devices)
        ≡ company_of k devices
  company_of-other [] k h = refl
  company_of-other (d ∷ ds) k h = ground (arith, h, company_of-other ds k h)

  company_of-moved :
      (devices : List Device) (d : Device)
      → find_device id devices ≡ some d
      → company_of id (update_first (λ d. d.id == id) (move_device to) devices) ≡ some to
  company_of-moved [] d h = cc
  company_of-moved (x ∷ xs) d h = ground (arith, h, company_of-moved xs d)

  module _ (devices : List Device) (d : Device) (found : find_device id devices ≡ some d) where
    abbrev moved : List Device
    moved = update_first (λ d. d.id == id) (move_device to) devices

    moved_here : (device : ℕ) → (device == id) ≡ true → IsHome moved device to
    moved_here device e =
        let same : device ≡ id = ground (arith, e) in
        inr (ap (λ k. company_of k moved) same ∙ company_of-moved devices d found)

    moved_other :
        (device company : ℕ)
        → (device == id) ≡ false
        → IsHome devices device company
        → IsHome moved device company
    moved_other device company e h =
        let other = company_of-other devices device e in ground (arith, h, other)

    move_children-AreHome :
        (rows : List ChildRow) → AreHome devices rows → AreHome moved (move_children id to rows)
    move_children-AreHome [] h = tt
    move_children-AreHome (r ∷ rs) (h, hs) = elim (Bool-cases (r.device_id == id)) [
      | inl e ↦ rw e (moved_here r.device_id e, move_children-AreHome rs hs)
      | inr e ↦ rw e (moved_other r.device_id r.company_id e h, move_children-AreHome rs hs)
    ]

    move_events-AreHome :
        (rows : List EventRow)
        → All {0, 0} (λ e. IsHome devices e.device_id e.company_id) rows
        → All {0, 0}
            (λ e. IsHome moved e.device_id e.company_id)
            (update_many (λ e. e.device_id == id) (move_event to) rows)
    move_events-AreHome [] h = tt
    move_events-AreHome (r ∷ rs) (h, hs) = elim (Bool-cases (r.device_id == id)) [
      | inl e ↦ rw e (moved_here r.device_id e, move_events-AreHome rs hs)
      | inr e ↦ rw e (moved_other r.device_id r.company_id e h, move_events-AreHome rs hs)
    ]

-- What a transfer that goes through met: a super admin, a device of another company, and a company
-- that is there and active.
abbrev IsTransfer : Store → Store → ℕ → Actor → ℕ → Type 0
IsTransfer db db' id actor company =
    (is_super_admin actor.role ≡ true)
    × ((d : Device) × ((find_device id db.devices ≡ some d)
          × (((d.company_id == company) ≡ false)
              × ((c : Company) × ((find? (λ x. x.id == company) db.companies ≡ some c)
                    × ((c.is_active ≡ true) × (db' ≡ move db id d.imei c.id)))))))

transfer-eq-ok :
    (db db' : Store) (id : ℕ) (actor : Actor) (company : ℕ)
    → transfer db id actor company ≡ ok db'
    → IsTransfer db db' id actor company
unfolding transfer
transfer-eq-ok db db' id actor company h =
    let (role, h1) = >>-eq-ok (not (is_super_admin actor.role)) forbidden _ h in
    let (d, found, h2) = >>=-eq-ok (or_throw (find_device id db.devices) not_found) _ h1 in
    let (other, h3) = >>-eq-ok (d.company_id == company) bad_request _ h2 in
    let (c, there, h4) =
      >>=-eq-ok (or_throw (find? (λ x. x.id == company) db.companies) not_found) _ h3 in
    let (active, h5) = >>-eq-ok (not c.is_active) bad_request _ h4 in
    let device : find_device id db.devices ≡ some d = ground (arith, found) in
    let target : find? (λ x. x.id == company) db.companies ≡ some c = ground (arith, there) in
    (
      ground (arith, role),
      (d, (device, (other, (c, (target, (ground (arith, active), ground (arith, h5))))))),
    )

-- A transfer that goes through keeps every event, sensor, service task, trip and position with the
-- company of its device.
pub transfer-IsConsistent :
    (db db' : Store) (id : ℕ) (actor : Actor) (company : ℕ)
    → transfer db id actor company ≡ ok db'
    → IsConsistent db
    → IsConsistent db'
unfolding move
transfer-IsConsistent db db' id actor company h (events, (sensors, (tasks, (trips, positions)))) =
    let (role, (d, (found, (other, (c, (there, (active, e))))))) =
      transfer-eq-ok db db' id actor company h in
    subst IsConsistent (sym e) (
      move_events-AreHome id c.id db.devices d found db.events events,
      (
        move_children-AreHome id c.id db.devices d found db.sensors sensors,
        (
          move_children-AreHome id c.id db.devices d found db.service_tasks tasks,
          (
            move_children-AreHome id c.id db.devices d found db.trips trips,
            move_children-AreHome id c.id db.devices d found db.positions positions,
          ),
        ),
      ),
    )

contains-without : (id : ℕ) (xs : List ℕ) → contains (without id xs) id ≡ false
contains-without id [] = refl
contains-without id (x ∷ xs) = ground (arith, contains-without id xs)

unlisted_rules :
    (id : ℕ) (rules : List RuleRow)
    → All {0, 0} (λ r. contains r.device_ids id ≡ false) (map (unlist id) rules)
unlisted_rules id [] = tt
unlisted_rules id (r ∷ rs) = (contains-without id r.device_ids, unlisted_rules id rs)

-- A transfer that goes through was made by a super admin to another company that is active; the
-- device is then that company's, with no group, garage or driver, no notification rule lists it,
-- and no value of a custom field is left of it.
transfer_effect :
    (db db' : Store) (id : ℕ) (actor : Actor) (company : ℕ)
    → transfer db id actor company ≡ ok db'
    → (is_super_admin actor.role ≡ true)
      × ((d : Device) × ((find_device id db.devices ≡ some d)
            × ((find_device id db'.devices ≡ some (move_device company d))
                × (All {0, 0} (λ r. contains r.device_ids id ≡ false) db'.rules
                    × (contains db'.field_values id ≡ false)))))
unfolding move
transfer_effect db db' id actor company h =
    let (role, (d, (found, (other, (c, (there, (active, e))))))) =
      transfer-eq-ok db db' id actor company h in
    let same : (c.id == company) ≡ true =
      find?-eq-some (λ x. x.id == company) db.companies c there in
    let to : c.id ≡ company = ground (arith, same) in
    rw e (
      rw to (
        role,
        (
          d,
          (
            found,
            (
              find?-update_first (λ x. x.id == id) (move_device company) db.devices d (λ x k. k)
                  found,
              (unlisted_rules id db.rules, contains-without id db.field_values),
            ),
          ),
        ),
      ))
