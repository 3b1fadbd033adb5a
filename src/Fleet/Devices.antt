-- ===== src/Fleet/Devices.antt =====
-- `update`, `remove`, `transfer` and the rows of `importExcel` of
-- services/api/src/devices/devices.service.ts. Ids are numbers; of a vehicle the fields are kept
-- that tie it to other rows, its IMEI and its name. Of the rows that carry a device's company
-- those of sensors, service tasks, trips and positions are one table each of the same form.
pub mod Tenancy
pub mod References
pub mod Sheet
pub mod Imports
use fleex.Common.{
  ℕ, ◌+◌, ◌-◌, Bool, true, false, not, ◌&&◌, ◌||◌, Option, none, some, List, [], ◌∷◌, ◌++◌, any,
  filter, find?, map, length, update_first, update_many, ltb, leb, ◌==◌, same_id, is_id,
  if◌then◌else◌,
}
use fleex.Common.Results.{
  Result, ok, err, forbidden, bad_request, not_found, ◌>>=◌, ◌>>◌, throw_if, or_throw,
}
use fleex.Common.Texts.{Text, text_eq, is_digit}
use fleex.Access.Roles.{Actor, is_super_admin}

pub record Device : Type 0 where
  pub id : ℕ
  pub imei : Text
  pub name : Text
  pub company_id : ℕ
  pub group_id : Option ℕ
  pub garage_id : Option ℕ
  pub driver_id : Option ℕ

pub record EventRow : Type 0 where
  pub device_id : ℕ
  pub company_id : ℕ
  pub geofence_id : Option ℕ

-- A row of a sensor, a service task, a trip or a position.
pub record ChildRow : Type 0 where
  pub device_id : ℕ
  pub company_id : ℕ

pub record RuleRow : Type 0 where
  pub company_id : ℕ
  pub device_ids : List ℕ

pub record Company : Type 0 where
  pub id : ℕ
  pub is_active : Bool

-- A device group or a garage; the name is in lower case.
pub record Unit_ : Type 0 where
  pub id : ℕ
  pub company_id : ℕ
  pub name : Text

-- `field_values` holds the id of the entity of each value; `cached` are the IMEIs with an entry
-- `ingestor:dev:<imei>` in Redis.
pub record Store : Type 0 where
  pub companies : List Company
  pub groups : List Unit_
  pub garages : List Unit_
  pub devices : List Device
  pub events : List EventRow
  pub sensors : List ChildRow
  pub service_tasks : List ChildRow
  pub trips : List ChildRow
  pub positions : List ChildRow
  pub field_values : List ℕ
  pub rules : List RuleRow
  pub cached : List Text

abbrev pub find_device : ℕ → List Device → Option Device
find_device id = find? (λ d. d.id == id)

abbrev pub ensure_same_tenant : Actor → ℕ → Result (Unit {0})
ensure_same_tenant actor company =
    throw_if (not (is_super_admin actor.role) && not (is_id actor.company_id company)) forbidden

abbrev pub owns : ℕ → List Unit_ → Option ℕ → Bool
owns company rows none = true
owns company rows (some id) = any (λ r. r.id == id && r.company_id == company) rows

unfoldable pub ensure_child_ownership : Store → Actor → ℕ → Option ℕ → Option ℕ → Result (Unit {0})
ensure_child_ownership db actor company group garage =
    if is_super_admin actor.role
    then ok tt
    else throw_if (not (owns company db.groups group)) forbidden
      >> throw_if (not (owns company db.garages garage)) forbidden

-- The body of an update: a field that it does not name, or one that it sets to a value or to null.
pub data Change : Type 0 where
  keep : Change
  set : Option ℕ → Change

abbrev pub changed : Change → Option ℕ → Option ℕ
changed keep old = old
changed (set new) old = new

-- The reference that `ensureChildOwnership` looks at.
abbrev pub reference : Change → Option ℕ
reference keep = none
reference (set new) = new

pub record Patch : Type 0 where
  pub imei : Option Text
  pub name : Option Text
  pub group_id : Change
  pub garage_id : Change
  pub driver_id : Change

abbrev pub or_else {ℓ} : {A : Type ℓ} → Option A → A → A
or_else none a = a
or_else (some b) a = b

-- `coerceVehicleFields` takes the company out of an update.
abbrev pub patched : Patch → Device → Device
patched p d = record d {
  imei = or_else p.imei d.imei;
  name = or_else p.name d.name;
  group_id = changed p.group_id d.group_id;
  garage_id = changed p.garage_id d.garage_id;
  driver_id = changed p.driver_id d.driver_id;
}

abbrev pub uncache : Text → List Text → List Text
uncache imei = filter (λ t. not (text_eq t imei))

-- The entries of the old and of the new IMEI go when it changes.
abbrev pub uncache_changed : Text → Option Text → List Text → List Text
uncache_changed old none cached = cached
uncache_changed old (some new) cached =
    if text_eq new old then cached else uncache new (uncache old cached)

unfoldable pub update : Store → ℕ → Actor → Patch → Result Store
unfolding ensure_child_ownership
update db id actor p = or_throw (find_device id db.devices) not_found >>= λ target.
    ensure_same_tenant actor target.company_id
    >> ensure_child_ownership db actor target.company_id (reference p.group_id)
        (reference p.garage_id)
    >> ok (record db {
      devices = update_first (λ d. d.id == id) (patched p) db.devices;
      cached = uncache_changed target.imei p.imei db.cached;
    })

-- The deletion itself; what the database deletes with the row is left out.
unfoldable pub remove : Store → ℕ → Actor → Result Store
remove db id actor = or_throw (find_device id db.devices) not_found >>= λ target.
    ensure_same_tenant actor target.company_id
    >> ok (record db {
      devices = filter (λ d. not (d.id == id)) db.devices;
      cached = uncache target.imei db.cached;
    })

abbrev pub move_device : ℕ → Device → Device
move_device to d = record d { company_id = to; group_id = none; garage_id = none; driver_id = none }

abbrev pub move_event : ℕ → EventRow → EventRow
move_event to e = record e { company_id = to; geofence_id = none }

abbrev pub move_child : ℕ → ChildRow → ChildRow
move_child to r = record r { company_id = to }

abbrev pub move_children : ℕ → ℕ → List ChildRow → List ChildRow
move_children id to = update_many (λ r. r.device_id == id) (move_child to)

abbrev pub without : ℕ → List ℕ → List ℕ
without id = filter (λ d. not (d == id))

abbrev pub unlist : ℕ → RuleRow → RuleRow
unlist id r = record r { device_ids = without id r.device_ids }

-- The transaction of `transfer`, and the entry of the cache.
unfoldable pub move : Store → ℕ → Text → ℕ → Store
move db id imei to = record db {
  devices = update_first (λ d. d.id == id) (move_device to) db.devices;
  events = update_many (λ e. e.device_id == id) (move_event to) db.events;
  sensors = move_children id to db.sensors;
  service_tasks = move_children id to db.service_tasks;
  trips = move_children id to db.trips;
  positions = move_children id to db.positions;
  field_values = without id db.field_values;
  rules = map (unlist id) db.rules;
  cached = uncache imei db.cached;
}

unfoldable pub transfer : Store → ℕ → Actor → ℕ → Result Store
unfolding move
transfer db id actor company =
    throw_if (not (is_super_admin actor.role)) forbidden
    >> (or_throw (find_device id db.devices) not_found >>= λ device.
        throw_if (device.company_id == company) bad_request
        >> (or_throw (find? (λ c. c.id == company) db.companies) not_found >>= λ target.
            throw_if (not target.is_active) bad_request >> ok (move db id device.imei target.id)))
