-- ===== src/Fleet/Devices/References.antt =====
-- Which references of an update are looked up.
use fleex.Common.{ℕ, ◌≡◌, refl, some, ◌==◌, arith, update_first, find?-update_first}
use fleex.Common.Results.{ok, ◌>>◌, >>=-eq-ok, or_throw, not_found}
use fleex.Access.Roles.{Actor}
use fleex.Fleet.Devices.{
  Device, Store, find_device, ensure_same_tenant, ensure_child_ownership, set, reference, Patch,
  patched, update, uncache_changed,
}

-- An update that goes through goes through with any driver in it too, of whatever company, and
-- then the device has that driver: of the references only the group and the garage are looked up.
update_takes_any_driver :
    (db db' : Store) (id driver : ℕ) (actor : Actor) (p : Patch)
    → update db id actor p ≡ ok db'
    → (db'' : Store) × (d : Device) × (update db id actor
          (record p { driver_id = set (some driver) })
        ≡ ok db'')
      × (find_device id db''.devices ≡ some d)
      × (d.driver_id ≡ some driver)
unfolding update
update_takes_any_driver db db' id driver actor p h =
    let (target, found, h1) = >>=-eq-ok (or_throw (find_device id db.devices) not_found) _ h in
    let there : find_device id db.devices ≡ some target = ground (arith, found) in
    let (u, passed, h2) =
      >>=-eq-ok
        (ensure_same_tenant actor target.company_id
          >> ensure_child_ownership db actor target.company_id (reference p.group_id)
              (reference p.garage_id))
        _ h1 in
    let q : Patch = record p { driver_id = set (some driver) } in
    let after : Store = record db {
      devices = update_first (λ d. d.id == id) (patched q) db.devices;
      cached = uncache_changed target.imei p.imei db.cached;
    } in
    (
      after,
      patched q target,
      rw there (rw passed refl),
      find?-update_first (λ d. d.id == id) (patched q) db.devices target (λ x k. k) there,
      refl,
    )
