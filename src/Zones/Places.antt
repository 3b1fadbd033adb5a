-- ===== src/Zones/Places.antt =====
-- services/api/src/places/places.module.ts: places, and the circle that stands for a place among
-- the geofences. The kind, the address, the description and the look of a place are left out.
pub mod Mirror
use fleex.Access.Ownership.{has_company, is_foreign}
use fleex.Common.{
  ℕ, ℤ, pos, Bool, true, false, not, ◌&&◌, ◌||◌, Option, none, some, List, [], ◌∷◌, filter, find?,
  update_first, update_many, ◌==◌, is_id, if◌then◌else◌, or_old,
}
use fleex.Common.Results.{
  Result, ok, err, forbidden, not_found, internal, ◌>>=◌, ◌>>◌, throw_if, or_throw,
}
use fleex.Access.Roles.{Actor, is_super_admin}
use fleex.Zones.Geofences.{
  Geometry, Geofence, circle, Place, Store, find_place, without_geofence, unlink,
}

-- The number of metres of a buffer, if there is one.
abbrev pub buffer : Option ℕ → Option ℕ
buffer none = none
buffer (some r) = if r == 0 then none else some r

abbrev pub circle_of : Place → ℕ → Geometry
circle_of p r = record {
  lat = some p.latitude;
  lng = some p.longitude;
  radius = some (pos r);
  points = none;
}

abbrev pub mirror : Place → ℕ → Geofence → Geofence
mirror p r g = record g { name = p.name; geometry = circle_of p r; active = p.active }

abbrev pub new_mirror : ℕ → Place → ℕ → Geofence
new_mirror id p r = record {
  id = id;
  company_id = p.company_id;
  name = p.name;
  shape = circle;
  geometry = circle_of p r;
  active = p.active;
}

abbrev pub link : ℕ → Place → Place
link id p = record p { geofence_id = some id }

-- `syncGeofence` by the buffer and the link of the place; a link is a foreign key, so that its row
-- is there. `fresh` is the id of a new row.
abbrev pub sync : ℕ → Store → Place → Option ℕ → Option ℕ → Store
sync fresh db p (some r) (some g) = record db {
  geofences = update_first (λ h. h.id == g) (mirror p r) db.geofences;
}
sync fresh db p (some r) none = record {
  geofences = new_mirror fresh p r ∷ db.geofences;
  places = update_first (λ q. q.id == p.id) (link fresh) db.places;
}
sync fresh db p none (some g) =
    without_geofence g (record db { places = update_first (λ q. q.id == p.id) unlink db.places })
sync fresh db p none none = db

unfoldable pub sync_geofence : ℕ → Store → Place → Store
sync_geofence fresh db p = sync fresh db p (buffer p.radius) p.geofence_id

pub record PlaceDto : Type 0 where
  pub name : ℕ
  pub latitude : ℤ
  pub longitude : ℤ
  pub radius : Option ℕ
  pub active : Bool

abbrev pub new_place : ℕ → ℕ → PlaceDto → Place
new_place id company dto = record {
  id = id;
  company_id = company;
  name = dto.name;
  latitude = dto.latitude;
  longitude = dto.longitude;
  radius = dto.radius;
  active = dto.active;
  geofence_id = none;
}

unfoldable pub create : Store → Actor → ℕ → ℕ → PlaceDto → Result Store
unfolding sync_geofence
create db actor id fresh dto =
    throw_if (not (has_company actor.company_id) && not (is_super_admin actor.role)) forbidden
    >> (or_throw actor.company_id internal >>= λ company.
        let p = new_place id company dto in
        ok (sync_geofence fresh (record db { places = p ∷ db.places }) p))

-- A field of an update: left alone, or set; a radius may be set to null.
pub record PlacePatch : Type 0 where
  pub name : Option ℕ
  pub latitude : Option ℤ
  pub longitude : Option ℤ
  pub radius : Option (Option ℕ)
  pub active : Option Bool

abbrev pub patched : PlacePatch → Place → Place
patched dto p = record p {
  name = or_old dto.name p.name;
  latitude = or_old dto.latitude p.latitude;
  longitude = or_old dto.longitude p.longitude;
  radius = or_old dto.radius p.radius;
  active = or_old dto.active p.active;
}

unfoldable pub update : Store → Actor → ℕ → ℕ → PlacePatch → Result Store
unfolding sync_geofence
update db actor id fresh dto = or_throw (find_place id db.places) not_found >>= λ p.
    throw_if (is_foreign actor p.company_id) forbidden
    >> ok (
        sync_geofence fresh
          (record db { places = update_first (λ q. q.id == id) (patched dto) db.places })
          (patched dto p))

abbrev pub without_linked : Option ℕ → Store → Store
without_linked none db = db
without_linked (some g) db = without_geofence g db

unfoldable pub remove : Store → Actor → ℕ → Result Store
remove db actor id = or_throw (find_place id db.places) not_found >>= λ p.
    throw_if (is_foreign actor p.company_id) forbidden
    >> (let db' = without_linked p.geofence_id db in
        ok (record db' { places = filter (λ q. not (q.id == id)) db'.places }))
