-- ===== src/Zones/Geofences.antt =====
-- services/api/src/geofences/geofences.module.ts, on the tables of geofences and places, of which
-- a place may be linked to one geofence. Names are numbers; descriptions, speed limits and alert
-- flags are left out.
use fleex.Access.Ownership.{is_foreign}
use fleex.Common.{
  ℕ, ℤ, pos, Bool, true, false, not, ◌&&◌, Option, none, some, List, [], ◌∷◌, filter, find?,
  update_first, update_many, leb, length, ◌==◌, is_id, or_old,
}
use fleex.Common.Results.{
  Result, ok, forbidden, not_found, internal, ◌>>=◌, ◌>>◌, throw_if, or_throw,
}
use fleex.Access.Roles.{Actor}

pub data Shape : Type 0 where
  circle polygon : Shape

-- An element of `points`: two numbers, or anything else.
pub data Point : Type 0 where
  lng_lat : ℤ → ℤ → Point
  malformed : Point

-- The JSON object of a geometry: a key is none where it holds no number, or no array.
pub record Geometry : Type 0 where
  pub lat : Option ℤ
  pub lng : Option ℤ
  pub radius : Option ℤ
  pub points : Option (List Point)

pub record Geofence : Type 0 where
  pub id : ℕ
  pub company_id : ℕ
  pub name : ℕ
  pub shape : Shape
  pub geometry : Geometry
  pub active : Bool

pub record Place : Type 0 where
  pub id : ℕ
  pub company_id : ℕ
  pub name : ℕ
  pub latitude : ℤ
  pub longitude : ℤ
  pub radius : Option ℕ
  pub active : Bool
  pub geofence_id : Option ℕ

pub record Store : Type 0 where
  pub geofences : List Geofence
  pub places : List Place

abbrev pub find_geofence : ℕ → List Geofence → Option Geofence
find_geofence id = find? (λ g. g.id == id)

abbrev pub find_place : ℕ → List Place → Option Place
find_place id = find? (λ p. p.id == id)

abbrev pub is_number : Option ℤ → Bool
is_number none = false
is_number (some z) = true

abbrev pub is_positive : Option ℤ → Bool
is_positive (some (pos n)) = not (n == 0)
is_positive _ = false

abbrev pub all_pairs : List Point → Bool
all_pairs [] = true
all_pairs (lng_lat x y ∷ ps) = all_pairs ps
all_pairs (malformed ∷ ps) = false

abbrev pub are_corners : Option (List Point) → Bool
are_corners none = false
are_corners (some ps) = leb 3 (length ps) && all_pairs ps

-- `validateGeometry` comes through.
unfoldable pub valid_geometry : Shape → Geometry → Bool
valid_geometry circle g = (is_number g.lat && is_number g.lng) && is_positive g.radius
valid_geometry polygon g = are_corners g.points

pub record GeofenceDto : Type 0 where
  pub name : ℕ
  pub shape : Shape
  pub geometry : Geometry

unfoldable pub create : Store → Actor → ℕ → GeofenceDto → Result Store
create db actor id dto = or_throw actor.company_id forbidden >>= λ company.
    throw_if (not (valid_geometry dto.shape dto.geometry)) internal
    >> ok (record db {
      geofences =
          record {
            id = id;
            company_id = company;
            name = dto.name;
            shape = dto.shape;
            geometry = dto.geometry;
            active = true;
          }
          ∷ db.geofences;
    })

pub record GeofencePatch : Type 0 where
  pub name : Option ℕ
  pub geometry : Option Geometry
  pub active : Option Bool

-- A geometry that is not given is not looked at.
abbrev pub valid_change : Shape → Option Geometry → Bool
valid_change shape none = true
valid_change shape (some g) = valid_geometry shape g

abbrev pub patched : GeofencePatch → Geofence → Geofence
patched dto g = record g {
  name = or_old dto.name g.name;
  geometry = or_old dto.geometry g.geometry;
  active = or_old dto.active g.active;
}

unfoldable pub update : Store → Actor → ℕ → GeofencePatch → Result Store
unfolding valid_geometry
update db actor id dto = or_throw (find_geofence id db.geofences) not_found >>= λ g.
    throw_if (is_foreign actor g.company_id) forbidden
    >> throw_if (not (valid_change g.shape dto.geometry)) internal
    >> ok (record db { geofences = update_first (λ h. h.id == id) (patched dto) db.geofences })

abbrev pub unlink : Place → Place
unlink p = record p { geofence_id = none }

-- The foreign key of a place is set to null with the row.
abbrev pub without_geofence : ℕ → Store → Store
without_geofence id db = record {
  geofences = filter (λ g. not (g.id == id)) db.geofences;
  places = update_many (λ p. is_id p.geofence_id id) unlink db.places;
}

unfoldable pub remove : Store → Actor → ℕ → Result Store
remove db actor id = or_throw (find_geofence id db.geofences) not_found >>= λ g.
    throw_if (is_foreign actor g.company_id) forbidden >> ok (without_geofence id db)
