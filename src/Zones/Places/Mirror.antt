-- ===== src/Zones/Places/Mirror.antt =====
-- That the circle of a place follows it.
use fleex.Access.Ownership.{is_foreign}
use mathlib.Core.Path.{subst}
use fleex.Common.{
  ℕ, ◌≡◌, refl, true, Option, none, some, List, ◌∷◌, find?-eq-some, find?-update_first,
  find?-update_many, update_first, ◌==◌, is_id, arith, sym,
}
use fleex.Common.Results.{
  ok, forbidden, not_found, >>=-eq-ok, >>-eq-ok, or_throw-eq-ok, ok-inj, or_throw,
}
use fleex.Access.Roles.{Actor}
use fleex.Zones.Geofences.{Geofence, Place, Store, find_geofence, find_place, unlink}
use fleex.Zones.Places.{
  buffer, circle_of, mirror, new_mirror, link, sync, sync_geofence, PlacePatch, patched, update,
}

-- The link of a place, if it has one, is that of a row.
abbrev pub IsLinked : List Geofence → Option ℕ → Type 0
IsLinked geofences none = Unit
IsLinked geofences (some id) = (g : Geofence) × (find_geofence id geofences ≡ some g)

-- With a buffer the place has a geofence with its name, its circle and its activity; without one
-- it has none.
abbrev pub Mirrors : Store → Place → Option ℕ → Type 0
Mirrors db p none = p.geofence_id ≡ none
Mirrors db p (some r) =
    (id : ℕ) × (g : Geofence) × (p.geofence_id ≡ some id)
    × (find_geofence id db.geofences ≡ some g)
    × (g.name ≡ p.name)
    × (g.geometry ≡ circle_of p r)
    × (g.active ≡ p.active)

abbrev pub HasMirror : Store → ℕ → Type 0
HasMirror db id = (p : Place) × (find_place id db.places ≡ some p) × Mirrors db p (buffer p.radius)

sync-HasMirror :
    (fresh : ℕ) (db : Store) (p : Place) (r l : Option ℕ)
    → buffer p.radius ≡ r
    → p.geofence_id ≡ l
    → find_place p.id db.places ≡ some p
    → IsLinked db.geofences l
    → HasMirror (sync fresh db p r l) p.id
sync-HasMirror fresh db p (some r) (some id) e f found (g, there) = (
  p,
  found,
  rw e (
    id,
    mirror p r g,
    f,
    find?-update_first (λ h. h.id == id) (mirror p r) db.geofences g (λ h k. k) there,
    refl,
    refl,
    refl,
  ),
)
sync-HasMirror fresh db p (some r) none e f found linked = (
  link fresh p,
  find?-update_first (λ q. q.id == p.id) (link fresh) db.places p (λ q k. k) found,
  rw e (fresh, new_mirror fresh p r, refl, self, refl, refl, refl),
)
  where
    self : find_geofence fresh (new_mirror fresh p r ∷ db.geofences) ≡ some (new_mirror fresh p r)
    self = let same : (fresh == fresh) ≡ true = ground arith in rw same refl
sync-HasMirror fresh db p none (some id) e f found linked = (
  unlink p,
  find?-update_many (λ q. q.id == p.id) (λ q. is_id q.geofence_id id) unlink
      (update_first (λ q. q.id == p.id) unlink db.places) (unlink p) (λ q. refl)
      (find?-update_first (λ q. q.id == p.id) unlink db.places p (λ q k. k) found),
  rw e refl,
)
sync-HasMirror fresh db p none none e f found linked = (p, found, rw e f)

sync_geofence-HasMirror :
    (fresh : ℕ) (db : Store) (p : Place)
    → find_place p.id db.places ≡ some p
    → IsLinked db.geofences p.geofence_id
    → HasMirror (sync_geofence fresh db p) p.id
unfolding sync_geofence
sync_geofence-HasMirror fresh db p found linked =
    sync-HasMirror fresh db p (buffer p.radius) p.geofence_id refl refl found linked

same_row :
    (id : ℕ) (places : List Place) (p q : Place)
    → find_place id places ≡ some p
    → find_place id places ≡ some q
    → p ≡ q
same_row id places p q h k = cc

-- After an update of a place that goes through, where the place's link was that of a geofence or
-- none, the place has a geofence with its name, its circle and its activity if it has a radius
-- over 0, whether or not it had one before, and is linked to none otherwise.
pub update-HasMirror :
    (db db' : Store) (actor : Actor) (id fresh : ℕ) (dto : PlacePatch) (p : Place)
    → update db actor id fresh dto ≡ ok db'
    → find_place id db.places ≡ some p
    → IsLinked db.geofences p.geofence_id
    → HasMirror db' id
unfolding update
update-HasMirror db db' actor id fresh dto p h found linked =
    let (q, there, h1) = >>=-eq-ok (or_throw (find_place id db.places) not_found) _ h in
    let (mine, h2) = >>-eq-ok (is_foreign actor q.company_id) forbidden _ h1 in
    let same =
      same_row id db.places p q found (or_throw-eq-ok (find_place id db.places) not_found there) in
    let named : (p.id == id) ≡ true = find?-eq-some (λ r. r.id == id) db.places p found in
    let eq : p.id ≡ id = ground (arith, named) in
    let places = update_first (λ r. r.id == id) (patched dto) db.places in
    let moved = find?-update_first (λ r. r.id == id) (patched dto) db.places p (λ r k. k) found in
    let there' = subst (λ k. find_place k places ≡ some (patched dto p)) (sym eq) moved in
    let done =
      sync_geofence-HasMirror fresh (record db { places = places }) (patched dto p) there' linked in
    let result =
      subst (λ r. sync_geofence fresh (record db { places = places }) (patched dto r) ≡ db')
        (sym same) (ok-inj h2) in
    subst (λ d. HasMirror d id) result (subst (HasMirror _) eq done)
