-- ===== src/Zones/Tests.antt =====
-- The theorems of Zones at one depot.
use fleex.Common.{◌≡◌, refl, true, none, some, [], ◌∷◌, pos}
use fleex.Common.Results.{ok}
use fleex.Access.Roles.{Actor, fleet_manager}
use fleex.Zones.Geofences.{Place, Store}
use fleex.Zones.Places.{PlacePatch, new_mirror, link, update, sync_geofence}
use fleex.Zones.Places.Mirror.{HasMirror, update-HasMirror}

abbrev manager : Actor
manager = record { id = 2; role = fleet_manager; company_id = some 3; driver_id = none }

abbrev depot : Place
depot = record {
  id = 5;
  company_id = 3;
  name = 50;
  latitude = pos 47;
  longitude = pos 106;
  radius = none;
  active = true;
  geofence_id = none;
}

abbrev db : Store
db = record { geofences = []; places = depot ∷ [] }

abbrev widen : PlacePatch
widen = record {
  name = none;
  latitude = none;
  longitude = none;
  radius = some (some 200);
  active = none;
}

abbrev wide : Place
wide = record depot { radius = some 200 }

abbrev widened : Store
widened = record { geofences = new_mirror 9 wide 200 ∷ []; places = link 9 wide ∷ [] }

goes_through : update db manager 5 9 widen ≡ ok widened
unfolding update sync_geofence
goes_through = refl

update-HasMirror_example : HasMirror widened 5
update-HasMirror_example = update-HasMirror db widened manager 5 9 widen depot goes_through refl tt
