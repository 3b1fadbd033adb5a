-- ===== src/Fleet/Tests.antt =====
-- The theorems of Fleet at one device that moves from one company to another.
use fleex.Common.{refl, true, none, some, [], ◌∷◌, inr}
use fleex.Common.Texts.{codes}
use fleex.Access.Roles.{Actor, super_admin}
use fleex.Fleet.Devices.{Device, Store, move, transfer}
use fleex.Fleet.Devices.Tenancy.{IsConsistent, transfer-IsConsistent}

abbrev admin : Actor
admin = record { id = 1; role = super_admin; company_id = none; driver_id = none }

abbrev truck : Device
truck = record {
  id = 7;
  imei = codes "352093081234567";
  name = codes "truck";
  company_id = 3;
  group_id = some 30;
  garage_id = none;
  driver_id = none;
}

abbrev db : Store
db = record {
  companies = record { id = 3; is_active = true } ∷ record { id = 4; is_active = true } ∷ [];
  groups = [];
  garages = [];
  devices = truck ∷ [];
  events = record { device_id = 7; company_id = 3; geofence_id = some 1 } ∷ [];
  sensors = record { device_id = 7; company_id = 3 } ∷ [];
  service_tasks = [];
  trips = [];
  positions = record { device_id = 7; company_id = 3 } ∷ [];
  field_values = 7 ∷ [];
  rules = [];
  cached = codes "352093081234567" ∷ [];
}

transfer-IsConsistent_example : IsConsistent (move db 7 (codes "352093081234567") 4)
unfolding transfer
transfer-IsConsistent_example =
    transfer-IsConsistent db (move db 7 (codes "352093081234567") 4) 7 admin 4 refl
      ((inr refl, tt), ((inr refl, tt), (tt, (tt, (inr refl, tt)))))
