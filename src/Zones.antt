-- ===== src/Zones.antt =====
-- Places and geofences: services/api/src/places/places.module.ts and
-- services/api/src/geofences/geofences.module.ts.
pub mod Geofences
pub mod Places
mod Tests
