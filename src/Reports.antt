-- ===== src/Reports.antt =====
-- The pure report builders: services/api/src/reports/report-builders.ts and the fuel detector of
-- services/api/src/reports/fuel-analytics.service.ts.
pub mod Positions
pub mod Trips
pub mod Sessions
pub mod Daily
pub mod Fuel
pub mod Idle
mod Tests
