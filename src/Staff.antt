-- ===== src/Staff.antt =====
-- Drivers, their departments and their shifts: services/api/src/drivers/drivers.module.ts,
-- services/api/src/groups/groups.module.ts and services/api/src/shifts/shifts.module.ts.
pub mod Groups
pub mod Shifts
pub mod Drivers
pub mod History
mod Tests
