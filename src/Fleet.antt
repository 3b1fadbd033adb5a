-- ===== src/Fleet.antt =====
-- The fleet of a company: services/api/src/devices/devices.service.ts but for `create`, which is
-- with the cap of the plan, and services/api/src/commands/commands.module.ts.
pub mod Devices
pub mod Commands
mod Tests
