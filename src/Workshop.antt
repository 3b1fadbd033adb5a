-- ===== src/Workshop.antt =====
-- Service tasks of vehicles: services/api/src/service-tasks/service-tasks.module.ts, and
-- service-reminder-cron.service.ts of the same folder.
pub mod Tasks
pub mod Prediction
pub mod Reminders
mod Tests
