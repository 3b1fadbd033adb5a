-- ===== src/Jobs.antt =====
-- The jobs that run by the clock: services/api/src/notifications/lone-worker.service.ts,
-- services/api/src/reports/scorecard-cron.service.ts and scheduled-reports.service.ts of the same
-- folder.
pub mod LoneWorker
pub mod Scorecard
pub mod Schedule
mod Tests
