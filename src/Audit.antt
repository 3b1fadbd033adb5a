-- ===== src/Audit.antt =====
-- The append-only audit log with its hash chain: services/api/src/audit/audit.service.ts.
pub mod Json
pub mod Chain
mod Tests
