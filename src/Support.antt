-- ===== src/Support.antt =====
-- The inbox of support tickets: services/api/src/support-tickets/support-tickets.module.ts.
pub mod Tickets
mod Tests
