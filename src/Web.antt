-- ===== src/Web.antt =====
-- The parts of the web client that keep state of their own: services/web/src/lib/api.ts and
-- services/web/src/lib/useLiveSocket.ts.
pub mod LiveSocket
pub mod Session
mod Tests
