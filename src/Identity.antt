-- ===== src/Identity.antt =====
-- Accounts, login and refresh tokens: services/api/src/auth/auth.service.ts and
-- services/api/src/users/users.service.ts.
pub mod Store
pub mod Sessions
pub mod Login
pub mod Users
pub mod Registration
mod Tests
