-- ===== src/Access.antt =====
-- Who may do what: services/api/src/auth (roles, actor scope) and
-- services/api/src/common/tenant-*.
pub mod Roles
pub mod Ownership
pub mod Scope
pub mod Tenant
pub mod Isolation
mod Tests
