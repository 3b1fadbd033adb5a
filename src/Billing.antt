-- ===== src/Billing.antt =====
-- Subscription plans, invoices and their lifecycle: services/api/src/billing.
-- `Catalog` and `Dates` hold the pure parts, `Store` the rows, `Plans`, `Invoices` and `Lifecycle`
-- the operations of BillingService, and the modules below those prove things of them.
pub mod Catalog
pub mod Store
pub mod Plans
pub mod Invoices
pub mod Lifecycle
pub mod History
mod Tests
