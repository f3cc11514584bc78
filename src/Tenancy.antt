-- ===== src/Tenancy.antt =====
-- core/multi-tenancy: which requests need a tenant.
pub mod Paths
pub mod Guard
mod Tests
