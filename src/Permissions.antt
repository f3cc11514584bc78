-- ===== src/Permissions.antt =====
-- core/permissions/*.ts: what a user may do, and how long it is remembered.
pub mod Cache
pub mod Eviction
pub mod Invalidation
pub mod Scoped
pub mod Served
mod Tests
