-- ===== src/ApiKeys.antt =====
-- core/auth/api-keys/api-key-scope-planner.ts: what the scopes of an API key let its user's ability do.
pub mod Scopes
pub mod Restriction
pub mod Planned
pub mod Narrowed
mod Tests
