-- ===== src/Throttler.antt =====
-- core/throttler/*.ts: how many requests a caller may send in several windows of time.
pub mod Store
pub mod Service
pub mod Decision
pub mod Window
pub mod BucketKey
mod Tests
