-- ===== src/Erasure.antt =====
-- core/gdpr/gdpr-grace.planner.ts: which accounts are erased when.
pub mod Grace
mod Tests
