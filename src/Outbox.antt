-- ===== src/Outbox.antt =====
-- core/outbox/*.ts: events that wait in a table until every dispatcher has had them.
pub mod Storage
pub mod Recorder
pub mod Worker
pub mod Batches
pub mod Outcome
pub mod Stuck
mod Tests
