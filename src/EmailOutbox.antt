-- ===== src/EmailOutbox.antt =====
-- core/email/email-outbox*.ts: mails that wait in a table until a worker has sent them.
pub mod Planner
pub mod Storage
pub mod Listing
pub mod ListFilter
pub mod Order
pub mod Paging
pub mod Browsing
pub mod Recorder
pub mod Worker
pub mod Backoff
pub mod Claims
pub mod Consistency
pub mod Counts
pub mod Dedup
pub mod Admin
mod Tests
mod ListingTests
