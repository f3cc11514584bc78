-- ===== src/Uploads.antt =====
-- core/files/upload-session.ts: resumable uploads. The storage is a table with one row per id.
pub mod Session
pub mod Offsets
pub mod Resume
mod Tests
