-- ===== src/ShareLink.antt =====
-- core/files/share-link.ts: links to a file that carry their own proof.
pub mod Token
pub mod RoundTrip
pub mod Soundness
mod Tests
