-- ===== src/Encryption.antt =====
-- core/encryption: fields of a row under a key that can be rotated.
pub mod Field
pub mod Keys
pub mod Base64
pub mod Rotation
mod Tests
