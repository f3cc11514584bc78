-- ===== src/Devices.antt =====
-- core/devices: what a sign-in from a device leads to, and how often a user is written to about one.
pub mod Handling
pub mod Oldest
pub mod Throttle
pub mod Spacing
mod Tests
