-- ===== src/Webhooks.antt =====
-- core/webhooks/*.ts: deliveries to the endpoints of other systems.
pub mod Retry
pub mod Url
pub mod Dispatcher
pub mod Delivery
pub mod Disabling
pub mod Overlap
mod Tests
