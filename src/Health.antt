-- ===== src/Health.antt =====
-- The health checks of src/health.rs: the configuration's validation, the probe states of the
-- registered addresses, the order of addresses in answers, the events and the webhook.
pub mod Tests
pub mod Webhook
pub mod Events
pub mod Register
pub mod Runs
pub mod Unhealthy
pub mod Order
pub mod State
pub mod Config
