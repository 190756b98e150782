-- ===== src/Stream.antt =====
-- src/modules/market-stream: the candles that grow with the ticks, the hub of the clients and the provider's health.
pub mod Candles
pub mod Updates
pub mod Hub
pub mod Subscriptions
pub mod Delivery
pub mod Health
