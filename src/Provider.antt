-- ===== src/Provider.antt =====
-- src/modules/data-provider: the gate before the calls of Global Datafeeds.
pub mod Gate
pub mod Quota
pub mod Cooldown
pub mod Lease
pub mod Exclusion
