-- ===== src/Alerts.antt =====
-- src/modules/price-alerts: the alerts of the users, and their evaluation when a quote arrives.
pub mod Service
pub mod Evaluation
pub mod Ownership
