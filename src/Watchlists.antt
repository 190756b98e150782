-- ===== src/Watchlists.antt =====
-- src/modules/watchlists: the lists of the users and their items.
pub mod Service
pub mod Guards
pub mod Duplicates
