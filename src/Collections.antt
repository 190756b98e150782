-- ===== src/Collections.antt =====
-- src/modules/market-collections: the versions of a collection's members in time, and the import of its members.
pub mod Versions
pub mod Applicable
pub mod Statuses
pub mod Parse
pub mod Symbols
pub mod Import
pub mod Members
pub mod Classify
pub mod Membership
