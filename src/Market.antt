-- ===== src/Market.antt =====
-- src/modules/market-data and the routing of src/modules/data-provider: which instruments are processed, the
-- bootstrap checkpoints, and the synchronization of daily candles.
pub mod Universe
pub mod Checkpoints
pub mod NoHistory
pub mod Marks
pub mod Batches
pub mod Candles
pub mod Store
pub mod Replacement
pub mod Aggregation
pub mod Totals
pub mod Summary
pub mod Plan
pub mod Backfill
pub mod Refresh
pub mod Kept
pub mod Sync
pub mod Tally
pub mod Weekdays
