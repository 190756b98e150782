-- ===== src/Evaluator.antt =====
-- src/modules/market-data/weekly-strong-evaluator.ts.
-- A close is a natural number of the smallest price step; the ratio 0.85 is a fraction of two numbers,
-- and `close > high * ratio` is `close * den > high * num`, without rounding.
pub mod RollingMax
pub mod NearHigh
pub mod Series
pub mod Scan
pub mod Deque
pub mod Windows
pub mod Cursor
pub mod Agreement
pub mod Streak
unfoldable pub use RollingMax.*
unfoldable pub use NearHigh.*
unfoldable pub use Series.*
