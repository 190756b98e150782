-- ===== src/Scanner.antt =====
-- src/modules/scanner: the scanner's weekly rule, its lookback tiers, the partition of a weekly series
-- at its gaps, the current signal, the chart scan and the trades of the breakout backtest.
pub mod Rule
pub mod Lookback
pub mod Safety
pub mod Signal
pub mod Trades
pub mod Candles
pub mod Segments
pub mod Points
pub mod Verdict
pub mod Runs
pub mod Closes
