-- ===== src/Calendar.antt =====
-- src/modules/market-data/trading-calendar.ts.
-- A date text `YYYY-MM-DD` is the number of days since 0000-01-01, which was a Saturday: the order
-- of such texts is the order of these numbers, and `getUTCDay` is their remainder by 7. Dates lie in
-- the year 100 or later, so that no subtraction below reaches 0. The parts of an instant in a time
-- zone, which `Intl.DateTimeFormat` computes, are a parameter.
pub mod Weeks
pub mod Days
pub mod Latest
unfoldable pub use Weeks.*
unfoldable pub use Days.*
