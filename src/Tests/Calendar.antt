-- ===== src/Tests/Calendar.antt =====
-- Dates of src/modules/market-data/trading-calendar.ts: day 738002 is a Friday.
use stock_harvesting_backend.Prelude.{◌+◌, ◌-◌, refl, if◌then◌else◌, arith}
use stock_harvesting_backend.Calendar.{Formatter}
use stock_harvesting_backend.Calendar.Weeks.{get_utc_day}
use stock_harvesting_backend.Calendar.Days.{
  get_latest_expected_trading_day, IsFormatter, get_exchange_local_parts, is_after_close,
}
use stock_harvesting_backend.Calendar.Latest.{get_latest_expected_trading_day-IsLatest, IsLatest}

-- A clock that counts days, always at 17:00.
abbrev pub daily_formatter : Formatter
daily_formatter zone at = record {
  date = 738000 + at;
  weekday = get_utc_day (738000 + at);
  hour = 17;
  minute = 0;
}

pub daily_formatter-IsFormatter : IsFormatter daily_formatter
daily_formatter-IsFormatter zone at = (refl, omega arith)

get_latest_expected_trading_day-IsLatest_example :
    let p = get_exchange_local_parts daily_formatter "NSE" 4 in
    IsLatest
      (if is_after_close "NSE" p then p.date else p.date - 1)
      (get_latest_expected_trading_day daily_formatter "NSE" 4)
get_latest_expected_trading_day-IsLatest_example =
    get_latest_expected_trading_day-IsLatest daily_formatter daily_formatter-IsFormatter "NSE" 4
