-- ===== src/Tests/Scans.antt =====
-- Two weeks of an instrument and the closes that the scanner reads of them.
use stock_harvesting_backend.Prelude.{
  ℕ, ◌≡◌, refl, String, List, [], ◌∷◌, none, some, ◌&&◌, ◌==◌, filter, length, ltb, if◌then◌else◌,
}
use stock_harvesting_backend.Calendar.{get_iso_week_range}
use stock_harvesting_backend.Market.Candles.{CandleRow, day}
use stock_harvesting_backend.Scanner.Rule.{ScannerWeeklyCandle}
use stock_harvesting_backend.Scanner.Candles.{
  ScannerDailyClose, read_scanner_daily_closes, derive_scanner_weekly_closes,
}
use stock_harvesting_backend.Scanner.Closes.{AreAscending, is_read, read_scanner_daily_closes_lem}

abbrev week_text : ℕ → String
week_text d = if ltb d 738005 then "W1" else "W2"

abbrev stored : ℕ → ℕ → CandleRow
stored d close = record {
  instrument_id = "i1";
  exchange = "NSE";
  symbol = "TCS";
  timeframe = day;
  candle = record {
    time = d;
    open_price = close;
    high = close;
    low = close;
    close = close;
    volume = 10;
  };
  source = "provider";
}

abbrev stored_rows : List CandleRow
stored_rows = stored 738008 100 ∷ stored 738000 90 ∷ stored 738001 95 ∷ []

abbrev daily_closes : List ScannerDailyClose
daily_closes =
    record { time = 738000; close = 90 }
    ∷ record { time = 738001; close = 95 }
    ∷ record { time = 738008; close = 100 }
    ∷ []

abbrev second_week : ScannerWeeklyCandle
second_week = record { time = 738005; close = 100 }

read_closes : read_scanner_daily_closes "i1" none none stored_rows ≡ daily_closes
unfolding read_scanner_daily_closes
read_closes = refl

two_weeks_derived :
    derive_scanner_weekly_closes week_text daily_closes
    ≡ (record { time = 737998; close = 95 } ∷ second_week ∷ [])
unfolding derive_scanner_weekly_closes get_iso_week_range
two_weeks_derived = refl

read_scanner_daily_closes_lem_example :
    let read = read_scanner_daily_closes "i1" none (some 738008) stored_rows in
    AreAscending read
    × (length (filter (λ d. d.time == 738001 && d.close == 95) read)
        ≡ length (filter (is_read "i1" none (some 738008) 738001 95) stored_rows))
read_scanner_daily_closes_lem_example =
    read_scanner_daily_closes_lem "i1" none (some 738008) 738001 95 stored_rows
