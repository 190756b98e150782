-- ===== src/Scanner/Candles.antt =====
-- src/modules/scanner/scanner.candles.ts, the signals from daily closes of scanner-current-signal.ts, the read of the
-- scanner's closes in src/modules/market-data/market-data.candles.ts, and the live result of scanner.service.ts.
-- The key of a week, the normalizing of a symbol and the instrument of a symbol are arguments.
use stock_harvesting_backend.Prelude.{
  ℕ, Bool, true, false, not, ◌||◌, String, str_eq, List, [], ◌∷◌, map, filter, Option, none, some,
  leb, ◌&&◌, if◌then◌else◌,
}
use stock_harvesting_backend.Calendar.{Formatter}
use stock_harvesting_backend.Evaluator.{exclude_incomplete_trading_week}
use stock_harvesting_backend.Market.Candles.{Candle, CandleRow, is_of, day, week}
use stock_harvesting_backend.Market.Aggregation.{sort_by_time, aggregate_weekly_candles}
use stock_harvesting_backend.Scanner.Rule.{ScannerWeeklyCandle}
use stock_harvesting_backend.Scanner.Lookback.{
  ScannerLookbackMultiplier, scanner_lookback_weeks, default_scanner_lookback,
}
use stock_harvesting_backend.Scanner.Safety.{
  ScannerWeeklySeriesPartition, classify_scanner_weekly_series,
}
use stock_harvesting_backend.Scanner.Signal.{
  CurrentScannerSignal, empty_signal, resolve_current_scanner_signal, Near250WeekCloseHighScanMatch,
  calculate_near_250_week_close_high_scan,
}

pub record ScannerDailyClose : Type 0 where
  pub time : ℕ
  pub close : ℕ

abbrev pub is_not_before : Option ℕ → ℕ → Bool
is_not_before none t = true
is_not_before (some from) t = leb from t

abbrev pub is_not_after : Option ℕ → ℕ → Bool
is_not_after none t = true
is_not_after (some to) t = leb t to

unfoldable pub read_scanner_daily_closes :
    String → Option ℕ → Option ℕ → List CandleRow → List ScannerDailyClose
read_scanner_daily_closes instrument_id from to rows =
    let found =
      filter
        (λ r.
          is_of instrument_id day r
          && (is_not_before from r.candle.time && is_not_after to r.candle.time))
        rows in
    map (λ c. record { time = c.time; close = c.close }) (sort_by_time (map (λ r. r.candle) found))

-- The candle of a day of which only the close is known.
abbrev flat_candle : ScannerDailyClose → Candle
flat_candle row = record {
  time = row.time;
  open_price = row.close;
  high = row.close;
  low = row.close;
  close = row.close;
  volume = 0;
}

abbrev weekly_close : Candle → ScannerWeeklyCandle
weekly_close row = record { time = row.time; close = row.close }

unfoldable pub derive_scanner_weekly_closes :
    (ℕ → String) → List ScannerDailyClose → List ScannerWeeklyCandle
unfolding aggregate_weekly_candles
derive_scanner_weekly_closes get_week_key daily_closes =
    map weekly_close (aggregate_weekly_candles get_week_key (map flat_candle daily_closes))

pub record ScannerWeeklySeriesInput : Type 0 where
  pub segments : List (List ScannerWeeklyCandle)
  pub latest_segment : List ScannerWeeklyCandle
  pub is_latest_week_fresh : Bool
  pub daily_closes : List ScannerDailyClose

-- The weeks that are completed.
abbrev pub completed_weekly_rows :
    (ℕ → String) → Formatter → ℕ → String → List ScannerDailyClose → List ScannerWeeklyCandle
completed_weekly_rows get_week_key fmt at exchange daily_closes =
    exclude_incomplete_trading_week (λ c. c.time) fmt at
      (derive_scanner_weekly_closes get_week_key daily_closes) exchange

-- The input of a series with its segments, none where it has no segment.
abbrev pub input_of :
    List ScannerDailyClose
    → ScannerWeeklySeriesPartition
    → List (List ScannerWeeklyCandle)
    → Option ScannerWeeklySeriesInput
input_of daily_closes series [] = none
input_of daily_closes series (segment ∷ segments) = some (record {
  segments = segment ∷ segments;
  latest_segment = series.latest_segment;
  is_latest_week_fresh = series.is_latest_week_fresh;
  daily_closes = daily_closes;
})

abbrev pub input_of_rows :
    Formatter
    → ℕ
    → String
    → List ScannerDailyClose
    → List ScannerWeeklyCandle
    → Option ScannerWeeklySeriesInput
input_of_rows fmt at exchange daily_closes [] = none
input_of_rows fmt at exchange daily_closes (row ∷ rows) =
    let series = classify_scanner_weekly_series fmt at (row ∷ rows) exchange in
    input_of daily_closes series series.segments

abbrev pub input_of_closes :
    (ℕ → String) → Formatter → ℕ → String → List ScannerDailyClose → Option ScannerWeeklySeriesInput
input_of_closes get_week_key fmt at exchange [] = none
input_of_closes get_week_key fmt at exchange (close ∷ closes) =
    input_of_rows fmt at exchange (close ∷ closes)
      (completed_weekly_rows get_week_key fmt at exchange (close ∷ closes))

-- The instrument that was found for the symbol, if any, and the stored candles.
unfoldable pub get_scanner_weekly_series_input :
    (ℕ → String)
    → Formatter
    → ℕ
    → Option String
    → String
    → List CandleRow
    → Option ScannerWeeklySeriesInput
unfolding derive_scanner_weekly_closes classify_scanner_weekly_series read_scanner_daily_closes
    exclude_incomplete_trading_week
get_scanner_weekly_series_input get_week_key fmt at none exchange rows = none
get_scanner_weekly_series_input get_week_key fmt at (some id) exchange rows =
    input_of_closes get_week_key fmt at exchange (read_scanner_daily_closes id none none rows)

-- The signal of a series; an empty one has none.
abbrev pub signal_of_rows :
    Formatter → ℕ → String → ℕ → Bool → List ScannerWeeklyCandle → CurrentScannerSignal
signal_of_rows fmt at exchange requested strict [] = empty_signal
signal_of_rows fmt at exchange requested strict (row ∷ rows) =
    let series = classify_scanner_weekly_series fmt at (row ∷ rows) exchange in
    resolve_current_scanner_signal series.latest_segment series.is_latest_week_fresh requested
      strict

unfoldable pub resolve_live_scanner_signal_from_daily_closes :
    (ℕ → String) → Formatter → ℕ → List ScannerDailyClose → String → ℕ → Bool → CurrentScannerSignal
unfolding derive_scanner_weekly_closes resolve_current_scanner_signal classify_scanner_weekly_series
resolve_live_scanner_signal_from_daily_closes get_week_key fmt at daily_closes exchange requested
      strict =
    signal_of_rows fmt at exchange requested strict
      (derive_scanner_weekly_closes get_week_key daily_closes)

unfoldable pub resolve_scanner_signal_from_daily_closes :
    (ℕ → String) → Formatter → ℕ → List ScannerDailyClose → String → ℕ → CurrentScannerSignal
unfolding derive_scanner_weekly_closes resolve_current_scanner_signal classify_scanner_weekly_series
    exclude_incomplete_trading_week
resolve_scanner_signal_from_daily_closes get_week_key fmt at daily_closes exchange requested =
    signal_of_rows fmt at exchange requested false
      (completed_weekly_rows get_week_key fmt at exchange daily_closes)

pub record ResultQuery : Type 0 where
  pub symbol : Option String
  pub timeframe : String
  pub rule : Option String
  pub exchange : String
  pub lookback : Option ScannerLookbackMultiplier

-- The result without its id and its constant rule and timeframe.
pub record ScannerResult : Type 0 where
  pub exchange : String
  pub symbol : String
  pub start_time : Option ℕ
  pub end_time : Option ℕ
  pub highlight_times : List ℕ
  pub latest_matched : Bool

abbrev pub near_250_week_close_high : String
near_250_week_close_high = "near_250_week_high"

-- `input.rule && input.rule !== ...`
abbrev is_other_rule : Option String → Bool
is_other_rule none = false
is_other_rule (some rule) = not (str_eq rule "") && not (str_eq rule near_250_week_close_high)

abbrev lookback_or_default : Option ScannerLookbackMultiplier → ScannerLookbackMultiplier
lookback_or_default none = default_scanner_lookback
lookback_or_default (some lookback) = lookback

abbrev result_of_scan :
    String → String → Bool → Option Near250WeekCloseHighScanMatch → Option ScannerResult
result_of_scan exchange symbol live none = none
result_of_scan exchange symbol live (some scan) = some (record {
  exchange = exchange;
  symbol = symbol;
  start_time = scan.start_time;
  end_time = scan.end_time;
  highlight_times = scan.highlight_times;
  latest_matched = live;
})

abbrev result_of_input :
    (ℕ → String)
    → Formatter
    → ℕ
    → String
    → String
    → ℕ
    → Option ScannerWeeklySeriesInput
    → Option ScannerResult
result_of_input get_week_key fmt at exchange symbol lookback_weeks none = none
result_of_input get_week_key fmt at exchange symbol lookback_weeks (some series) =
    let signal =
      resolve_live_scanner_signal_from_daily_closes get_week_key fmt at series.daily_closes exchange
        lookback_weeks true in
    result_of_scan exchange symbol signal.matched (
      calculate_near_250_week_close_high_scan series.segments series.latest_segment
        series.is_latest_week_fresh lookback_weeks)

abbrev result_of_symbol :
    (ℕ → String)
    → Formatter
    → ℕ
    → (String → String)
    → (String → Option String)
    → List CandleRow
    → ResultQuery
    → Option String
    → Option ScannerResult
result_of_symbol get_week_key fmt at normalize instrument_of rows query none = none
result_of_symbol get_week_key fmt at normalize instrument_of rows query (some given) =
    let symbol = normalize given in
    if str_eq given "" || not (str_eq query.timeframe week) || is_other_rule query.rule
    then none
    else result_of_input get_week_key fmt at query.exchange symbol
        (scanner_lookback_weeks (lookback_or_default query.lookback))
        (get_scanner_weekly_series_input get_week_key fmt at (instrument_of (normalize symbol))
          query.exchange rows)

unfoldable pub calculate_current_near_250_week_close_high_result :
    (ℕ → String)
    → Formatter
    → ℕ
    → (String → String)
    → (String → Option String)
    → List CandleRow
    → ResultQuery
    → Option ScannerResult
unfolding get_scanner_weekly_series_input resolve_live_scanner_signal_from_daily_closes
    calculate_near_250_week_close_high_scan
calculate_current_near_250_week_close_high_result get_week_key fmt at normalize instrument_of rows
      query =
    result_of_symbol get_week_key fmt at normalize instrument_of rows query query.symbol
