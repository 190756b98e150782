-- ===== src/Market/Backfill.antt =====
-- The backfill of one symbol in src/modules/market-data/market-data.candle-sync.ts. The provider is an
-- argument, and so are the instrument of the symbol, the clock, the keys of weeks and months, and the errors of the
-- statements that follow the candles' write.
use stock_harvesting_backend.Prelude.{
  ℕ, String, List, [], ◌∷◌, ◌++◌, Option, none, some, Bool, true, false, ◌||◌, ◌==◌, str_eq, map,
}
use stock_harvesting_backend.Database.Transactions.{Result, ok, err}
use stock_harvesting_backend.Market.Candles.{
  Candle, CandleRow, day, upsert_candles, replace_candles_atomically,
}
use stock_harvesting_backend.Market.Aggregation.{
  Bar, aggregate_weekly_candles, aggregate_monthly_candles, aggregate_bse_intraday_candles,
}

-- What a provider answers for a symbol: candles or the message of its error.
pub record Provider : Type 0 where
  pub fetch_daily : ℕ → ℕ → Result String (List Candle)
  pub fetch_intraday : Option (ℕ → Result String (List Bar))

pub record BackfillInput : Type 0 where
  pub symbol : String
  pub exchange : String
  pub from : ℕ
  pub to : ℕ
  pub intraday_repair_dates : Option (List ℕ)

pub record BackfillResult : Type 0 where
  pub daily_candles : List Candle
  pub provider_confirmed_empty : Bool
  pub intraday_repair_skipped : Bool
  pub used_intraday_repair : Bool
  pub provider_failed_dates : List ℕ

abbrev pub no_backfill : BackfillResult
no_backfill = record {
  daily_candles = [];
  provider_confirmed_empty = false;
  intraday_repair_skipped = false;
  used_intraday_repair = false;
  provider_failed_dates = [];
}

unfoldable pub uses_global_datafeeds_minute_history : String → Bool
uses_global_datafeeds_minute_history exchange = str_eq exchange "BSE" || str_eq exchange "BSE_IDX"

-- How the candles are fetched: the days of a repair one by one, one session, or a range.
pub data Mode : Type 0 where
  by_repair : List ℕ → (ℕ → Result String (List Bar)) → Mode
  by_session : (ℕ → Result String (List Bar)) → Mode
  by_range : Mode

abbrev pub mode_of : Bool → Option (List ℕ) → Option (ℕ → Result String (List Bar)) → Bool → Mode
mode_of true (some dates) (some fetch) one_day = by_repair dates fetch
mode_of true none (some fetch) true = by_session fetch
mode_of true none (some fetch) false = by_range
mode_of true dates none one_day = by_range
mode_of false dates fetch one_day = by_range

abbrev pub to_list : Option Candle → List Candle
to_list none = []
to_list (some c) = c ∷ []

-- The candle of a date, or the date as a failed one.
abbrev pub repair_date : ℕ → Result String (List Bar) → List Candle × List ℕ
repair_date date (ok bars) = (to_list (aggregate_bse_intraday_candles bars date true), [])
repair_date date (err e) = ([], date ∷ [])

abbrev pub repair_dates : (ℕ → Result String (List Bar)) → List ℕ → List Candle × List ℕ
repair_dates fetch [] = ([], [])
repair_dates fetch (date ∷ dates) =
    let one = repair_date date (fetch date) in
    let rest = repair_dates fetch dates in (one.0 ++ rest.0, one.1 ++ rest.1)

abbrev pub is_empty : {A : Type 0} → List A → Bool
is_empty [] = true
is_empty (x ∷ xs) = false

-- What may fail after the candles of a backfill were written: the refresh of the instrument's latest statistics, the
-- mark of the refresh, and the read of the dates that are stored then; each the message of its error, if it throws.
pub record Failures : Type 0 where
  pub stats_error : Option String
  pub mark_error : Option String
  pub read_error : Option String

abbrev pub unless_failed : {A : Type 0} → Option String → A → Result String A
unless_failed none a = ok a
unless_failed (some e) a = err e

module _ (get_week_key get_month_key : ℕ → String) (failures : Failures) where
  abbrev pub write_days : String → BackfillInput → List Candle → List CandleRow → List CandleRow
  write_days instrument_id input daily rows =
      upsert_candles
        (map
          (λ c. record {
            instrument_id = instrument_id;
            exchange = input.exchange;
            symbol = input.symbol;
            timeframe = day;
            candle = c;
            source = "provider";
          })
          daily)
        rows

  abbrev pub write_range : String → BackfillInput → List Candle → List CandleRow → List CandleRow
  write_range instrument_id input daily rows =
      replace_candles_atomically
        (record {
          instrument_id = instrument_id;
          exchange = input.exchange;
          symbol = input.symbol;
          from = input.from;
          to = input.to;
          daily = daily;
          weekly = aggregate_weekly_candles get_week_key daily;
          monthly = aggregate_monthly_candles get_month_key daily;
        })
        rows

  abbrev pub finish_session :
      String
      → BackfillInput
      → Result String (List Bar)
      → List CandleRow
      → Result String BackfillResult × List CandleRow
  finish_session instrument_id input (err e) rows = (err e, rows)
  finish_session instrument_id input (ok bars) rows =
      let daily = to_list (aggregate_bse_intraday_candles bars input.from true) in
      (
        unless_failed failures.stats_error (record no_backfill {
          daily_candles = daily;
          provider_confirmed_empty = is_empty daily;
        }),
        write_days instrument_id input daily rows,
      )

  abbrev pub finish_range :
      String
      → BackfillInput
      → Result String (List Candle)
      → List CandleRow
      → Result String BackfillResult × List CandleRow
  finish_range instrument_id input (err e) rows = (err e, rows)
  finish_range instrument_id input (ok daily) rows = (
    unless_failed failures.stats_error
        (record no_backfill { daily_candles = daily; provider_confirmed_empty = is_empty daily }),
    write_range instrument_id input daily rows,
  )

  unfoldable pub backfill_by :
      Mode
      → Provider
      → String
      → BackfillInput
      → List CandleRow
      → Result String BackfillResult × List CandleRow
  unfolding upsert_candles replace_candles_atomically
  backfill_by (by_repair dates fetch) adapter instrument_id input rows =
      let repaired_days = repair_dates fetch dates in
      (
        unless_failed failures.stats_error (record {
          daily_candles = repaired_days.0;
          provider_confirmed_empty = is_empty repaired_days.0;
          intraday_repair_skipped = is_empty dates;
          used_intraday_repair = true;
          provider_failed_dates = repaired_days.1;
        }),
        write_days instrument_id input repaired_days.0 rows,
      )
  backfill_by (by_session fetch) adapter instrument_id input rows =
      finish_session instrument_id input (fetch input.from) rows
  backfill_by by_range adapter instrument_id input rows =
      finish_range instrument_id input (adapter.fetch_daily input.from input.to) rows

  unfoldable pub backfill_daily_candles :
      Option Provider
      → Option String
      → BackfillInput
      → List CandleRow
      → Result String BackfillResult × List CandleRow
  unfolding backfill_by uses_global_datafeeds_minute_history
  backfill_daily_candles none instrument input rows = (ok no_backfill, rows)
  backfill_daily_candles (some adapter) none input rows = (ok no_backfill, rows)
  backfill_daily_candles (some adapter) (some instrument_id) input rows =
      backfill_by
        (mode_of (uses_global_datafeeds_minute_history input.exchange) input.intraday_repair_dates
          adapter.fetch_intraday (input.from == input.to))
        adapter instrument_id input rows
