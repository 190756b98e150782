-- ===== src/Tests/Market.antt =====
-- Candles, checkpoints and synchronizations.
use stock_harvesting_backend.Prelude.{
  ℕ, ◌+◌, ◌≤◌, String, List, [], ◌∷◌, none, some, true, false, not, ◌&&◌, ◌==◌, ltb, leb, any, All,
  str_eq, length, if◌then◌else◌, ◌≡◌, ◌↔◌, refl, arith,
}
use stock_harvesting_backend.Calendar.Weeks.{get_utc_day}
use stock_harvesting_backend.Calendar.Days.{is_weekend}
use stock_harvesting_backend.Database.Transactions.{err}
use stock_harvesting_backend.Market.Checkpoints.{
  CheckpointRow, success, has_identity, read_candle_bootstrap_checkpoints_in_batches,
}
use stock_harvesting_backend.Market.Batches.{
  get_checkpoint, last_match, read_candle_bootstrap_checkpoints_in_batches_lem,
}
use stock_harvesting_backend.Market.NoHistory.{
  no_history_recheck_interval_ms, is_no_history_recheck_due, read_no_history_confirmed_at,
  record_no_history_confirmed,
}
use stock_harvesting_backend.Market.Marks.{record_no_history_confirmed-read}
use stock_harvesting_backend.Market.Candles.{
  Candle, CandleKey, CandleRow, ReplaceInput, day, read_candle_history_range,
  replace_candles_atomically,
}
use stock_harvesting_backend.Market.Store.{view}
use stock_harvesting_backend.Market.Replacement.{replaced, replace_candles_atomically-refines}
use stock_harvesting_backend.Market.Aggregation.{total_volume, aggregate_weekly_candles}
use stock_harvesting_backend.Market.Totals.{IsConsistentCandle, aggregate_weekly_candles_lem}
use stock_harvesting_backend.Market.Plan.{
  plan_daily_candle_sync, weekdays_from, get_completed_weekdays_after,
}
use stock_harvesting_backend.Market.Weekdays.{get_completed_weekdays_after_lem}
use stock_harvesting_backend.Market.Backfill.{Provider, Failures}
use stock_harvesting_backend.Market.Refresh.{
  SyncDb, RefreshInput, RefreshDates, refresh_daily_candles,
}
use stock_harvesting_backend.Market.Kept.{stored, LeavesCandles, refresh_daily_candles-none}
use stock_harvesting_backend.Market.Summary.{updated}
use stock_harvesting_backend.Market.Sync.{
  SyncState, start_state, begin_symbol, settle_symbol, returned, rest, then_step, begins, settles,
}
use stock_harvesting_backend.Market.Tally.{settled, sync-IsTallied}

abbrev week_text : ℕ → String
week_text d = if ltb d 9 then "W1" else "W2"

abbrev candle : ℕ → ℕ → Candle
candle d close = record {
  time = d;
  open_price = 10;
  high = 30;
  low = 5;
  close = close;
  volume = 100;
}

abbrev stored_row : CandleRow
stored_row = record {
  instrument_id = "i1";
  exchange = "BSE";
  symbol = "TCS";
  timeframe = day;
  candle = candle 8 11;
  source = "provider";
}

abbrev replace_input : ReplaceInput
replace_input = record {
  instrument_id = "i1";
  exchange = "BSE";
  symbol = "TCS";
  from = 7;
  to = 9;
  daily = candle 9 12 ∷ [];
  weekly = [];
  monthly = [];
}

abbrev old_key : CandleKey
old_key = record { instrument_id = "i1"; timeframe = day; time = 8 }

replace_candles_atomically-refines_example :
    view (replace_candles_atomically replace_input (stored_row ∷ [])) old_key
    ≡ replaced (candle 9 12 ∷ []) replace_input (view (stored_row ∷ [])) old_key
replace_candles_atomically-refines_example =
    replace_candles_atomically-refines replace_input (stored_row ∷ []) old_key

forgotten : view (replace_candles_atomically replace_input (stored_row ∷ [])) old_key ≡ none
forgotten = replace_candles_atomically-refines replace_input (stored_row ∷ []) old_key

aggregate_weekly_candles_lem_example :
    let weekly = aggregate_weekly_candles week_text (candle 10 12 ∷ candle 8 11 ∷ []) in
    (total_volume weekly ≡ 200) × All IsConsistentCandle weekly
aggregate_weekly_candles_lem_example =
    aggregate_weekly_candles_lem week_text (candle 10 12 ∷ candle 8 11 ∷ []) (
      (omega arith, omega arith, omega arith, omega arith),
      ((omega arith, omega arith, omega arith, omega arith), tt),
    )

get_completed_weekdays_after_lem_example :
    (get_completed_weekdays_after 20 28 ≡ weekdays_from 9 21 28)
    × (any (λ x. x == 23) (get_completed_weekdays_after 20 28)
        ≡ (ltb 20 23 && leb 23 28 && not (is_weekend (get_utc_day 23))))
get_completed_weekdays_after_lem_example = get_completed_weekdays_after_lem 20 28 23 9 (omega arith)

five_days : get_completed_weekdays_after 20 28 ≡ 23 ∷ 24 ∷ 25 ∷ 26 ∷ 27 ∷ []
unfolding get_completed_weekdays_after weekdays_from
five_days = refl

abbrev checkpoint : CheckpointRow
checkpoint = record {
  exchange = "BSE";
  symbol = "TCS";
  timeframe = "1D";
  kind = "k";
  bootstrap_version = 1;
  status = success;
  requested_from = 3;
  requested_to = none;
  completed_at = some 4;
  candle_count = none;
  last_error = none;
  updated_at = 4;
}

read_candle_bootstrap_checkpoints_in_batches_lem_example :
    get_checkpoint "TCS" (
      read_candle_bootstrap_checkpoints_in_batches "BSE"
        ("TCS" ∷ "INFY" ∷ [])
        "1D"
        "k"
        (checkpoint ∷ []))
    ≡ (if any (str_eq "TCS") ("TCS" ∷ "INFY" ∷ [])
        then last_match (has_identity "BSE" "TCS" "1D" "k") (checkpoint ∷ []) none
        else none)
read_candle_bootstrap_checkpoints_in_batches_lem_example =
    read_candle_bootstrap_checkpoints_in_batches_lem "BSE" "1D" "k" "TCS" ("TCS" ∷ "INFY" ∷ [])
      (checkpoint ∷ [])

record_no_history_confirmed-read_example :
    let read =
      read_no_history_confirmed_at "BSE" "TCS"
        (record_no_history_confirmed 100 "BSE" "TCS" 1 2 (checkpoint ∷ [])) in
    (read ≡ some 100)
    × ((is_no_history_recheck_due read (150 + no_history_recheck_interval_ms) ≡ true) ↔ (100 ≤ 150))
record_no_history_confirmed-read_example =
    record_no_history_confirmed-read 100 150 1 2 "BSE" "TCS" (checkpoint ∷ [])

abbrev failing : Provider
failing = record { fetch_daily = λ from to. err "timeout"; fetch_intraday = none }

abbrev no_failures : Failures
no_failures = record { stats_error = none; mark_error = none; read_error = none }

abbrev sync_db : SyncDb
sync_db = record { candles = stored_row ∷ []; checkpoints = []; marks = [] }

abbrev refresh_tcs : RefreshInput
refresh_tcs = record { symbol = "TCS"; exchange = "BSE"; target_date = none; force_recheck = false }

abbrev refresh_dates : RefreshDates
refresh_dates = record { now = 5; expected = 60; history_from = 1 }

reports_nothing :
    stored
      (refresh_daily_candles week_text week_text no_failures refresh_dates
        (some failing)
        (some "i1")
        refresh_tcs
        sync_db).0
    ≡ 0
unfolding refresh_daily_candles plan_daily_candle_sync read_candle_history_range
reports_nothing = refl

refresh_daily_candles-none_example :
    LeavesCandles week_text week_text no_failures (stored_row ∷ []) (
      refresh_daily_candles week_text week_text no_failures refresh_dates
        (some failing)
        (some "i1")
        refresh_tcs
        sync_db)
refresh_daily_candles-none_example =
    refresh_daily_candles-none week_text week_text no_failures refresh_dates (some failing)
      (some "i1") refresh_tcs sync_db reports_nothing

abbrev gap_text : List ℕ → String
gap_text dates = "persistence gap"

abbrev one_begun : SyncState
one_begun = begin_symbol start_state

abbrev one_settled : SyncState
one_settled =
    settle_symbol gap_text "TCS" (returned (some "i1") updated [])
      (record one_begun { in_flight = 0 })

on_its_way : one_begun.in_flight ≡ 1
unfolding begin_symbol
on_its_way = refl

nothing_left : one_settled.in_flight ≡ 0
unfolding settle_symbol
nothing_left = refl

sync-IsTallied_example :
    (one_settled.summary.processed ≡ settled one_settled.summary)
    × (length one_settled.summary.failed_symbols ≡ one_settled.summary.failed_count)
    × (length one_settled.summary.failed_details ≡ one_settled.summary.failed_count)
    × (length one_settled.summary.provider_empty_symbols ≡ one_settled.summary.provider_empty_count)
sync-IsTallied_example =
    sync-IsTallied gap_text one_settled
      (then_step (then_step (rest start_state) (begins start_state))
        (settles "TCS" (returned (some "i1") updated []) one_begun 0 on_its_way))
      nothing_left
