-- ===== src/Tests/Series.antt =====
-- Series of weekly and daily candles.
use stock_harvesting_backend.Prelude.{
  ℕ, ◌+◌, ◌-◌, ◌≡◌, ◌↔◌, refl, true, false, List, [], ◌∷◌, none, some, length, map, get_elem?, leb,
  ◌&&◌, All, arith,
}
use stock_harvesting_backend.Calendar.{get_exchange_local_parts, get_week_ending_friday}
use stock_harvesting_backend.Evaluator.{
  Options, WeeklyStrongCandle, WeeklyStrongSeriesPoint, evaluate_weekly_strong_series, rolling_max,
  window_high, window_start, passes_near_high,
}
use stock_harvesting_backend.Evaluator.Windows.{rolling_max-window_high}
use stock_harvesting_backend.Evaluator.Cursor.{expected_series}
use stock_harvesting_backend.Evaluator.Agreement.{evaluate_weekly_strong_series-expected_series}
use stock_harvesting_backend.Evaluator.Streak.{IsEntry, AreWeeks}
use stock_harvesting_backend.Scanner.Rule.{
  ScannerWeeklyCandle, scanner_near_high_ratio, evaluate_scanner_weekly_series,
}
use stock_harvesting_backend.Scanner.Lookback.{get_effective_scanner_lookback_weeks}
use stock_harvesting_backend.Scanner.Signal.{resolve_current_scanner_signal, point_passes, field}
use stock_harvesting_backend.Scanner.Points.{closes, evaluate_scanner_weekly_series_lem}
use stock_harvesting_backend.Scanner.Verdict.{
  resolve_current_scanner_signal_iff, resolve_current_scanner_signal-IsEntry,
}
use stock_harvesting_backend.Scanner.Safety.{partition_on_fully_missing_weeks}
use stock_harvesting_backend.Scanner.Segments.{
  concat, HasNoGap, AreParted, partition_on_fully_missing_weeks_lem,
}
use stock_harvesting_backend.Scanner.Trades.{build_breakout_trades_for_segment}
use stock_harvesting_backend.Scanner.Runs.{
  at, IsRun, IsHeld, matched_weeks, build_breakout_trades_for_segment-IsRun,
  build_breakout_trades_for_segment-IsHeld,
}
use stock_harvesting_backend.Tests.Calendar.{daily_formatter}

abbrev highs : List ℕ
highs = 5 ∷ 9 ∷ 4 ∷ 7 ∷ []

rolling_max-window_high_example :
    get_elem? (rolling_max highs 2) 3
    ≡ some (window_high highs (3 + 1 - window_start 3 2) (window_start 3 2) none)
rolling_max-window_high_example = rolling_max-window_high highs 2 3 (omega arith) (omega arith)

abbrev two_weeks : List WeeklyStrongCandle
two_weeks = record { time = 738001; close = 90 } ∷ record { time = 738008; close = 100 } ∷ []

abbrev short_options : Options
short_options = record {
  weekly_lookback_bars = 2;
  daily_lookback_bars = 2;
  ratio = record { num = 85; den = 100 };
}

evaluate_weekly_strong_series-expected_series_example :
    evaluate_weekly_strong_series two_weeks two_weeks short_options
    ≡ some (expected_series short_options two_weeks (map (λ c. c.close) two_weeks) 0 two_weeks)
evaluate_weekly_strong_series-expected_series_example =
    evaluate_weekly_strong_series-expected_series short_options two_weeks two_weeks (omega arith)
      (omega arith) (omega arith, tt) (omega arith) (omega arith, tt)

abbrev streak : List WeeklyStrongSeriesPoint
streak =
    record { time = 1; passes = false; passes_daily = false; passes_weekly = true }
    ∷ record { time = 2; passes = true; passes_daily = true; passes_weekly = true }
    ∷ []

two_weeks-AreWeeks :
    AreWeeks
      (λ (c : WeeklyStrongCandle). c.time)
      (get_exchange_local_parts daily_formatter "NSE" 10).date
      two_weeks
unfolding get_exchange_local_parts get_week_ending_friday
two_weeks-AreWeeks = (omega arith, omega arith, omega arith)

-- The scanner's rows.
abbrev rows : List ScannerWeeklyCandle
rows =
    record { time = 738001; close = 90 }
    ∷ record { time = 738008; close = 100 }
    ∷ record { time = 738029; close = 95 }
    ∷ []

evaluate_scanner_weekly_series_lem_example :
    get_elem? (evaluate_scanner_weekly_series rows 2) 1
    ≡ some (record {
      time = 738008;
      passes = leb 2 2 && passes_near_high (closes rows) 1 2 scanner_near_high_ratio;
    })
evaluate_scanner_weekly_series_lem_example =
    evaluate_scanner_weekly_series_lem rows 2 1 (record { time = 738008; close = 100 })
      (omega arith) refl

resolve_current_scanner_signal_iff_example :
    let signal = resolve_current_scanner_signal rows true 2 true in
    ((signal.matched ≡ true) ↔ (
      (true ≡ true)
      × ((lookback : ℕ) × (get_effective_scanner_lookback_weeks 2 (length rows) true
            ≡ some lookback)
          × (passes_near_high (closes rows) 2 lookback scanner_near_high_ratio ≡ true))))
resolve_current_scanner_signal_iff_example =
    resolve_current_scanner_signal_iff (record { time = 738001; close = 90 })
      (record { time = 738008; close = 100 } ∷ record { time = 738029; close = 95 } ∷ []) true true
      2 (omega arith)

matching : (resolve_current_scanner_signal rows true 2 true).matched ≡ true
unfolding resolve_current_scanner_signal get_effective_scanner_lookback_weeks
    evaluate_scanner_weekly_series
matching = refl

resolve_current_scanner_signal-IsEntry_example :
    let signal = resolve_current_scanner_signal rows true 2 true in
    (i : ℕ) × IsEntry (point_passes (evaluate_scanner_weekly_series rows 2)) 2 i
    × (signal.entry_time ≡ field (λ c. c.time) (get_elem? rows i))
    × (signal.entry_close ≡ field (λ c. c.close) (get_elem? rows i))
unfolding get_effective_scanner_lookback_weeks
resolve_current_scanner_signal-IsEntry_example =
    resolve_current_scanner_signal-IsEntry (record { time = 738001; close = 90 })
      (record { time = 738008; close = 100 } ∷ record { time = 738029; close = 95 } ∷ []) true 2 2
      (omega arith) refl matching

partition_on_fully_missing_weeks_lem_example :
    let segments = partition_on_fully_missing_weeks rows in
    (concat segments ≡ rows) × All HasNoGap segments × AreParted segments
partition_on_fully_missing_weeks_lem_example = partition_on_fully_missing_weeks_lem rows

build_breakout_trades_for_segment-IsRun_example :
    All (IsRun (matched_weeks rows 2)) (build_breakout_trades_for_segment rows 2)
build_breakout_trades_for_segment-IsRun_example = build_breakout_trades_for_segment-IsRun rows 2

second_week : at (matched_weeks rows 2) 1 ≡ true
unfolding evaluate_scanner_weekly_series
second_week = refl

build_breakout_trades_for_segment-IsHeld_example :
    IsHeld 1 (build_breakout_trades_for_segment rows 2)
build_breakout_trades_for_segment-IsHeld_example =
    build_breakout_trades_for_segment-IsHeld rows 2 1 second_week (omega arith)
