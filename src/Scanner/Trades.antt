-- ===== src/Scanner/Trades.antt =====
-- The trades of src/modules/scanner/scanner.backtest.ts.
-- `returnPct` is ((exitClose - entryClose) / entryClose) * 100, a fraction of the two closes, which
-- are kept in its place.
use stock_harvesting_backend.Prelude.{
  ℕ, ◌+◌, ◌-◌, Bool, true, false, List, [], ◌∷◌, ◌++◌, map, Option, none, some, length, get_or,
}
use stock_harvesting_backend.Scanner.Rule.{ScannerWeeklyCandle, evaluate_scanner_weekly_series}

pub record BreakoutTrade : Type 0 where
  pub entry_index : ℕ
  pub exit_index : ℕ
  pub entry_close : ℕ
  pub exit_close : ℕ

unfoldable pub build_breakout_trade : ℕ → ℕ → List ScannerWeeklyCandle → BreakoutTrade
build_breakout_trade entry_index exit_index rows = record {
  entry_index = entry_index;
  exit_index = exit_index;
  entry_close = get_or (map (λ c. c.close) rows) entry_index 0;
  exit_close = get_or (map (λ c. c.close) rows) exit_index 0;
}

module _ (rows : List ScannerWeeklyCandle) where
  -- What follows the loop: a position that is still open is closed at the last row.
  abbrev pub close_open_trade : Option ℕ → List BreakoutTrade
  close_open_trade none = []
  close_open_trade (some entry) = build_breakout_trade entry (length rows - 1) rows ∷ []

  -- The loop from an index on, with `matched[index - 1]` and `entryIndex`.
  unfoldable pub trades_from : ℕ → Bool → Option ℕ → List Bool → List BreakoutTrade
  trades_from index was entry [] = close_open_trade entry
  trades_from index false entry (true ∷ matched) = trades_from (index + 1) true (some index) matched
  trades_from index true (some entry) (false ∷ matched) =
      build_breakout_trade entry index rows ∷ trades_from (index + 1) false none matched
  trades_from index was entry (m ∷ matched) = trades_from (index + 1) m entry matched

unfoldable pub build_breakout_trades_for_segment : List ScannerWeeklyCandle → ℕ → List BreakoutTrade
unfolding trades_from build_breakout_trade evaluate_scanner_weekly_series
build_breakout_trades_for_segment weekly_rows lookback_weeks =
    let matched = map (λ p. p.passes) (evaluate_scanner_weekly_series weekly_rows lookback_weeks) in
    trades_from weekly_rows 0 false none matched

-- The trades of all segments, in order.
unfoldable pub breakout_trades : List (List ScannerWeeklyCandle) → ℕ → List BreakoutTrade
unfolding build_breakout_trades_for_segment
breakout_trades [] lookback_weeks = []
breakout_trades (segment ∷ segments) lookback_weeks =
    build_breakout_trades_for_segment segment lookback_weeks
    ++ breakout_trades segments lookback_weeks
