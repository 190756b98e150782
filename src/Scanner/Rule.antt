-- ===== src/Scanner/Rule.antt =====
-- src/modules/scanner/rules/scanner-weekly-rule.ts.
-- Closes and the ratio are as in the evaluator of weekly strength.
use stock_harvesting_backend.Prelude.{
  ℕ, ◌+◌, Bool, List, [], ◌∷◌, Option, some, leb, get_elem?, map, ◌&&◌,
}
use stock_harvesting_backend.Evaluator.{Ratio, exceeds, rolling_max}

pub record ScannerWeeklyCandle : Type 0 where
  pub time : ℕ
  pub close : ℕ

pub record ScannerQualificationPoint : Type 0 where
  pub time : ℕ
  pub passes : Bool

abbrev pub scanner_near_high_ratio : Ratio
scanner_near_high_ratio = record { num = 85; den = 100 }

-- The file's own `rollingMax` has the text of the evaluator's.
abbrev pub scanner_rolling_max : List ℕ → ℕ → List (Option ℕ)
scanner_rolling_max = rolling_max

-- The points from an index on.
unfoldable pub points_from :
    List (Option ℕ) → ℕ → ℕ → List ScannerWeeklyCandle → List ScannerQualificationPoint
points_from rolling_highs lookback_weeks index [] = []
points_from rolling_highs lookback_weeks index (row ∷ rows) =
    record {
      time = row.time;
      passes =
          leb lookback_weeks (index + 1)
          && exceeds (some row.close) (get_elem? rolling_highs index) scanner_near_high_ratio;
    }
    ∷ points_from rolling_highs lookback_weeks (index + 1) rows

unfoldable pub evaluate_scanner_weekly_series :
    List ScannerWeeklyCandle → ℕ → List ScannerQualificationPoint
unfolding points_from rolling_max
evaluate_scanner_weekly_series weekly_candles lookback_weeks =
    let rolling_highs = scanner_rolling_max (map (λ c. c.close) weekly_candles) lookback_weeks in
    points_from rolling_highs lookback_weeks 0 weekly_candles
