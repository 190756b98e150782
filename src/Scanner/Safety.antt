-- ===== src/Scanner/Safety.antt =====
-- src/modules/scanner/rules/scanner-weekly-series-safety.ts.
use stock_harvesting_backend.Prelude.{
  ℕ, ◌+◌, Bool, false, String, List, [], ◌∷◌, ◌++◌, Option, none, some, leb, ltb, get_last?,
  if◌then◌else◌,
}
use stock_harvesting_backend.Calendar.{
  Formatter, get_week_ending_friday, resolve_latest_completed_week_ending,
}
use stock_harvesting_backend.Scanner.Rule.{ScannerWeeklyCandle}

abbrev pub days_per_trading_week : ℕ
days_per_trading_week = 7

-- `daysBetweenDates(earlier, later) > DAYS_PER_TRADING_WEEK`, over signed differences
abbrev pub is_gap : ℕ → ℕ → Bool
is_gap earlier later = ltb (earlier + days_per_trading_week) later

-- The loop from a row on, with the row before it and the segment that is being filled.
unfoldable pub partition_from :
    ScannerWeeklyCandle
    → List ScannerWeeklyCandle
    → List ScannerWeeklyCandle
    → List (List ScannerWeeklyCandle)
unfolding get_week_ending_friday
partition_from previous current [] = current ∷ []
partition_from previous current (row ∷ rows) =
    let begun = partition_from row (row ∷ []) rows in
    let extended = partition_from row (current ++ row ∷ []) rows in
    if is_gap (get_week_ending_friday previous.time) (get_week_ending_friday row.time)
    then current ∷ begun
    else extended

-- Called for a series that is not empty.
unfoldable pub partition_on_fully_missing_weeks :
    List ScannerWeeklyCandle → List (List ScannerWeeklyCandle)
unfolding partition_from
partition_on_fully_missing_weeks [] = []
partition_on_fully_missing_weeks (row ∷ rows) = partition_from row (row ∷ []) rows

pub record ScannerWeeklySeriesPartition : Type 0 where
  pub segments : List (List ScannerWeeklyCandle)
  pub latest_segment : List ScannerWeeklyCandle
  pub is_latest_week_fresh : Bool

-- `segments[segments.length - 1] ?? []`
abbrev pub last_segment : Option (List ScannerWeeklyCandle) → List ScannerWeeklyCandle
last_segment none = []
last_segment (some segment) = segment

abbrev pub is_fresh : ℕ → Option ScannerWeeklyCandle → Bool
is_fresh expected none = false
is_fresh expected (some row) = leb expected (get_week_ending_friday row.time)

unfoldable pub classify_scanner_weekly_series :
    Formatter → ℕ → List ScannerWeeklyCandle → String → ScannerWeeklySeriesPartition
unfolding partition_on_fully_missing_weeks
classify_scanner_weekly_series fmt at [] exchange = record {
  segments = [];
  latest_segment = [];
  is_latest_week_fresh = false;
}
classify_scanner_weekly_series fmt at (row ∷ rows) exchange =
    let segments = partition_on_fully_missing_weeks (row ∷ rows) in
    let latest = last_segment (get_last? segments) in
    record {
      segments = segments;
      latest_segment = latest;
      is_latest_week_fresh =
          is_fresh (resolve_latest_completed_week_ending fmt exchange at) (get_last? latest);
    }
