-- ===== src/Evaluator/Series.antt =====
-- `evaluateWeeklyStrongSeries`, `excludeIncompleteTradingWeek` and `findCurrentStreakEntryIndex` of
-- src/modules/market-data/weekly-strong-evaluator.ts.
use stock_harvesting_backend.Prelude.{
  ℕ, zero, suc, ◌+◌, ◌-◌, Bool, false, String, List, [], ◌∷◌, Option, none, some, leb, ltb,
  if◌then◌else◌, length, get_elem?, get_last?, map, ◌&&◌,
}
use stock_harvesting_backend.Calendar.{Formatter, is_completed_trading_week}
use stock_harvesting_backend.Evaluator.RollingMax.{rolling_max}
use stock_harvesting_backend.Evaluator.NearHigh.{Ratio, Options, above}

pub record WeeklyStrongCandle : Type 0 where
  pub time : ℕ
  pub close : ℕ

pub record WeeklyStrongSeriesPoint : Type 0 where
  pub time : ℕ
  pub passes : Bool
  pub passes_daily : Bool
  pub passes_weekly : Bool

-- `rows.slice(0, -1)`
abbrev pub drop_last {ℓ} : {A : Type ℓ} → List A → List A
drop_last [] = []
drop_last (x ∷ []) = []
drop_last (x ∷ y ∷ ys) = x ∷ drop_last (y ∷ ys)

abbrev pub exclude_last {ℓ} : {A : Type ℓ} → (ℕ → Bool) → (A → ℕ) → List A → Option A → List A
exclude_last completed time rows none = rows
exclude_last completed time rows (some last) =
    if completed (time last) then rows else drop_last rows

-- `T extends { time: string }` is a type with its `time`.
unfoldable pub exclude_incomplete_trading_week {ℓ} :
    {A : Type ℓ} → (A → ℕ) → Formatter → ℕ → List A → String → List A
exclude_incomplete_trading_week time fmt at weekly_rows exchange =
    exclude_last (is_completed_trading_week fmt exchange at) time weekly_rows
      (get_last? weekly_rows)

abbrev pub time_until : Option WeeklyStrongCandle → ℕ → Bool
time_until none t = false
time_until (some c) t = leb c.time t

-- `while (dailyIndex + 1 < dailyCandles.length && dailyCandles[dailyIndex + 1].time <= weeklyRow.time)`;
-- the fuel is the number of daily candles, which bounds the index.
unfoldable pub advance : List WeeklyStrongCandle → ℕ → ℕ → ℕ → ℕ
advance daily t zero daily_index = daily_index
advance daily t (suc fuel) daily_index =
    let further = advance daily t fuel (daily_index + 1) in
    if time_until (get_elem? daily (daily_index + 1)) t then further else daily_index

-- `closes[i] > max[i] * ratio`, false where an index is out of range.
abbrev pub exceeds : Option ℕ → Option (Option ℕ) → Ratio → Bool
exceeds close none ratio = false
exceeds close (some none) ratio = false
exceeds close (some (some high)) ratio = above close (some high) ratio

unfoldable pub series_point : ℕ → Bool → Bool → WeeklyStrongSeriesPoint
series_point time passes_weekly passes_daily = record {
  time = time;
  passes = passes_weekly && passes_daily;
  passes_daily = passes_daily;
  passes_weekly = passes_weekly;
}

abbrev pub push {ℓ} : {A : Type ℓ} → A → Option (List A) → Option (List A)
push a none = none
push a (some rest) = some (a ∷ rest)

-- The body of the loop: `none` is the TypeError of reading `time` of a daily candle that is not there.
abbrev pub emit :
    Option WeeklyStrongCandle
    → ℕ
    → WeeklyStrongSeriesPoint
    → Option (List WeeklyStrongSeriesPoint)
    → Option (List WeeklyStrongSeriesPoint)
emit none t point rest = none
emit (some d) t point rest = if ltb t d.time then rest else push point rest

module _ (daily : List WeeklyStrongCandle) (daily_max weekly_max : List (Option ℕ))
    (ratio : Ratio) where
  -- The loop over the weekly rows that are left, with `weeklyIndex` and `dailyIndex`.
  unfoldable pub series_from :
      ℕ → ℕ → List WeeklyStrongCandle → Option (List WeeklyStrongSeriesPoint)
  series_from weekly_index daily_index [] = some []
  series_from weekly_index daily_index (row ∷ rows) =
      let i = advance daily row.time (length daily) daily_index in
      let passes_weekly = exceeds (some row.close) (get_elem? weekly_max weekly_index) ratio in
      let passes_daily =
        exceeds (get_elem? (map (λ c. c.close) daily) i) (get_elem? daily_max i) ratio in
      emit (get_elem? daily i) row.time (series_point row.time passes_weekly passes_daily)
        (series_from (weekly_index + 1) i rows)

unfoldable pub evaluate_weekly_strong_series :
    List WeeklyStrongCandle
    → List WeeklyStrongCandle
    → Options
    → Option (List WeeklyStrongSeriesPoint)
unfolding rolling_max series_from advance series_point
evaluate_weekly_strong_series daily weekly options =
    let daily_max = rolling_max (map (λ c. c.close) daily) options.daily_lookback_bars in
    let weekly_max = rolling_max (map (λ c. c.close) weekly) options.weekly_lookback_bars in
    series_from daily daily_max weekly_max options.ratio 0 0 weekly

-- `while (index > 0 && series[index - 1].passes) index--`
unfoldable pub walk_back : (ℕ → Bool) → ℕ → ℕ
walk_back passed zero = zero
walk_back passed (suc before) =
    let further = walk_back passed before in if passed before then further else suc before

-- `series[i].passes`, false where there is no such point.
abbrev pub passes_at : List WeeklyStrongSeriesPoint → ℕ → Bool
passes_at series i = elim (get_elem? series i) [ none ↦ false | some p ↦ p.passes ]

unfoldable pub find_current_streak_entry_index : List WeeklyStrongSeriesPoint → Option ℕ
unfolding walk_back
find_current_streak_entry_index series =
    let last = length series - 1 in
    if passes_at series last then some (walk_back (passes_at series) last) else none
