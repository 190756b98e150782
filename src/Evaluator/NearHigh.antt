-- ===== src/Evaluator/NearHigh.antt =====
-- `passesNearHigh` of src/modules/market-data/weekly-strong-evaluator.ts and the decision at the
-- latest bars.
use stock_harvesting_backend.Prelude.{
  ℕ, zero, suc, ◌+◌, ◌-◌, ◌*◌, Bool, true, false, List, Option, none, some, leb, ltb, if◌then◌else◌,
  length, get_elem?, ◌&&◌,
}
use stock_harvesting_backend.Evaluator.RollingMax.{value_at}

pub record Ratio : Type 0 where
  pub num : ℕ
  pub den : ℕ

abbrev pub weekly_strong_weekly_lookback_bars : ℕ
weekly_strong_weekly_lookback_bars = 250

abbrev pub weekly_strong_daily_lookback_bars : ℕ
weekly_strong_daily_lookback_bars = 1252

abbrev pub weekly_strong_near_high_ratio : Ratio
weekly_strong_near_high_ratio = record { num = 85; den = 100 }

abbrev pub min_weekly_strong_daily_bars : ℕ
min_weekly_strong_daily_bars = 50

abbrev pub min_weekly_strong_weekly_bars : ℕ
min_weekly_strong_weekly_bars = 20

unfoldable pub has_sufficient_weekly_strong_history : ℕ → ℕ → Bool
has_sufficient_weekly_strong_history daily_bar_count weekly_bar_count =
    leb min_weekly_strong_daily_bars daily_bar_count
    && leb min_weekly_strong_weekly_bars weekly_bar_count

-- `if (closes[i] > high) high = closes[i]`, where `none` is -Infinity
abbrev pub raise : Option ℕ → ℕ → Option ℕ
raise none c = some c
raise (some high) c = if ltb high c then some c else some high

-- `for (let i = start; i <= index; i++)` with the rounds that are left
unfoldable pub window_high : List ℕ → ℕ → ℕ → Option ℕ → Option ℕ
window_high closes zero i high = high
window_high closes (suc rounds) i high =
    window_high closes rounds (i + 1) (raise high (value_at closes i))

-- `close > high * ratio`: a close is above -Infinity, and no close, out of range, is above anything.
abbrev pub above : Option ℕ → Option ℕ → Ratio → Bool
above none high ratio = false
above (some close) none ratio = true
above (some close) (some high) ratio = ltb (high * ratio.num) (close * ratio.den)

-- `Math.max(0, index - lookbackBars + 1)`
abbrev pub window_start : ℕ → ℕ → ℕ
window_start index lookback_bars = index + 1 - lookback_bars

unfoldable pub passes_near_high : List ℕ → ℕ → ℕ → Ratio → Bool
unfolding window_high
passes_near_high closes index lookback_bars ratio =
    let start = window_start index lookback_bars in
    above (get_elem? closes index) (window_high closes (index + 1 - start) start none) ratio

pub record WeeklyStrongDecision : Type 0 where
  pub passes : Bool
  pub passes_daily : Bool
  pub passes_weekly : Bool

pub record Options : Type 0 where
  pub daily_lookback_bars : ℕ
  pub weekly_lookback_bars : ℕ
  pub ratio : Ratio

-- The options that the callers leave out.
abbrev pub default_options : Options
default_options = record {
  daily_lookback_bars = weekly_strong_daily_lookback_bars;
  weekly_lookback_bars = weekly_strong_weekly_lookback_bars;
  ratio = weekly_strong_near_high_ratio;
}

unfoldable pub evaluate_weekly_strong_latest : List ℕ → List ℕ → Options → WeeklyStrongDecision
unfolding passes_near_high
evaluate_weekly_strong_latest daily_closes weekly_closes options =
    let passes_daily =
      passes_near_high daily_closes (length daily_closes - 1) options.daily_lookback_bars
        options.ratio in
    let passes_weekly =
      passes_near_high weekly_closes (length weekly_closes - 1) options.weekly_lookback_bars
        options.ratio in
    record {
      passes = passes_daily && passes_weekly;
      passes_daily = passes_daily;
      passes_weekly = passes_weekly;
    }
