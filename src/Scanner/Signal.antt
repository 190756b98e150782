-- ===== src/Scanner/Signal.antt =====
-- `resolveCurrentScannerSignal` of src/modules/scanner/scanner-current-signal.ts and the chart scan of
-- src/modules/scanner/rules/near-250-week-close-high.ts.
use stock_harvesting_backend.Prelude.{
  ℕ, ◌-◌, Bool, true, false, not, List, [], ◌∷◌, ◌++◌, map, Option, none, some, leb, length,
  get_elem?, get_last?, filter, if◌then◌else◌, ◌&&◌, ◌==◌,
}
use stock_harvesting_backend.Evaluator.{walk_back}
use stock_harvesting_backend.Scanner.Rule.{
  ScannerWeeklyCandle, ScannerQualificationPoint, evaluate_scanner_weekly_series,
}
use stock_harvesting_backend.Scanner.Lookback.{get_effective_scanner_lookback_weeks}

pub record CurrentScannerSignal : Type 0 where
  pub matched : Bool
  pub effective_lookback_weeks : Option ℕ
  pub current_time : Option ℕ
  pub current_close : Option ℕ
  pub entry_time : Option ℕ
  pub entry_close : Option ℕ
  pub previous_week_matched : Option Bool
  pub previous_week_time : Option ℕ

abbrev pub empty_signal : CurrentScannerSignal
empty_signal = record {
  matched = false;
  effective_lookback_weeks = none;
  current_time = none;
  current_close = none;
  entry_time = none;
  entry_close = none;
  previous_week_matched = none;
  previous_week_time = none;
}

-- `row?.field`
abbrev pub field {ℓ κ} : {A : Type ℓ} {B : Type κ} → (A → B) → Option A → Option B
field f none = none
field f (some a) = some (f a)

-- `points[i]?.passes === true`
abbrev pub point_passes : List ScannerQualificationPoint → ℕ → Bool
point_passes points i = elim (get_elem? points i) [ none ↦ false | some p ↦ p.passes ]

-- `points.length >= 2 ? points[points.length - 2] : null`
abbrev pub previous_point : List ScannerQualificationPoint → Option ScannerQualificationPoint
previous_point points = if leb 2 (length points) then get_elem? points (length points - 2) else none

-- The signal from the points of the latest segment.
unfoldable pub signal_of :
    List ScannerWeeklyCandle
    → ScannerWeeklyCandle
    → ℕ
    → List ScannerQualificationPoint
    → CurrentScannerSignal
unfolding walk_back
signal_of segment current lookback points =
    let last = length points - 1 in
    let entry = get_elem? segment (walk_back (point_passes points) last) in
    let matched = point_passes points last in
    record {
      matched = matched;
      effective_lookback_weeks = some lookback;
      current_time = some current.time;
      current_close = some current.close;
      entry_time = if matched then field (λ c. c.time) entry else none;
      entry_close = if matched then field (λ c. c.close) entry else none;
      previous_week_matched = field (λ p. p.passes) (previous_point points);
      previous_week_time = field (λ p. p.time) (previous_point points);
    }

-- `!effectiveLookbackWeeks` holds of null and of 0.
abbrev pub signal_at :
    List ScannerWeeklyCandle → ScannerWeeklyCandle → Option ℕ → CurrentScannerSignal
signal_at segment current none = record empty_signal {
  current_time = some current.time;
  current_close = some current.close;
}
signal_at segment current (some lookback) =
    if lookback == 0
    then record empty_signal {
      current_time = some current.time;
      current_close = some current.close;
    }
    else signal_of segment current lookback (evaluate_scanner_weekly_series segment lookback)

abbrev pub signal_for :
    List ScannerWeeklyCandle → Option ScannerWeeklyCandle → ℕ → Bool → CurrentScannerSignal
signal_for segment none requested strict = empty_signal
signal_for segment (some current) requested strict =
    signal_at segment current
      (get_effective_scanner_lookback_weeks requested (length segment) strict)

unfoldable pub resolve_current_scanner_signal :
    List ScannerWeeklyCandle → Bool → ℕ → Bool → CurrentScannerSignal
unfolding signal_of
resolve_current_scanner_signal latest_segment is_latest_week_fresh requested strict =
    if is_latest_week_fresh
    then signal_for latest_segment (get_last? latest_segment) requested strict
    else empty_signal

pub record Near250WeekCloseHighScanMatch : Type 0 where
  pub matched : Option Bool
  pub start_time : Option ℕ
  pub end_time : Option ℕ
  pub highlight_times : List ℕ
  pub lookback_weeks : Option ℕ

-- What one segment adds to `highlightTimes`.
unfoldable pub segment_highlights : List ScannerWeeklyCandle → Option ℕ → List ℕ
segment_highlights segment none = []
segment_highlights segment (some lookback) =
    if lookback == 0
    then []
    else map (λ p. p.time)
        (filter (λ p. p.passes) (evaluate_scanner_weekly_series segment lookback))

unfoldable pub highlights : List (List ScannerWeeklyCandle) → ℕ → List ℕ
unfolding segment_highlights
highlights [] requested = []
highlights (segment ∷ segments) requested =
    segment_highlights segment
      (get_effective_scanner_lookback_weeks requested (length segment) true)
    ++ highlights segments requested

-- `a ?? b`
abbrev pub or_else {ℓ} : {A : Type ℓ} → Option A → Option A → Option A
or_else none b = b
or_else (some a) b = some a

abbrev is_truthy : Option ℕ → Bool
is_truthy none = false
is_truthy (some n) = not (n == 0)

abbrev is_empty {ℓ} : {A : Type ℓ} → List A → Bool
is_empty [] = true
is_empty (x ∷ xs) = false

abbrev is_none {ℓ} : {A : Type ℓ} → Option A → Bool
is_none none = true
is_none (some a) = false

unfoldable pub calculate_near_250_week_close_high_scan :
    List (List ScannerWeeklyCandle)
    → List ScannerWeeklyCandle
    → Bool
    → ℕ
    → Option Near250WeekCloseHighScanMatch
unfolding highlights resolve_current_scanner_signal
calculate_near_250_week_close_high_scan segments latest_segment is_latest_week_fresh requested =
    let highlight_times = highlights segments requested in
    let signal =
      resolve_current_scanner_signal latest_segment is_latest_week_fresh requested true in
    let matched =
      if is_latest_week_fresh && is_truthy signal.effective_lookback_weeks
      then some signal.matched
      else none in
    let latest_time =
      or_else (field (λ c. c.time) (get_last? latest_segment)) (get_last? highlight_times) in
    if is_empty highlight_times && is_none matched
    then none
    else some (record {
      matched = matched;
      start_time = or_else (get_elem? highlight_times 0) latest_time;
      end_time = latest_time;
      highlight_times = highlight_times;
      lookback_weeks = signal.effective_lookback_weeks;
    })
