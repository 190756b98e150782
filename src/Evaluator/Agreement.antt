-- ===== src/Evaluator/Agreement.antt =====
-- The whole series against the decision at each bar.
use stock_harvesting_backend.Prelude.{
  ℕ, zero, suc, ◌+◌, ◌-◌, ◌≤◌, ◌<◌, ◌≡◌, refl, List, [], ◌∷◌, some, length, get_elem?, arith, map,
  ap, sym, ◌∙◌, length-map,
}
use stock_harvesting_backend.Evaluator.RollingMax.{rolling_max}
use stock_harvesting_backend.Evaluator.NearHigh.{Options, passes_near_high}
use stock_harvesting_backend.Evaluator.Series.{
  WeeklyStrongCandle, WeeklyStrongSeriesPoint, exceeds, series_point, emit, series_from,
  evaluate_weekly_strong_series,
}
use stock_harvesting_backend.Evaluator.Cursor.{
  IsAscending, count_until, expected_point, expected_series, exceeds-passes_near_high,
  count_until-le, count_until_mono, IsAscending-tail, ltb-count_until, advance_lem, get_elem?-lt,
  lt-get_elem?,
}

module _ (options : Options) (daily weekly : List WeeklyStrongCandle) where
  abbrev closes : List WeeklyStrongCandle → List ℕ
  closes = map (λ c. c.close)

  -- The comparison of times keeps the point exactly if some daily candle is old enough.
  emit-chosen :
      (n i time weekly_index : ℕ) (rest : List WeeklyStrongSeriesPoint) (d : WeeklyStrongCandle)
      → i ≡ n - 1
      → IsAscending daily
      → n ≡ count_until time daily
      → get_elem? daily i ≡ some d
      → emit
          (get_elem? daily i)
          time
          (series_point time
            (passes_near_high
              (closes weekly)
              weekly_index
              options.weekly_lookback_bars
              options.ratio)
            (passes_near_high (closes daily) i options.daily_lookback_bars options.ratio))
          (some rest)
        ≡ some (expected_point options (closes daily) (closes weekly) time weekly_index n rest)
  unfolding expected_point
  emit-chosen zero i time wi rest d same asc e found =
      ground (arith, ltb-count_until time i daily asc, found)
  emit-chosen (suc n) i time wi rest d same asc e found =
      let i' : i ≡ n = omega arith in
      let on_time = ltb-count_until time i daily asc in rw (← i') (ground (arith, on_time, found))

  -- What one round of the loop adds, for the number `n` of daily candles up to its time.
  emit-expected_point :
      (n time weekly_index : ℕ) (row_close : ℕ) (rest : List WeeklyStrongSeriesPoint)
      → 0 < options.daily_lookback_bars
      → 0 < options.weekly_lookback_bars
      → IsAscending daily
      → 0 < length daily
      → get_elem? (closes weekly) weekly_index ≡ some row_close
      → n ≡ count_until time daily
      → emit
          (get_elem? daily (n - 1))
          time
          (series_point time
            (exceeds
              (some row_close)
              (get_elem? (rolling_max (closes weekly) options.weekly_lookback_bars) weekly_index)
              options.ratio)
            (exceeds
              (get_elem? (closes daily) (n - 1))
              (get_elem? (rolling_max (closes daily) options.daily_lookback_bars) (n - 1))
              options.ratio))
          (some rest)
        ≡ some (expected_point options (closes daily) (closes weekly) time weekly_index n rest)
  unfolding expected_point
  emit-expected_point n time wi row_close rest dw ww asc full row e =
      let (d, found) = get_elem?-lt daily (n - 1) (omega (arith, count_until-le time daily)) in
      let weekly_side =
        ap
          (λ c.
            exceeds c (get_elem? (rolling_max (closes weekly) options.weekly_lookback_bars) wi)
              options.ratio)
          (sym row)
        ∙ exceeds-passes_near_high (closes weekly) wi options.weekly_lookback_bars options.ratio ww
            (lt-get_elem? (closes weekly) wi row_close row) in
      let daily_side =
        exceeds-passes_near_high (closes daily) (n - 1) options.daily_lookback_bars options.ratio dw
          (omega (arith, length-map daily (λ c. c.close), count_until-le time daily)) in
      rw (weekly_side, daily_side) (emit-chosen n (n - 1) time wi rest d refl asc e found)

  -- The rows that are left are those of the whole weekly series from the index on.
  abbrev IsRest : ℕ → List WeeklyStrongCandle → Type 0
  IsRest wi rows =
      (k j : ℕ)
      → wi + k ≡ j
      → k < length rows
      → get_elem? (closes weekly) j ≡ get_elem? (closes rows) k

  series_from-expected_series :
      (wi di : ℕ) (rows : List WeeklyStrongCandle)
      → 0 < options.daily_lookback_bars
      → 0 < options.weekly_lookback_bars
      → IsAscending daily
      → 0 < length daily
      → IsAscending rows
      → ((t : ℕ) → get_elem? (map (λ c. c.time) rows) 0 ≡ some t → di ≤ count_until t daily - 1)
      → IsRest wi rows
      → series_from daily
          (rolling_max (closes daily) options.daily_lookback_bars)
          (rolling_max (closes weekly) options.weekly_lookback_bars)
          options.ratio
          wi
          di
          rows
        ≡ some (expected_series options daily (closes weekly) wi rows)
  unfolding series_from expected_series
  series_from-expected_series wi di [] dw ww asc full asc' le rest = refl
  series_from-expected_series wi di (row ∷ rows) dw ww asc full asc' le rest =
      let at_last =
        advance_lem daily row.time (length daily) di asc (le row.time refl) (omega arith) in
      let n = count_until row.time daily in
      let later =
        series_from-expected_series (wi + 1) (n - 1) rows dw ww asc full
          (IsAscending-tail row rows asc') (next_time row rows asc')
          (λ k j e h. rest (suc k) j (omega arith) (omega arith)) in
      rw (at_last, later)
        (emit-expected_point n row.time wi row.close
          (expected_series options daily (closes weekly) (wi + 1) rows) dw ww asc full
          (rest 0 wi (omega arith) (omega arith)) refl)
    where
      next_time :
          (row : WeeklyStrongCandle) (rows : List WeeklyStrongCandle)
          → IsAscending (row ∷ rows)
          → (t : ℕ) → get_elem? (map (λ c. c.time) rows) 0 ≡ some t
          → count_until row.time daily - 1 ≤ count_until t daily - 1
      next_time row [] h t e = cc
      next_time row (r ∷ rs) h t e = omega (arith, count_until_mono row.time t daily (ground arith))

-- With ascending daily candles, of which there is one at least, and ascending weekly candles, the
-- series that the sliding maxima give is the list of the decisions of the plain scan at each weekly
-- bar, taken at the last daily bar no later than it; a weekly bar before the first daily one is left
-- out. The windows have at least one place.
pub evaluate_weekly_strong_series-expected_series :
    (options : Options) (daily weekly : List WeeklyStrongCandle)
    → 0 < options.daily_lookback_bars
    → 0 < options.weekly_lookback_bars
    → IsAscending daily
    → 0 < length daily
    → IsAscending weekly
    → evaluate_weekly_strong_series daily weekly options
      ≡ some (expected_series options daily (map (λ c. c.close) weekly) 0 weekly)
unfolding evaluate_weekly_strong_series
evaluate_weekly_strong_series-expected_series options daily weekly dw ww asc full asc' =
    series_from-expected_series options daily weekly 0 0 weekly dw ww asc full asc'
      (λ t e. omega arith) (λ k j e h. let same : j ≡ k = omega arith in rw same refl)
