-- ===== src/Evaluator/Cursor.antt =====
-- The daily cursor, and the decision that is expected at a weekly bar.
use stock_harvesting_backend.Prelude.{
  ℕ, zero, suc, ◌+◌, ◌-◌, ◌≤◌, ◌<◌, ◌≡◌, refl, inl, inr, List, [], ◌∷◌, some, false, leb, ltb,
  length, get_elem?, arith, Bool-cases, map, ◌∙◌, if◌then◌else◌, ltb→lt,
}
use stock_harvesting_backend.Evaluator.RollingMax.{rolling_max}
use stock_harvesting_backend.Evaluator.NearHigh.{Ratio, Options, window_start, passes_near_high}
use stock_harvesting_backend.Evaluator.Scan.{window_high-IsWindowMax}
use stock_harvesting_backend.Evaluator.Windows.{rolling_max-window_high}
use stock_harvesting_backend.Evaluator.Series.{
  WeeklyStrongCandle, WeeklyStrongSeriesPoint, time_until, advance, exceeds, series_point,
}

-- Later candles have later times.
abbrev pub IsAscending : List WeeklyStrongCandle → Type 0
IsAscending [] = Unit
IsAscending (c ∷ []) = Unit
IsAscending (c ∷ d ∷ ds) = (c.time < d.time) × IsAscending (d ∷ ds)

-- How many of the candles have a time up to `t`.
unfoldable pub count_until : ℕ → List WeeklyStrongCandle → ℕ
count_until t [] = 0
count_until t (c ∷ cs) = (if leb c.time t then 1 else 0) + count_until t cs

-- The decision at one weekly bar by the scan of each window: nothing where no daily bar is old enough.
unfoldable pub expected_point :
    Options
    → List ℕ
    → List ℕ
    → ℕ
    → ℕ
    → ℕ
    → List WeeklyStrongSeriesPoint
    → List WeeklyStrongSeriesPoint
expected_point options daily_closes weekly_closes time weekly_index zero rest = rest
expected_point options daily_closes weekly_closes time weekly_index (suc daily_index) rest =
    series_point time
      (passes_near_high weekly_closes weekly_index options.weekly_lookback_bars options.ratio)
      (passes_near_high daily_closes daily_index options.daily_lookback_bars options.ratio)
    ∷ rest

unfoldable pub expected_series :
    Options
    → List WeeklyStrongCandle
    → List ℕ
    → ℕ
    → List WeeklyStrongCandle
    → List WeeklyStrongSeriesPoint
expected_series options daily weekly_closes weekly_index [] = []
expected_series options daily weekly_closes weekly_index (row ∷ rows) =
    expected_point options (map (λ c. c.close) daily) weekly_closes row.time weekly_index
      (count_until row.time daily)
      (expected_series options daily weekly_closes (weekly_index + 1) rows)

-- The comparison with the sliding maximum is the comparison with the scanned window.
pub exceeds-passes_near_high :
    (closes : List ℕ) (i w : ℕ) (ratio : Ratio)
    → 0 < w
    → i < length closes
    → exceeds (get_elem? closes i) (get_elem? (rolling_max closes w) i) ratio
      ≡ passes_near_high closes i w ratio
unfolding passes_near_high
exceeds-passes_near_high closes i w ratio h lt =
    let (m, scanned, top) =
      window_high-IsWindowMax closes (window_start i w) (i + 1) (omega arith) in
    rw (rolling_max-window_high closes w i h lt, scanned) refl

pub count_until-le : (t : ℕ) (cs : List WeeklyStrongCandle) → count_until t cs ≤ length cs
unfolding count_until
count_until-le t [] = omega arith
count_until-le t (c ∷ cs) = ground (arith, count_until-le t cs)

pub count_until_mono :
    (t u : ℕ) (cs : List WeeklyStrongCandle) → t ≤ u → count_until t cs ≤ count_until u cs
unfolding count_until
count_until_mono t u [] h = omega arith
count_until_mono t u (c ∷ cs) h = ground (arith, count_until_mono t u cs h)

-- After a candle that is too late, all are.
pub count_until-late :
    (t : ℕ) (c : WeeklyStrongCandle) (cs : List WeeklyStrongCandle)
    → IsAscending (c ∷ cs)
    → t < c.time
    → count_until t cs ≡ 0
unfolding count_until
count_until-late t c [] h lt = refl
count_until-late t c (d ∷ ds) h lt = ground (arith, count_until-late t d ds h.1)

pub IsAscending-tail :
    (c : WeeklyStrongCandle) (cs : List WeeklyStrongCandle) → IsAscending (c ∷ cs) → IsAscending cs
IsAscending-tail c [] h = tt
IsAscending-tail c (d ∷ ds) h = h.1

-- The candles up to `t` are those at the indices below their count.
pub ltb-count_until :
    (t j : ℕ) (cs : List WeeklyStrongCandle)
    → IsAscending cs
    → ltb j (count_until t cs) ≡ time_until (get_elem? cs j) t
unfolding count_until
ltb-count_until t j [] h = ground arith
ltb-count_until t zero (c ∷ cs) h = ground (arith, count_until-late t c cs h)
ltb-count_until t (suc j) (c ∷ cs) h =
    ground (arith, count_until-late t c cs h, ltb-count_until t j cs (IsAscending-tail c cs h))

-- Advancing stops at the last daily candle up to `t`.
pub advance_lem :
    (daily : List WeeklyStrongCandle) (t fuel i : ℕ)
    → IsAscending daily
    → i ≤ count_until t daily - 1
    → length daily ≤ i + fuel
    → advance daily t fuel i ≡ count_until t daily - 1
unfolding advance
advance_lem daily t zero i h le enough = omega (arith, count_until-le t daily)
advance_lem daily t (suc fuel) i h le enough =
    elim (Bool-cases (time_until (get_elem? daily (i + 1)) t)) [
      | inl on ↦
          let more : i + 1 < count_until t daily =
            ltb→lt _ _ (ltb-count_until t (i + 1) daily h ∙ on) in
          rw on (advance_lem daily t fuel (i + 1) h (omega arith) (omega arith))
      | inr stop ↦
          let last : ltb (i + 1) (count_until t daily) ≡ false =
            ltb-count_until t (i + 1) daily h ∙ stop in
          rw stop (ground arith)
    ]

pub get_elem?-lt :
    {A : Type 0} (xs : List A) (i : ℕ) → i < length xs → (a : A) × (get_elem? xs i ≡ some a)
get_elem?-lt [] i h = absurd (omega arith)
get_elem?-lt (x ∷ xs) zero h = (x, refl)
get_elem?-lt (x ∷ xs) (suc i) h = get_elem?-lt xs i (omega arith)

pub lt-get_elem? :
    {A : Type 0} (xs : List A) (i : ℕ) (a : A) → get_elem? xs i ≡ some a → i < length xs
lt-get_elem? [] i a h = cc
lt-get_elem? (x ∷ xs) zero a h = omega arith
lt-get_elem? (x ∷ xs) (suc i) a h = omega (arith, lt-get_elem? xs i a h)
