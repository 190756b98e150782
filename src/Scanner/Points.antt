-- ===== src/Scanner/Points.antt =====
-- What the scanner's points decide.
use stock_harvesting_backend.Prelude.{
  ℕ, zero, suc, ◌+◌, ◌≤◌, ◌<◌, ◌≡◌, refl, Bool, List, [], ◌∷◌, map, Option, some, leb, length,
  get_elem?, get_last?, arith, ◌&&◌, ap, sym, ◌∙◌,
}
use stock_harvesting_backend.Evaluator.{exceeds, rolling_max, passes_near_high}
use stock_harvesting_backend.Evaluator.Cursor.{exceeds-passes_near_high, get_elem?-lt, lt-get_elem?}
use stock_harvesting_backend.Scanner.Rule.{
  ScannerWeeklyCandle, scanner_near_high_ratio, points_from, evaluate_scanner_weekly_series,
}
use stock_harvesting_backend.Scanner.Lookback.{get_effective_scanner_lookback_weeks}
use stock_harvesting_backend.Scanner.Signal.{point_passes}

abbrev pub closes : List ScannerWeeklyCandle → List ℕ
closes = map (λ c. c.close)

pub get_elem?-map :
    {A B : Type 0} (f : A → B) (xs : List A) (i : ℕ) (a : A)
    → get_elem? xs i ≡ some a
    → get_elem? (map f xs) i ≡ some (f a)
get_elem?-map f [] i a e = cc
get_elem?-map f (x ∷ xs) zero a e = cc
get_elem?-map f (x ∷ xs) (suc i) a e = get_elem?-map f xs i a e

pub points_from-get_elem? :
    (highs : List (Option ℕ)) (lookback index : ℕ) (rows : List ScannerWeeklyCandle) (i j : ℕ)
    (row : ScannerWeeklyCandle)
    → get_elem? rows i ≡ some row
    → index + i ≡ j
    → get_elem? (points_from highs lookback index rows) i
      ≡ some (record {
        time = row.time;
        passes =
            leb lookback (j + 1)
            && exceeds (some row.close) (get_elem? highs j) scanner_near_high_ratio;
      })
unfolding points_from
points_from-get_elem? highs lookback index [] i j row e h = cc
points_from-get_elem? highs lookback index (r ∷ rows) zero j row e h =
    let same : j ≡ index = omega arith in rw same (ground arith)
points_from-get_elem? highs lookback index (r ∷ rows) (suc i) j row e h =
    points_from-get_elem? highs lookback (index + 1) rows i j row e (omega arith)

-- Each row has its point: it passes exactly if a whole lookback window ends there and the row's close
-- is near the high that the plain scan of that window finds.
pub evaluate_scanner_weekly_series_lem :
    (rows : List ScannerWeeklyCandle) (lookback i : ℕ) (row : ScannerWeeklyCandle)
    → 0 < lookback
    → get_elem? rows i ≡ some row
    → get_elem? (evaluate_scanner_weekly_series rows lookback) i
      ≡ some (record {
        time = row.time;
        passes =
            leb lookback (i + 1)
            && passes_near_high (closes rows) i lookback scanner_near_high_ratio;
      })
unfolding evaluate_scanner_weekly_series
evaluate_scanner_weekly_series_lem rows lookback i row h e =
    let close = get_elem?-map (λ c. c.close) rows i row e in
    let near =
      ap (λ c. exceeds c (get_elem? (rolling_max (closes rows) lookback) i) scanner_near_high_ratio)
        (sym close)
      ∙ exceeds-passes_near_high (closes rows) i lookback scanner_near_high_ratio h
          (lt-get_elem? (closes rows) i row.close close) in
    points_from-get_elem? (rolling_max (closes rows) lookback) lookback 0 rows i i row e
      (omega arith)
    ∙ rw near refl

pub length-points_from :
    (highs : List (Option ℕ)) (lookback index : ℕ) (rows : List ScannerWeeklyCandle)
    → length (points_from highs lookback index rows) ≡ length rows
unfolding points_from
length-points_from highs lookback index [] = refl
length-points_from highs lookback index (r ∷ rows) =
    ap suc (length-points_from highs lookback (index + 1) rows)

pub length-evaluate_scanner_weekly_series :
    (rows : List ScannerWeeklyCandle) (lookback : ℕ)
    → length (evaluate_scanner_weekly_series rows lookback) ≡ length rows
unfolding evaluate_scanner_weekly_series
length-evaluate_scanner_weekly_series rows lookback = length-points_from _ lookback 0 rows

pub point_passes-evaluate :
    (rows : List ScannerWeeklyCandle) (lookback i : ℕ)
    → 0 < lookback
    → i < length rows
    → point_passes (evaluate_scanner_weekly_series rows lookback) i
      ≡ (leb lookback (i + 1) && passes_near_high (closes rows) i lookback scanner_near_high_ratio)
point_passes-evaluate rows lookback i h lt =
    let (row, e) = get_elem?-lt rows i lt in
    let point = evaluate_scanner_weekly_series_lem rows lookback i row h e in
    rw (point, point_passes)

pub get_last?-get_elem? :
    {A : Type 0} (x : A) (xs : List A) → get_last? (x ∷ xs) ≡ get_elem? (x ∷ xs) (length xs)
get_last?-get_elem? x [] = refl
get_last?-get_elem? x (y ∷ ys) = get_last?-get_elem? y ys

pub effective-pos :
    (requested available lookback : ℕ) (strict : Bool)
    → 0 < requested
    → get_effective_scanner_lookback_weeks requested available strict ≡ some lookback
    → (0 < lookback) × (lookback ≤ available)
unfolding get_effective_scanner_lookback_weeks
effective-pos requested available lookback strict h e = ground arith

pub last_row :
    (row : ScannerWeeklyCandle) (rows : List ScannerWeeklyCandle)
    → (c : ScannerWeeklyCandle) × (get_last? (row ∷ rows) ≡ some c)
last_row row rows =
    let (c, e) = get_elem?-lt (row ∷ rows) (length rows) (omega arith) in
    (c, get_last?-get_elem? row rows ∙ e)
