-- ===== src/Scanner/Verdict.antt =====
-- What the scanner's current signal decides.
use stock_harvesting_backend.Prelude.{
  ℕ, ◌+◌, ◌-◌, ◌≤◌, ◌<◌, ◌≡◌, ◌↔◌, refl, inl, inr, Bool, true, false, List, ◌∷◌, Option, none, some,
  leb, length, get_elem?, Option-cases, arith, ◌==◌, subst, ap, sym, ◌∙◌,
}
use stock_harvesting_backend.Evaluator.{passes_near_high, walk_back}
use stock_harvesting_backend.Evaluator.Streak.{IsEntry, walk_back-IsEntry}
use stock_harvesting_backend.Scanner.Rule.{
  ScannerWeeklyCandle, scanner_near_high_ratio, evaluate_scanner_weekly_series,
}
use stock_harvesting_backend.Scanner.Lookback.{get_effective_scanner_lookback_weeks}
use stock_harvesting_backend.Scanner.Signal.{
  signal_of, signal_for, point_passes, resolve_current_scanner_signal, field,
}
use stock_harvesting_backend.Scanner.Points.{
  closes, length-evaluate_scanner_weekly_series, point_passes-evaluate, effective-pos, last_row,
}

module _ (row : ScannerWeeklyCandle) (rows : List ScannerWeeklyCandle) (requested : ℕ)
    (strict : Bool) where
  abbrev segment : List ScannerWeeklyCandle
  segment = row ∷ rows

  abbrev effective : Option ℕ
  effective = get_effective_scanner_lookback_weeks requested (length segment) strict

  -- The last point, at the index that the signal reads.
  last_point :
      (lookback : ℕ)
      → 0 < lookback
      → lookback ≤ length segment
      → point_passes
          (evaluate_scanner_weekly_series segment lookback)
          (length (evaluate_scanner_weekly_series segment lookback) - 1)
        ≡ passes_near_high (closes segment) (length rows) lookback scanner_near_high_ratio
  last_point lookback h le =
      let at_last : length (evaluate_scanner_weekly_series segment lookback) - 1 ≡ length rows =
        omega (arith, length-evaluate_scanner_weekly_series segment lookback) in
      let full : leb lookback (length rows + 1) ≡ true = ground arith in
      rw at_last
        (point_passes-evaluate segment lookback (length rows) h (omega arith) ∙ rw full refl)

  -- A fresh signal under the lookback that applies.
  signal-some :
      (lookback : ℕ)
      → 0 < requested
      → effective ≡ some lookback
      → (c : ScannerWeeklyCandle) × (resolve_current_scanner_signal segment true requested strict
          ≡ signal_of segment c lookback (evaluate_scanner_weekly_series segment lookback))
  unfolding resolve_current_scanner_signal
  signal-some lookback h e =
      let (c, last) = last_row row rows in
      let nonzero : (lookback == 0) ≡ false =
        ground (arith, effective-pos requested (length segment) lookback strict h e) in
      (c, rw (last, signal_for) (rw e (rw nonzero refl)))

  signal-none :
      effective ≡ none
      → (resolve_current_scanner_signal segment true requested strict).matched ≡ false
  unfolding resolve_current_scanner_signal
  signal-none e = let (c, last) = last_row row rows in rw (last, signal_for) (rw e refl)

  signal-matched :
      (lookback : ℕ)
      → 0 < requested
      → effective ≡ some lookback
      → (resolve_current_scanner_signal segment true requested strict).matched
        ≡ passes_near_high (closes segment) (length rows) lookback scanner_near_high_ratio
  unfolding signal_of
  signal-matched lookback h e =
      let (c, signal) = signal-some lookback h e in
      let (pos, le) = effective-pos requested (length segment) lookback strict h e in
      ap (λ s. s.matched) signal ∙ last_point lookback pos le

  signal-stale : (resolve_current_scanner_signal segment false requested strict).matched ≡ false
  unfolding resolve_current_scanner_signal
  signal-stale = refl

-- The signal matches exactly if the latest week is fresh, a lookback window applies, and the close of
-- the latest week is near the high of the window of that many weeks that ends with it. The
-- requested lookback is not 0.
pub resolve_current_scanner_signal_iff :
    (row : ScannerWeeklyCandle) (rows : List ScannerWeeklyCandle) (fresh strict : Bool)
    (requested : ℕ)
    → 0 < requested
    → let segment = row ∷ rows in
      let last = length rows in
      let signal = resolve_current_scanner_signal segment fresh requested strict in
      ((signal.matched ≡ true) ↔ (
        (fresh ≡ true)
        × ((lookback : ℕ) × (get_effective_scanner_lookback_weeks requested (length segment) strict
              ≡ some lookback)
            × (passes_near_high (closes segment) last lookback scanner_near_high_ratio ≡ true))))
resolve_current_scanner_signal_iff row rows false strict requested h =
    let stale = signal-stale row rows requested strict in
    ((λ e. cc stale), (λ w. let fresh = w.0 in cc))
resolve_current_scanner_signal_iff row rows true strict requested h =
    elim (Option-cases
      (get_effective_scanner_lookback_weeks requested (length (row ∷ rows)) strict)) [
        | inl missing ↦ (
          (λ e. let no_match = signal-none row rows requested strict missing in cc no_match),
          (λ w. let applies = w.1.1 in cc),
        )
        | inr (lookback, applies) ↦
            let matched = signal-matched row rows requested strict lookback h applies in
            (
              (λ e. (refl, (lookback, applies, sym matched ∙ e))),
              (λ w.
                  let other = w.1.1 in
                  let same : w.1.0 ≡ lookback = cc in
                  matched
                  ∙ subst
                      (λ l.
                        passes_near_high (closes (row ∷ rows)) (length rows) l
                          scanner_near_high_ratio
                        ≡ true)
                      same w.1.2),
            )
      ]

-- A matching signal reports the week where the unbroken run of qualifying weeks that ends with the
-- latest week begins, and that week's close.
pub resolve_current_scanner_signal-IsEntry :
    (row : ScannerWeeklyCandle) (rows : List ScannerWeeklyCandle) (strict : Bool)
    (requested lookback : ℕ)
    → 0 < requested
    → get_effective_scanner_lookback_weeks requested (length (row ∷ rows)) strict ≡ some lookback
    → (resolve_current_scanner_signal (row ∷ rows) true requested strict).matched ≡ true
    → let signal = resolve_current_scanner_signal (row ∷ rows) true requested strict in
      (i : ℕ) × IsEntry
        (point_passes (evaluate_scanner_weekly_series (row ∷ rows) lookback))
        (length rows)
        i
      × (signal.entry_time ≡ field (λ c. c.time) (get_elem? (row ∷ rows) i))
      × (signal.entry_close ≡ field (λ c. c.close) (get_elem? (row ∷ rows) i))
unfolding signal_of
resolve_current_scanner_signal-IsEntry row rows strict requested lookback h applies matched =
    let points = evaluate_scanner_weekly_series (row ∷ rows) lookback in
    let (c, signal) = signal-some row rows requested strict lookback h applies in
    let on : point_passes points (length points - 1) ≡ true =
      sym (ap (λ s. s.matched) signal) ∙ matched in
    let at_last : length points - 1 ≡ length rows =
      omega (arith, length-evaluate_scanner_weekly_series (row ∷ rows) lookback) in
    (
      walk_back (point_passes points) (length points - 1),
      subst
          (λ n.
            IsEntry (point_passes points) n (walk_back (point_passes points) (length points - 1)))
          at_last (walk_back-IsEntry _ _ on),
      ap (λ s. s.entry_time) signal ∙ rw on refl,
      ap (λ s. s.entry_close) signal ∙ rw on refl,
    )
