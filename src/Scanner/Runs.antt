-- ===== src/Scanner/Runs.antt =====
-- The trades are the runs of qualifying weeks.
use stock_harvesting_backend.Prelude.{
  ℕ, suc, ◌+◌, ◌-◌, ◌≤◌, ◌<◌, ◌≡◌, refl, ◌⊎◌, inl, inr, Bool, true, false, List, [], ◌∷◌, map,
  Option, none, some, length, get_or, All, arith, length-map, Bool-cases, ltb, leb, ltb→lt, leb→le,
  false≢true, sym, ◌∙◌,
}
use stock_harvesting_backend.Scanner.Rule.{ScannerWeeklyCandle, evaluate_scanner_weekly_series}
use stock_harvesting_backend.Scanner.Points.{length-evaluate_scanner_weekly_series}
use stock_harvesting_backend.Scanner.Trades.{
  BreakoutTrade, build_breakout_trade, trades_from, build_breakout_trades_for_segment,
}

-- `matched[i]`, false out of range.
abbrev pub at : List Bool → ℕ → Bool
at matched i = get_or matched i false

-- A trade is entered at the first week of a run and left at the first week after it, or at the last
-- week where the run reaches it.
pub record IsRun (matched : List Bool) (t : BreakoutTrade) : Type 0 where
  pub ordered : t.entry_index ≤ t.exit_index
  pub inside : t.exit_index < length matched
  pub first : (t.entry_index ≡ 0) ⊎ (at matched (t.entry_index - 1) ≡ false)
  pub entered : at matched t.entry_index ≡ true
  pub run : (j : ℕ) → t.entry_index ≤ j → j < t.exit_index → at matched j ≡ true
  pub left : (at matched t.exit_index ≡ false) ⊎ (t.exit_index + 1 ≡ length matched)

-- Some trade holds the week `i`.
abbrev pub IsHeld : ℕ → List BreakoutTrade → Type 0
IsHeld i [] = ⊥
IsHeld i (t ∷ ts) = ((t.entry_index ≤ i) × (i ≤ t.exit_index)) ⊎ IsHeld i ts

module _ (rows : List ScannerWeeklyCandle) (matched : List Bool)
    (same : length rows ≡ length matched) where
  -- The open position of a run that has reached `index`, if the last week qualified.
  abbrev HasBegun : ℕ → Bool → Option ℕ → Type 0
  HasBegun index false none = (index ≡ 0) ⊎ (at matched (index - 1) ≡ false)
  HasBegun index true (some e) =
      (e < index)
      × ((e ≡ 0) ⊎ (at matched (e - 1) ≡ false))
      × ((j : ℕ) → e ≤ j → j < index → at matched j ≡ true)
  HasBegun index false (some e) = ⊥
  HasBegun index true none = ⊥

  -- The weeks that are left are those from `index` on.
  record IsRest (index : ℕ) (rest : List Bool) : Type 0 where
    fits : index + length rest ≡ length matched
    follows : (k j : ℕ) → index + k ≡ j → at matched j ≡ at rest k

  IsRest-tail :
      (index : ℕ) (m : Bool) (rest : List Bool) → IsRest index (m ∷ rest) → IsRest (index + 1) rest
  IsRest-tail index m rest o = record {
    fits = omega (arith, o.fits);
    follows = λ k j e. o.follows (suc k) j (omega arith);
  }

  IsRest-head :
      (index : ℕ) (m : Bool) (rest : List Bool) → IsRest index (m ∷ rest) → at matched index ≡ m
  IsRest-head index m rest o = o.follows 0 index (omega arith)

  -- The position after a week that qualifies.
  HasBegun-true :
      (index e : ℕ)
      → HasBegun index true (some e)
      → at matched index ≡ true
      → HasBegun (index + 1) true (some e)
  HasBegun-true index e (lt, first, run) here = (
    omega arith,
    first,
    λ j a b. elim (Bool-cases (ltb j index)) [
      | inl older ↦ run j a (ltb→lt _ _ older)
      | inr newest ↦ let now : j ≡ index = ground arith in rw now here
    ],
  )

  HasBegun-start :
      (index : ℕ)
      → HasBegun index false none
      → at matched index ≡ true
      → HasBegun (index + 1) true (some index)
  HasBegun-start index first here =
      (omega arith, first, λ j a b. let now : j ≡ index = omega arith in rw now here)

  HasBegun-false : (index : ℕ) → at matched index ≡ false → HasBegun (index + 1) false none
  HasBegun-false index here = inr (let back : index + 1 - 1 ≡ index = omega arith in rw back here)

  closed-IsRun :
      (index e : ℕ) (rest : List Bool)
      → HasBegun index true (some e)
      → IsRest index (false ∷ rest)
      → IsRun matched (build_breakout_trade e index rows)
  unfolding build_breakout_trade
  closed-IsRun index e rest (lt, first, run) o = record {
    ordered = omega arith;
    inside = omega (arith, o.fits);
    first = first;
    entered = run e (omega arith) lt;
    run = run;
    left = inl (IsRest-head index false rest o);
  }

  last-IsRun :
      (index e : ℕ)
      → HasBegun index true (some e)
      → IsRest index []
      → IsRun matched (build_breakout_trade e (length rows - 1) rows)
  unfolding build_breakout_trade
  last-IsRun index e (lt, first, run) o = record {
    ordered = omega (arith, o.fits);
    inside = omega (arith, o.fits);
    first = first;
    entered = run e (omega arith) lt;
    run = λ j a b. run j a (omega (arith, o.fits));
    left = inr (omega (arith, o.fits));
  }

  trades_from-IsRun :
      (index : ℕ) (was : Bool) (entry : Option ℕ) (rest : List Bool)
      → HasBegun index was entry
      → IsRest index rest
      → All (IsRun matched) (trades_from rows index was entry rest)
  unfolding trades_from
  trades_from-IsRun index false none [] h o = tt
  trades_from-IsRun index true (some e) [] h o = (last-IsRun index e h o, tt)
  trades_from-IsRun index false none (true ∷ rest) h o =
      trades_from-IsRun (index + 1) true (some index) rest
        (HasBegun-start index h (IsRest-head index true rest o)) (IsRest-tail index true rest o)
  trades_from-IsRun index false none (false ∷ rest) h o =
      trades_from-IsRun (index + 1) false none rest
        (HasBegun-false index (IsRest-head index false rest o)) (IsRest-tail index false rest o)
  trades_from-IsRun index true (some e) (false ∷ rest) h o = (
    closed-IsRun index e rest h o,
    trades_from-IsRun (index + 1) false none rest
        (HasBegun-false index (IsRest-head index false rest o)) (IsRest-tail index false rest o),
  )
  trades_from-IsRun index true (some e) (true ∷ rest) h o =
      trades_from-IsRun (index + 1) true (some e) rest
        (HasBegun-true index e h (IsRest-head index true rest o)) (IsRest-tail index true rest o)
  trades_from-IsRun index false (some e) rest h o = absurd h
  trades_from-IsRun index true none rest h o = absurd h

  -- A week that does not qualify is not the one.
  after : (i index : ℕ) → index ≤ i → at matched i ≡ true → at matched index ≡ false → index + 1 ≤ i
  after i index le p q = elim (Bool-cases (ltb index i)) [
    | inl lt ↦ ground arith
    | inr ge ↦ let now : i ≡ index = ground arith in absurd (false≢true (sym q ∙ rw (← now) p))
  ]

  -- A week that qualifies, or that an open position has passed, is held by a trade.
  abbrev IsDue : ℕ → Option ℕ → ℕ → Type 0
  IsDue i none index = index ≤ i
  IsDue i (some e) index = e ≤ i

  trades_from-IsHeld :
      (i index : ℕ) (was : Bool) (entry : Option ℕ) (rest : List Bool)
      → at matched i ≡ true
      → i < length matched
      → IsDue i entry index
      → HasBegun index was entry
      → IsRest index rest
      → IsHeld i (trades_from rows index was entry rest)
  unfolding trades_from build_breakout_trade
  trades_from-IsHeld i index false none [] p lt due h o = absurd (omega (arith, o.fits))
  trades_from-IsHeld i index true (some e) [] p lt due h o = inl (due, omega (arith, o.fits))
  trades_from-IsHeld i index false none (true ∷ rest) p lt due h o =
      trades_from-IsHeld i (index + 1) true (some index) rest p lt due
        (HasBegun-start index h (IsRest-head index true rest o)) (IsRest-tail index true rest o)
  trades_from-IsHeld i index false none (false ∷ rest) p lt due h o =
      trades_from-IsHeld i (index + 1) false none rest p lt
        (after i index due p (IsRest-head index false rest o))
        (HasBegun-false index (IsRest-head index false rest o)) (IsRest-tail index false rest o)
  trades_from-IsHeld i index true (some e) (false ∷ rest) p lt due h o =
      elim (Bool-cases (leb i index)) [
        | inl inside ↦ inl (due, leb→le _ _ inside)
        | inr later ↦ inr (
            trades_from-IsHeld i (index + 1) false none rest p lt (ground arith)
              (HasBegun-false index (IsRest-head index false rest o))
              (IsRest-tail index false rest o))
      ]
  trades_from-IsHeld i index true (some e) (true ∷ rest) p lt due h o =
      trades_from-IsHeld i (index + 1) true (some e) rest p lt due
        (HasBegun-true index e h (IsRest-head index true rest o)) (IsRest-tail index true rest o)
  trades_from-IsHeld i index false (some e) rest p lt due h o = absurd h
  trades_from-IsHeld i index true none rest p lt due h o = absurd h

whole :
    (matched : List Bool) (rows : List ScannerWeeklyCandle) (same : length rows ≡ length matched)
    → IsRest rows matched same 0 matched
whole matched rows same = record {
  fits = omega arith;
  follows = λ k j e. let now : j ≡ k = omega arith in rw now refl;
}

abbrev pub matched_weeks : List ScannerWeeklyCandle → ℕ → List Bool
matched_weeks rows lookback_weeks =
    map (λ p. p.passes) (evaluate_scanner_weekly_series rows lookback_weeks)

length-matched_weeks :
    (rows : List ScannerWeeklyCandle) (lookback_weeks : ℕ)
    → length rows ≡ length (matched_weeks rows lookback_weeks)
length-matched_weeks rows lookback_weeks =
    let points = evaluate_scanner_weekly_series rows lookback_weeks in
    omega (
      arith,
      length-map points (λ p. p.passes),
      length-evaluate_scanner_weekly_series rows lookback_weeks,
    )

-- The trades of a segment are runs of its qualifying weeks: each is entered at the first week of a run
-- and left at the first week after it, or at the segment's last week.
pub build_breakout_trades_for_segment-IsRun :
    (rows : List ScannerWeeklyCandle) (lookback_weeks : ℕ)
    → All
        (IsRun (matched_weeks rows lookback_weeks))
        (build_breakout_trades_for_segment rows lookback_weeks)
unfolding build_breakout_trades_for_segment
build_breakout_trades_for_segment-IsRun rows lookback_weeks =
    let matched = matched_weeks rows lookback_weeks in
    let same = length-matched_weeks rows lookback_weeks in
    trades_from-IsRun rows matched same 0 false none matched (inl refl) (whole matched rows same)

-- Each qualifying week of a segment is held by one of its trades.
pub build_breakout_trades_for_segment-IsHeld :
    (rows : List ScannerWeeklyCandle) (lookback_weeks i : ℕ)
    → at (matched_weeks rows lookback_weeks) i ≡ true
    → i < length rows
    → IsHeld i (build_breakout_trades_for_segment rows lookback_weeks)
unfolding build_breakout_trades_for_segment
build_breakout_trades_for_segment-IsHeld rows lookback_weeks i p lt =
    let matched = matched_weeks rows lookback_weeks in
    let same = length-matched_weeks rows lookback_weeks in
    trades_from-IsHeld rows matched same i 0 false none matched p (omega arith) (omega arith)
      (inl refl) (whole matched rows same)
