-- ===== src/Jobs/Missing.antt =====
-- The coverage of a date counts as missing the instruments that lack their candle.
use stock_harvesting_backend.Prelude.{
  ℕ, suc, ◌+◌, String, List, [], ◌∷◌, ◌++◌, some, Bool, true, not, ◌&&◌, ◌||◌, str_eq, filter, map,
  length, length-map, All, ◌≡◌, ◌∙◌, refl, ap, subst, arith, Bool-cases, inl, inr,
}
use text.Mathlib.TextPositions.{eq_refl}
use stock_harvesting_backend.Market.Universe.{InstrumentRow, active_universe_filter}
use stock_harvesting_backend.Market.NoHistory.{list_no_history_symbols}
use stock_harvesting_backend.Jobs.Coverage.{
  UniverseRow, includes, is_expected, is_present, calculate_historical_coverage,
  length-filter_split,
}
use stock_harvesting_backend.Jobs.Catchup.{
  MarketDb, universe_row, present_at, exempt_of_runs, coverage_of, get_historical_coverage,
}
use stock_harvesting_backend.Jobs.Finish.{note_exempt}
use stock_harvesting_backend.Jobs.Gaps.{
  is_exempt, has_no_history, has_candle, lacks_candle, any-append, noted_exempt, no_history-any,
  is_among, present_at-has_candle,
}

-- Each active instrument is among the rows of the universe.
abbrev is_in_universe : String → List UniverseRow → InstrumentRow → Bool
is_in_universe exchange universe i =
    not (active_universe_filter exchange i) || is_among universe i.id

one_more :
    (exchange : String) (row : UniverseRow) (universe : List UniverseRow)
    (instruments : List InstrumentRow)
    → All (λ i. is_in_universe exchange universe i ≡ true) instruments
    → All (λ i. is_in_universe exchange (row ∷ universe) i ≡ true) instruments
one_more exchange row universe [] every = tt
one_more exchange row universe (i ∷ instruments) (first, every) =
    (ground (arith, first), one_more exchange row universe instruments every)

own_universe :
    (exchange : String) (instruments : List InstrumentRow)
    → All
        (λ i.
          is_in_universe exchange
            (map universe_row (filter (active_universe_filter exchange) instruments))
            i
          ≡ true)
        instruments
own_universe exchange [] = tt
own_universe exchange (i ∷ instruments) =
    let ih = own_universe exchange instruments in
    elim (Bool-cases (active_universe_filter exchange i)) [
      | inl on ↦
          let rest = filter (active_universe_filter exchange) instruments in
          let whole : i ∷ rest ≡ filter (active_universe_filter exchange) (i ∷ instruments) =
            rw on refl in
          subst
            (λ u.
              All (λ x. is_in_universe exchange (map universe_row u) x ≡ true) (i ∷ instruments))
            whole
            (
              ground (arith, eq_refl i.id),
              one_more exchange (universe_row i) (map universe_row rest) instruments ih,
            )
      | inr off ↦
          let rest = filter (active_universe_filter exchange) instruments in
          let whole : rest ≡ filter (active_universe_filter exchange) (i ∷ instruments) =
            rw off refl in
          subst
            (λ u.
              All (λ x. is_in_universe exchange (map universe_row u) x ≡ true) (i ∷ instruments))
            whole (ground (arith, off), ih)
    ]

-- A row of the universe that is expected and not present.
abbrev lacks : ℕ → List String → List String → UniverseRow → Bool
lacks date exempt present row = is_expected (some date) exempt row && not (is_present present row)

missing_lem :
    (universe : List UniverseRow) (present exempt : List String) (date : ℕ)
    → let c = calculate_historical_coverage universe present (some date) exempt in
      (c.missing ≡ length (filter (lacks date exempt present) universe))
      × (c.completed + c.missing ≡ c.total_expected)
unfolding calculate_historical_coverage
missing_lem universe present exempt date =
    let expected = filter (is_expected (some date) exempt) universe in
    let gone = filter (λ row. not (is_present present row)) expected in
    let named = length-map gone (λ row. row.symbol) in
    let split = length-filter_split (is_present present) expected in
    (named ∙ twice universe, omega (arith, split, named))
  where
    twice :
        (rows : List UniverseRow)
        → length (
            filter
              (λ row. not (is_present present row))
              (filter (is_expected (some date) exempt) rows))
          ≡ length (filter (lacks date exempt present) rows)
    twice [] = refl
    twice (row ∷ rows) =
        let ih = twice rows in
        elim (Bool-cases (is_expected (some date) exempt row)) [
          | inl on ↦ elim (Bool-cases (is_present present row)) [
            | inl here ↦ rw on (rw here ih)
            | inr gone ↦ rw on (rw gone (ap suc ih))
          ]
          | inr off ↦ rw off ih
        ]

coverage_lem :
    (exchange : String) (date : ℕ) (db : MarketDb)
    → let universe = map universe_row (filter (active_universe_filter exchange) db.instruments) in
      let exempt =
        exempt_of_runs exchange date db.runs ++ list_no_history_symbols exchange db.checkpoints in
      let c = get_historical_coverage exchange date db in
      (c.missing
        ≡ length (filter (lacks date exempt (present_at date universe db.day_candles)) universe))
      × (c.completed + c.missing ≡ c.total_expected)
unfolding get_historical_coverage
coverage_lem exchange date db =
    by_universe (map universe_row (filter (active_universe_filter exchange) db.instruments)) _ _
  where
    by_universe :
        (universe : List UniverseRow) (present exempt : List String)
        → let c = coverage_of date universe present exempt in
          (c.missing ≡ length (filter (lacks date exempt present) universe))
          × (c.completed + c.missing ≡ c.total_expected)
    by_universe [] present exempt = (refl, refl)
    by_universe (row ∷ rows) present exempt = missing_lem (row ∷ rows) present exempt date

-- Row by row the instruments that are counted are the gaps.
gaps_lem :
    (id : String) (symbols : List String) (exchange : String) (date : ℕ) (db : MarketDb)
    (exempt : List String) (universe : List UniverseRow) (instruments : List InstrumentRow)
    → ((symbol : String)
        → includes exempt symbol ≡ (
            is_exempt id symbols exchange date db.runs symbol
            || has_no_history exchange db.checkpoints symbol))
    → All (λ i. is_in_universe exchange universe i ≡ true) instruments
    → length (
        filter
          (lacks date exempt (present_at date universe db.day_candles))
          (map universe_row (filter (active_universe_filter exchange) instruments)))
      ≡ length (filter (lacks_candle id symbols exchange date db) instruments)
gaps_lem id symbols exchange date db exempt universe [] exempted every = refl
gaps_lem id symbols exchange date db exempt universe (i ∷ instruments) exempted (first, every) =
    let ih = gaps_lem id symbols exchange date db exempt universe instruments exempted every in
    elim (Bool-cases (active_universe_filter exchange i)) [
      | inr off ↦ rw off ih
      | inl on ↦
          let among : is_among universe i.id ≡ true = ground (arith, first, on) in
          let here = present_at-has_candle date universe i.id db.day_candles among in
          let free = exempted i.symbol in
          elim (Bool-cases (
            is_exempt id symbols exchange date db.runs i.symbol
            || has_no_history exchange db.checkpoints i.symbol)) [
              | inl out ↦ rw (on, out) (rw (free ∙ out) ih)
              | inr inside ↦ elim (Bool-cases (has_candle date db.day_candles i.id)) [
                | inl has ↦ rw (on, inside, has) (rw (free ∙ inside, here ∙ has) ih)
                | inr lost ↦ rw (on, inside, lost) (rw (free ∙ inside, here ∙ lost) (ap suc ih))
              ]
            ]
    ]

-- The coverage after the exemptions of a run are noted counts as missing exactly the gaps of the tables.
pub get_historical_coverage-missing :
    (now : ℕ) (id exchange : String) (date : ℕ) (symbols : List String) (db : MarketDb)
    → let noted = note_exempt now id symbols db.runs in
      let c = get_historical_coverage exchange date (record db { runs = noted }) in
      (c.missing ≡ length (filter (lacks_candle id symbols exchange date db) db.instruments))
      × (c.completed + c.missing ≡ c.total_expected)
get_historical_coverage-missing now id exchange date symbols db =
    let noted = note_exempt now id symbols db.runs in
    let counted = coverage_lem exchange date (record db { runs = noted }) in
    (
      counted.0
          ∙ gaps_lem id symbols exchange date db
              (exempt_of_runs exchange date noted
                ++ list_no_history_symbols exchange db.checkpoints)
              (map universe_row (filter (active_universe_filter exchange) db.instruments))
              db.instruments exempted (own_universe exchange db.instruments),
      counted.1,
    )
  where
    exempted :
        (symbol : String)
        → includes
            (exempt_of_runs exchange date (note_exempt now id symbols db.runs)
              ++ list_no_history_symbols exchange db.checkpoints)
            symbol
          ≡ (is_exempt id symbols exchange date db.runs symbol
              || has_no_history exchange db.checkpoints symbol)
    exempted symbol =
        any-append (str_eq symbol)
          (exempt_of_runs exchange date (note_exempt now id symbols db.runs))
          (list_no_history_symbols exchange db.checkpoints)
        ∙ rw
            (
              noted_exempt now id exchange date symbol symbols db.runs,
              no_history-any exchange symbol db.checkpoints,
            )
            refl
