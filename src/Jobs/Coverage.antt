-- ===== src/Jobs/Coverage.antt =====
-- The historical coverage of src/modules/jobs/market-data-job-ledger.ts: which instruments of an exchange have a
-- daily candle at a date. The percentage, a floating-point ratio for display, is left out.
use stock_harvesting_backend.Prelude.{
  ℕ, ◌+◌, ◌-◌, ◌≤◌, String, List, [], ◌∷◌, Option, none, some, Bool, true, false, not, ◌||◌, leb,
  ltb, str_eq, any, all, filter, map, length, length-map, if◌then◌else◌, ◌≡◌, ◌↔◌, refl, arith,
  Bool-cases, inl, inr,
}

pub record UniverseRow : Type 0 where
  pub instrument_id : String
  pub symbol : String
  pub first_candle_date : Option ℕ
  pub production_eligible : Option Bool

pub record Coverage : Type 0 where
  pub total_expected : ℕ
  pub completed : ℕ
  pub missing : ℕ
  pub missing_symbols : List String
  pub exempt : ℕ

-- `set.has(x)`
abbrev pub includes : List String → String → Bool
includes xs x = any (str_eq x) xs

-- `productionEligible === false`
abbrev pub is_ineligible : Option Bool → Bool
is_ineligible (some false) = true
is_ineligible (some true) = false
is_ineligible none = false

-- `!tradingDate || !firstCandleDate || firstCandleDate <= tradingDate`
abbrev pub had_started : Option ℕ → Option ℕ → Bool
had_started none first = true
had_started (some date) none = true
had_started (some date) (some first) = leb first date

abbrev pub is_expected : Option ℕ → List String → UniverseRow → Bool
is_expected trading_date exempt_symbols row =
    if is_ineligible row.production_eligible || includes exempt_symbols row.symbol
    then false
    else had_started trading_date row.first_candle_date

abbrev pub is_present : List String → UniverseRow → Bool
is_present present_ids row = includes present_ids row.instrument_id

unfoldable pub calculate_historical_coverage :
    List UniverseRow → List String → Option ℕ → List String → Coverage
calculate_historical_coverage universe present_ids trading_date exempt_symbols =
    let expected_universe = filter (is_expected trading_date exempt_symbols) universe in
    let missing_symbols =
      map (λ row. row.symbol)
        (filter (λ row. not (is_present present_ids row)) expected_universe) in
    record {
      total_expected = length expected_universe;
      completed = length expected_universe - length missing_symbols;
      missing = length missing_symbols;
      missing_symbols = missing_symbols;
      exempt = length universe - length expected_universe;
    }

unfoldable pub should_queue_historical_catch_up : Coverage → Bool
should_queue_historical_catch_up coverage = ltb 0 coverage.missing

pub length-filter : {A : Type 0} (p : A → Bool) (xs : List A) → length (filter p xs) ≤ length xs
length-filter p [] = omega arith
length-filter p (x ∷ xs) = ground (arith, length-filter p xs)

pub length-filter_split :
    {A : Type 0} (p : A → Bool) (xs : List A)
    → length (filter p xs) + length (filter (λ x. not (p x)) xs) ≡ length xs
length-filter_split p [] = refl
length-filter_split p (x ∷ xs) =
    let ih = length-filter_split p xs in
    elim (Bool-cases (p x)) [
      | inl on ↦ rw (on, ◌≡◌) (omega (arith, ih))
      | inr off ↦ rw off (omega (arith, ih))
    ]

-- The expected instruments of a list of rows that have their candle, or have none, one by one.
abbrev pub is_covered : Option ℕ → List String → List String → UniverseRow → Bool
is_covered trading_date exempt_symbols present_ids row =
    not (is_expected trading_date exempt_symbols row) || is_present present_ids row

none_missing :
    (p q : UniverseRow → Bool) (rows : List UniverseRow)
    → (length (filter (λ r. not (q r)) (filter p rows)) ≡ 0)
      ↔ (all (λ r. not (p r) || q r) rows ≡ true)
none_missing p q [] = ground arith
none_missing p q (r ∷ rows) =
    let ih = none_missing p q rows in
    elim (Bool-cases (p r)) [
      | inl on ↦ elim (Bool-cases (q r)) [
        | inl here ↦ rw on (rw here (ground (arith, ih)))
        | inr gone ↦ rw on (rw gone (ground arith))
      ]
      | inr off ↦ rw off ih
    ]

-- Every instrument of the universe is counted once, as completed, missing or exempt; the completed ones are those
-- expected at the date that have a candle.
pub calculate_historical_coverage_lem :
    (universe : List UniverseRow) (present_ids : List String) (trading_date : Option ℕ)
    (exempt_symbols : List String)
    → let c = calculate_historical_coverage universe present_ids trading_date exempt_symbols in
      (c.completed + (c.missing + c.exempt) ≡ length universe)
      × (c.completed
          ≡ length (
              filter
                (is_present present_ids)
                (filter (is_expected trading_date exempt_symbols) universe)))
unfolding calculate_historical_coverage
calculate_historical_coverage_lem universe present_ids trading_date exempt_symbols =
    let expected = filter (is_expected trading_date exempt_symbols) universe in
    let gone = filter (λ row. not (is_present present_ids row)) expected in
    let split = length-filter_split (is_present present_ids) expected in
    let within = length-filter (is_expected trading_date exempt_symbols) universe in
    let named = length-map gone (λ row. row.symbol) in
    (omega (arith, split, within, named), omega (arith, split, named))

-- A catch-up is queued exactly if not every expected instrument has its candle.
pub should_queue_historical_catch_up_iff :
    (universe : List UniverseRow) (present_ids : List String) (trading_date : Option ℕ)
    (exempt_symbols : List String)
    → (should_queue_historical_catch_up
          (calculate_historical_coverage universe present_ids trading_date exempt_symbols)
        ≡ false)
      ↔ (all (is_covered trading_date exempt_symbols present_ids) universe ≡ true)
unfolding calculate_historical_coverage should_queue_historical_catch_up
should_queue_historical_catch_up_iff universe present_ids trading_date exempt_symbols =
    let expected = filter (is_expected trading_date exempt_symbols) universe in
    let gone = filter (λ row. not (is_present present_ids row)) expected in
    let named = length-map gone (λ row. row.symbol) in
    let same =
      none_missing (is_expected trading_date exempt_symbols) (is_present present_ids) universe in
    ground (arith, named, same)
