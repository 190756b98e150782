-- ===== src/Jobs/Gaps.antt =====
-- Which instruments lack their candle of a date, by the tables.
use stock_harvesting_backend.Prelude.{
  ℕ, String, List, [], ◌∷◌, ◌++◌, Bool, true, not, ◌&&◌, ◌||◌, ◌==◌, str_eq, any, if◌then◌else◌,
  ◌≡◌, ◌∙◌, refl, sym, ap, subst, Bool-cases, inl, inr,
}
use text.Mathlib.TextEquality.{eq_iff}
use stock_harvesting_backend.Market.Universe.{InstrumentRow, active_universe_filter}
use stock_harvesting_backend.Market.Checkpoints.{CheckpointRow}
use stock_harvesting_backend.Market.NoHistory.{is_mark_of, list_no_history_symbols}
use stock_harvesting_backend.Jobs.Runs.{JobRun, has_key, has_id, daily_candle_catch_up}
use stock_harvesting_backend.Jobs.Coverage.{UniverseRow, includes}
use stock_harvesting_backend.Jobs.Catchup.{MarketDb, present_at, exempt_of_runs}
use stock_harvesting_backend.Jobs.Finish.{note_exempt}

-- The symbols that a run exempts once those of the run with an id are noted, if there are any.
abbrev pub exemptions : String → List String → JobRun → List String
exemptions id [] r = r.coverage_exempt_symbols
exemptions id (s ∷ symbols) r = if str_eq r.id id then s ∷ symbols else r.coverage_exempt_symbols

abbrev pub is_exempt : String → List String → String → ℕ → List JobRun → String → Bool
is_exempt id symbols exchange date runs symbol =
    any
      (λ r.
        has_key date exchange daily_candle_catch_up r
        && any (str_eq symbol) (exemptions id symbols r))
      runs

abbrev pub has_no_history : String → List CheckpointRow → String → Bool
has_no_history exchange checkpoints symbol =
    any (λ m. is_mark_of exchange m && str_eq symbol m.symbol) checkpoints

abbrev pub has_candle : ℕ → List (String × ℕ) → String → Bool
has_candle date candles id = any (λ c. str_eq c.0 id && (c.1 == date)) candles

-- An active instrument without a candle of the date, that no catch-up run of the date exempts, and of which no empty
-- history is remembered.
abbrev pub lacks_candle : String → List String → String → ℕ → MarketDb → InstrumentRow → Bool
lacks_candle id symbols exchange date db i =
    active_universe_filter exchange i
    && (not (
          is_exempt id symbols exchange date db.runs i.symbol
          || has_no_history exchange db.checkpoints i.symbol)
        && not (has_candle date db.day_candles i.id))

pub any-append :
    (p : String → Bool) (xs ys : List String) → any p (xs ++ ys) ≡ (any p xs || any p ys)
any-append p [] ys = refl
any-append p (x ∷ xs) ys =
    let ih = any-append p xs ys in
    elim (Bool-cases (p x)) [ inl on ↦ rw on refl | inr off ↦ rw off ih ]

exempt_of_runs-any :
    (exchange : String) (date : ℕ) (symbol : String) (runs : List JobRun)
    → any (str_eq symbol) (exempt_of_runs exchange date runs)
      ≡ any
          (λ r.
            has_key date exchange daily_candle_catch_up r
            && any (str_eq symbol) r.coverage_exempt_symbols)
          runs
exempt_of_runs-any exchange date symbol [] = refl
exempt_of_runs-any exchange date symbol (r ∷ runs) =
    let ih = exempt_of_runs-any exchange date symbol runs in
    elim (Bool-cases (has_key date exchange daily_candle_catch_up r)) [
      | inl on ↦ rw on (
          any-append (str_eq symbol) r.coverage_exempt_symbols (exempt_of_runs exchange date runs)
          ∙ ap (λ b. any (str_eq symbol) r.coverage_exempt_symbols || b) ih)
      | inr off ↦ rw off ih
    ]

pub noted_exempt :
    (now : ℕ) (id exchange : String) (date : ℕ) (symbol : String) (symbols : List String)
    (runs : List JobRun)
    → any (str_eq symbol) (exempt_of_runs exchange date (note_exempt now id symbols runs))
      ≡ is_exempt id symbols exchange date runs symbol
noted_exempt now id exchange date symbol [] runs = exempt_of_runs-any exchange date symbol runs
noted_exempt now id exchange date symbol (s ∷ symbols) runs =
    exempt_of_runs-any exchange date symbol (note_exempt now id (s ∷ symbols) runs) ∙ by_runs runs
  where
    by_runs :
        (runs : List JobRun)
        → any
            (λ r.
              has_key date exchange daily_candle_catch_up r
              && any (str_eq symbol) r.coverage_exempt_symbols)
            (note_exempt now id (s ∷ symbols) runs)
          ≡ is_exempt id (s ∷ symbols) exchange date runs symbol
    by_runs [] = refl
    by_runs (r ∷ runs) =
        let ih = by_runs runs in
        elim (Bool-cases (has_id id r)) [
          | inl mine ↦ rw mine (rw ih refl)
          | inr other ↦ rw other (rw ih refl)
        ]

pub no_history-any :
    (exchange symbol : String) (rows : List CheckpointRow)
    → any (str_eq symbol) (list_no_history_symbols exchange rows)
      ≡ has_no_history exchange rows symbol
unfolding list_no_history_symbols
no_history-any exchange symbol [] = refl
no_history-any exchange symbol (m ∷ rows) =
    let ih = no_history-any exchange symbol rows in
    elim (Bool-cases (is_mark_of exchange m)) [
      | inl on ↦ rw on (ap (λ b. str_eq symbol m.symbol || b) ih)
      | inr off ↦ rw off ih
    ]

str_eq_sym : (s t : String) → str_eq s t ≡ str_eq t s
str_eq_sym s t = elim (Bool-cases (str_eq s t)) [
  | inl on ↦ subst (λ x. str_eq s x ≡ str_eq x s) ((eq_iff s t).0 on) refl
  | inr off ↦ elim (Bool-cases (str_eq t s)) [
    | inr out ↦ off ∙ sym out
    | inl on ↦ subst (λ x. str_eq x t ≡ str_eq t x) ((eq_iff t s).0 on) refl
  ]
]

abbrev pub is_among : List UniverseRow → String → Bool
is_among universe id = any (λ row. str_eq row.instrument_id id) universe

pub present_at-has_candle :
    (date : ℕ) (universe : List UniverseRow) (id : String) (candles : List (String × ℕ))
    → is_among universe id ≡ true
    → includes (present_at date universe candles) id ≡ has_candle date candles id
present_at-has_candle date universe id [] among = refl
present_at-has_candle date universe id (c ∷ candles) among =
    let ih = present_at-has_candle date universe id candles among in
    let flipped = str_eq_sym id c.0 in
    elim (Bool-cases (str_eq c.0 id)) [
      | inl mine ↦
          let there : is_among universe c.0 ≡ true =
            subst (λ x. is_among universe x ≡ true) (sym ((eq_iff c.0 id).0 mine)) among in
          elim (Bool-cases (c.1 == date)) [
            | inl on ↦ rw (mine, there, on) (rw (flipped ∙ mine) refl)
            | inr off ↦ rw (mine, there, off) ih
          ]
      | inr other ↦ elim (Bool-cases (is_among universe c.0 && (c.1 == date))) [
        | inl on ↦ rw (other, on) (rw (flipped ∙ other) ih)
        | inr off ↦ rw (other, off) ih
      ]
    ]
