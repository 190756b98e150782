-- ===== src/Jobs/Finish.antt =====
-- How src/modules/jobs/market-data-job-ledger.ts closes a run and brings the backtests up to its date. What
-- `reconcileWeeklyStrongBacktests` answers is an argument: the message of its error, if it throws.
use stock_harvesting_backend.Prelude.{
  ℕ, String, List, [], ◌∷◌, Option, none, some, Bool, true, false, ◌&&◌, ◌||◌, ◌==◌, leb, ltb, max,
  any, if◌then◌else◌,
}
use stock_harvesting_backend.Database.Tables.{update_where}
use stock_harvesting_backend.Jobs.Runs.{completed, partial, JobRun, has_id, is_date, is_text}
use stock_harvesting_backend.Jobs.Coverage.{Coverage}
use stock_harvesting_backend.Jobs.Catchup.{MarketDb, get_historical_coverage}

abbrev pub set_exempt : ℕ → List String → JobRun → JobRun
set_exempt now symbols r = record r { coverage_exempt_symbols = symbols; updated_at = now }

-- The symbols that the provider had nothing for are kept with the run, if there are any.
abbrev pub note_exempt : ℕ → String → List String → List JobRun → List JobRun
note_exempt now run_id [] runs = runs
note_exempt now run_id (s ∷ symbols) runs =
    update_where (has_id run_id) (set_exempt now (s ∷ symbols)) runs

abbrev pub close_run : ℕ → Coverage → JobRun → JobRun
close_run now coverage r = record r {
  status = if coverage.missing == 0 then completed else partial;
  total_expected = coverage.total_expected;
  completed_count = coverage.completed;
  missing_count = coverage.missing;
  finished_at = some now;
  updated_at = now;
}

abbrev pub backtest_done : ℕ → ℕ → JobRun → JobRun
backtest_done now trading_date r = record r {
  backtest_status = some "completed";
  backtest_through = some trading_date;
  updated_at = now;
}

abbrev pub backtest_failed : ℕ → String → JobRun → JobRun
backtest_failed now e r = record r {
  backtest_status = some "failed";
  error_summary = some e;
  updated_at = now;
}

abbrev pub reaches : ℕ → Option ℕ → Bool
reaches trading_date none = false
reaches trading_date (some through) = leb trading_date through

-- A run of the exchange whose backtest already reaches a date.
abbrev pub is_current : String → ℕ → JobRun → Bool
is_current exchange trading_date r =
    is_text exchange r.exchange
    && (is_text "completed" r.backtest_status && reaches trading_date r.backtest_through)

abbrev pub mark_backtest : ℕ → String → ℕ → Option String → List JobRun → List JobRun
mark_backtest now run_id trading_date none runs =
    update_where (has_id run_id) (backtest_done now trading_date) runs
mark_backtest now run_id trading_date (some e) runs =
    update_where (has_id run_id) (backtest_failed now e) runs

-- What follows for the backtest of a run, where no candle is missing.
abbrev pub finish_backtest :
    ℕ → String → String → ℕ → Option String → Bool → List JobRun → List JobRun
finish_backtest now run_id exchange trading_date backtest full runs =
    if full
    then if any (is_current exchange trading_date) runs
      then update_where (has_id run_id) (backtest_done now trading_date) runs
      else mark_backtest now run_id trading_date backtest runs
    else runs

unfoldable pub finish_ledger_coverage :
    ℕ → Option String → String → String → ℕ → List String → MarketDb → Coverage × List JobRun
unfolding get_historical_coverage
finish_ledger_coverage now backtest run_id exchange trading_date exempt_symbols db =
    let noted = note_exempt now run_id exempt_symbols db.runs in
    let coverage = get_historical_coverage exchange trading_date (record db { runs = noted }) in
    let closed = update_where (has_id run_id) (close_run now coverage) noted in
    (
      coverage,
      finish_backtest now run_id exchange trading_date backtest (coverage.missing == 0) closed,
    )

pub data Decision : Type 0 where
  historical_incomplete already_current refresh : Decision

unfoldable pub decide_backtest_refresh : Coverage → Option ℕ → ℕ → Decision
decide_backtest_refresh coverage backtests_through trading_date =
    if (coverage.total_expected == 0) || ltb 0 coverage.missing
    then historical_incomplete
    else if reaches trading_date backtests_through
    then already_current
    else refresh

abbrev pub later_of : Option ℕ → Option ℕ → Option ℕ
later_of none b = b
later_of (some a) none = some a
later_of (some a) (some b) = some (max a b)

-- `max(backtestThrough)` over the completed backtests of an exchange.
abbrev pub max_backtest_through : String → List JobRun → Option ℕ
max_backtest_through exchange [] = none
max_backtest_through exchange (r ∷ runs) =
    if is_text exchange r.exchange && is_text "completed" r.backtest_status
    then later_of r.backtest_through (max_backtest_through exchange runs)
    else max_backtest_through exchange runs

abbrev pub is_run_of : String → ℕ → JobRun → Bool
is_run_of exchange trading_date r =
    is_text exchange r.exchange && is_date trading_date r.trading_date

pub record RefreshAnswer : Type 0 where
  pub refreshed : Bool
  pub reason : Option Decision
  pub backtests_through : Option ℕ

abbrev pub refresh_by :
    ℕ
    → Option String
    → String
    → ℕ
    → Option ℕ
    → Decision
    → List JobRun
    → Option RefreshAnswer × List JobRun
refresh_by now backtest exchange trading_date through refresh runs = elim backtest [
  | some e ↦ (none, runs)
  | none ↦ (
    some (record { refreshed = true; reason = none; backtests_through = some trading_date }),
    update_where (is_run_of exchange trading_date) (backtest_done now trading_date) runs,
  )
]
refresh_by now backtest exchange trading_date through historical_incomplete runs = (
  some (record {
    refreshed = false;
    reason = some historical_incomplete;
    backtests_through = through;
  }),
  runs,
)
refresh_by now backtest exchange trading_date through already_current runs = (
  some (record { refreshed = false; reason = some already_current; backtests_through = through }),
  runs,
)

-- No answer where the reconciliation throws.
unfoldable pub refresh_market_data_backtests :
    ℕ → Option String → String → ℕ → MarketDb → Option RefreshAnswer × List JobRun
unfolding get_historical_coverage decide_backtest_refresh
refresh_market_data_backtests now backtest exchange trading_date db =
    let coverage = get_historical_coverage exchange trading_date db in
    let through = max_backtest_through exchange db.runs in
    refresh_by now backtest exchange trading_date through
      (decide_backtest_refresh coverage through trading_date) db.runs
