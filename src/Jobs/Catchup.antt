-- ===== src/Jobs/Catchup.antt =====
-- The coverage of the tables and the catch-up runs of src/modules/jobs/market-data-job-ledger.ts.
use stock_harvesting_backend.Prelude.{
  ℕ, String, List, [], ◌∷◌, ◌++◌, Option, none, some, Bool, true, false, not, ◌&&◌, ◌||◌, ◌==◌, leb,
  str_eq, any, find, filter, map, length, if◌then◌else◌,
}
use Prim.Native.String.{◌++◌ as text_append}
use stock_harvesting_backend.Calendar.Days.{Formatter, get_exchange_today_if_trading_day}
use stock_harvesting_backend.Database.Tables.{update_where}
use stock_harvesting_backend.Market.Universe.{InstrumentRow, active_universe_filter}
use stock_harvesting_backend.Market.Checkpoints.{CheckpointRow}
use stock_harvesting_backend.Market.NoHistory.{list_no_history_symbols}
use stock_harvesting_backend.Jobs.Runs.{
  RunStatus, pending, queued, running, partial, failed, missed, same_status, daily_candle_catch_up,
  JobRun, new_run, has_id, has_key, conflicts, insert_unless_conflict,
}
use stock_harvesting_backend.Jobs.Coverage.{UniverseRow, Coverage, calculate_historical_coverage}

-- The tables that the coverage is read from: the daily candles as instrument and date.
pub record MarketDb : Type 0 where
  pub instruments : List InstrumentRow
  pub day_candles : List (String × ℕ)
  pub checkpoints : List CheckpointRow
  pub runs : List JobRun

unfoldable pub is_historical_catch_up_date : Formatter → String → ℕ → ℕ → Bool
is_historical_catch_up_date fmt exchange trading_date at =
    elim (get_exchange_today_if_trading_day fmt exchange at) [
      | none ↦ true
      | some today ↦ not (trading_date == today)
    ]

abbrev pub universe_row : InstrumentRow → UniverseRow
universe_row row = record {
  instrument_id = row.id;
  symbol = row.symbol;
  first_candle_date = none;
  production_eligible = none;
}

-- The instruments of a list that have a candle at a date.
abbrev pub present_at : ℕ → List UniverseRow → List (String × ℕ) → List String
present_at trading_date universe candles =
    map (λ c. c.0)
      (filter (λ c. any (λ row. str_eq row.instrument_id c.0) universe && (c.1 == trading_date))
        candles)

-- The symbols that the catch-up runs of a date found to be empty at the provider.
abbrev pub exempt_of_runs : String → ℕ → List JobRun → List String
exempt_of_runs exchange trading_date [] = []
exempt_of_runs exchange trading_date (r ∷ runs) =
    if has_key trading_date exchange daily_candle_catch_up r
    then r.coverage_exempt_symbols ++ exempt_of_runs exchange trading_date runs
    else exempt_of_runs exchange trading_date runs

abbrev pub no_coverage : Coverage
no_coverage = record {
  total_expected = 0;
  completed = 0;
  missing = 0;
  missing_symbols = [];
  exempt = 0;
}

-- The coverage of a universe at a date, none of it where the universe is empty.
abbrev pub coverage_of : ℕ → List UniverseRow → List String → List String → Coverage
coverage_of trading_date [] present exempt_symbols = no_coverage
coverage_of trading_date (row ∷ rows) present exempt_symbols =
    calculate_historical_coverage (row ∷ rows) present (some trading_date) exempt_symbols

unfoldable pub get_historical_coverage : String → ℕ → MarketDb → Coverage
unfolding calculate_historical_coverage active_universe_filter list_no_history_symbols
get_historical_coverage exchange trading_date db =
    let universe = map universe_row (filter (active_universe_filter exchange) db.instruments) in
    let exempt_symbols =
      exempt_of_runs exchange trading_date db.runs
      ++ list_no_history_symbols exchange db.checkpoints in
    coverage_of trading_date universe (present_at trading_date universe db.day_candles)
      exempt_symbols

-- What a job queue answers: the state of a job by its id, and the error of an addition, if it fails.
pub record Queue : Type 0 where
  pub get_state : String → Option String
  pub add_job : String → Option String

abbrev pub live_bullmq_states : List String
live_bullmq_states = "waiting" ∷ "active" ∷ "delayed" ∷ "prioritized" ∷ "waiting-children" ∷ []

unfoldable pub has_live_catch_up_job : Queue → String → Bool
has_live_catch_up_job queue job_id = elim (queue.get_state job_id) [
  | none ↦ false
  | some state ↦ any (str_eq state) live_bullmq_states
]

abbrev pub catch_up_run : ℕ → String → String → ℕ → List String → JobRun
catch_up_run now id exchange trading_date target_symbols =
    record (new_run now id daily_candle_catch_up pending) {
      trading_date = some trading_date;
      exchange = some exchange;
      scheduled_at = some now;
      total_expected = length target_symbols;
      missing_count = length target_symbols;
    }

abbrev pub is_retryable : RunStatus → Bool
is_retryable status =
    same_status status pending
    || same_status status failed
    || (same_status status partial || same_status status missed)

abbrev pub may_be_orphaned : RunStatus → Bool
may_be_orphaned status = same_status status queued || same_status status running

-- A run that is left as it is: one that still has its job, or that no catch-up may repeat.
abbrev pub is_left : Option Queue → String → JobRun → Bool
is_left queue job_id row =
    if is_retryable row.status
    then false
    else if not (may_be_orphaned row.status)
    then true
    else elim queue [ none ↦ true | some q ↦ has_live_catch_up_job q job_id ]

abbrev pub mark_enqueued : ℕ → String → JobRun → JobRun
mark_enqueued now job_id r = record r {
  status = queued;
  bullmq_job_id = some job_id;
  updated_at = now;
}

abbrev pub mark_enqueue_error : ℕ → String → JobRun → JobRun
mark_enqueue_error now e r = record r { error_summary = some e; updated_at = now }

unfoldable pub enqueue : ℕ → Option Queue → String → String → List JobRun → List JobRun
enqueue now none job_id id runs = runs
enqueue now (some q) job_id id runs = elim (q.add_job job_id) [
  | none ↦ update_where (has_id id) (mark_enqueued now job_id) runs
  | some e ↦ update_where (has_id id) (mark_enqueue_error now e) runs
]

-- What follows where the run was not inserted: the row of the key decides.
unfoldable pub requeue :
    ℕ → Option Queue → String → Bool → Option JobRun → List JobRun → Option String × List JobRun
unfolding enqueue has_live_catch_up_job
requeue now queue job_id force none runs = (none, runs)
requeue now queue job_id force (some row) runs =
    if is_left queue job_id row || (leb 3 row.attempt_count && not force)
    then (some row.id, runs)
    else (some row.id, enqueue now queue job_id row.id runs)

-- `market-data-catch-up:${exchange}:${tradingDate}`, with the date's text as an argument.
abbrev pub catch_up_job_id : (ℕ → String) → String → ℕ → String
catch_up_job_id format_date exchange trading_date =
    text_append "market-data-catch-up:"
      (text_append exchange (text_append ":" (format_date trading_date)))

unfoldable pub queue_catch_up :
    (ℕ → String)
    → ℕ
    → String
    → Option Queue
    → String
    → ℕ
    → List String
    → Bool
    → List JobRun
    → Option String × List JobRun
unfolding enqueue requeue
queue_catch_up format_date now fresh queue exchange trading_date target_symbols force runs =
    let job_id = catch_up_job_id format_date exchange trading_date in
    let new = catch_up_run now fresh exchange trading_date target_symbols in
    if any (conflicts new) runs
    then requeue now queue job_id force
        (find (has_key trading_date exchange daily_candle_catch_up) runs) runs
    else (some fresh, enqueue now queue job_id fresh (insert_unless_conflict new runs))

-- The symbols that a request names, or those without a candle.
abbrev pub target_symbols_of : String → ℕ → Option (List String) → MarketDb → List String
target_symbols_of exchange trading_date none db =
    (get_historical_coverage exchange trading_date db).missing_symbols
target_symbols_of exchange trading_date (some symbols) db = symbols

-- Nothing is queued where no symbol is left.
abbrev pub queue_targets :
    (ℕ → String)
    → ℕ
    → String
    → Option Queue
    → String
    → ℕ
    → Bool
    → List String
    → List JobRun
    → Option String × List JobRun
queue_targets format_date now fresh queue exchange trading_date force [] runs = (none, runs)
queue_targets format_date now fresh queue exchange trading_date force (s ∷ ss) runs =
    queue_catch_up format_date now fresh queue exchange trading_date (s ∷ ss) force runs

-- The id of the run, if there is one, and the runs that are left.
unfoldable pub create_and_queue_catch_up :
    (ℕ → String)
    → ℕ
    → String
    → Option Queue
    → String
    → ℕ
    → Option (List String)
    → Bool
    → MarketDb
    → Option String × List JobRun
unfolding queue_catch_up get_historical_coverage
create_and_queue_catch_up format_date now fresh queue exchange trading_date symbols force db =
    queue_targets format_date now fresh queue exchange trading_date force
      (target_symbols_of exchange trading_date symbols db) db.runs
