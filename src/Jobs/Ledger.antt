-- ===== src/Jobs/Ledger.antt =====
-- The expected runs, the marks and the claims of src/modules/jobs/market-data-job-ledger.ts.
use stock_harvesting_backend.Prelude.{
  ℕ, suc, ◌+◌, ◌-◌, ◌*◌, String, List, [], ◌∷◌, Option, none, some, Bool, false, ◌&&◌, ◌||◌, ◌==◌,
  ◌++◌, ltb, str_eq, any, find, length, filter, map, if◌then◌else◌,
}
use stock_harvesting_backend.Calendar.Days.{
  Formatter, get_exchange_today_if_trading_day, get_latest_expected_trading_day,
  get_recent_expected_trading_days,
}
use stock_harvesting_backend.Database.Tables.{update_where}
use stock_harvesting_backend.Database.Transactions.{Result, ok, err}
use stock_harvesting_backend.Jobs.Runs.{
  RunStatus, pending, queued, running, completed, missed, same_status, daily_candle_morning,
  daily_candle_post_market, JobRun, new_run, has_id, has_key, insert_unless_conflict,
}

-- A schedule's job type, and its time in minutes after midnight in India.
abbrev pub expected_schedules : List (String × ℕ)
expected_schedules =
    (daily_candle_morning, 9 * 60 + 45) ∷ (daily_candle_post_market, 16 * 60 + 15) ∷ []

abbrev pub missed_job_grace_ms : ℕ
missed_job_grace_ms = 12 * 60 * 60 * 1000

-- `scheduledAtForIndiaDate`: the offset of India is five and a half hours.
unfoldable pub scheduled_at_for_india_date : ℕ → ℕ → ℕ
scheduled_at_for_india_date date time =
    date * (24 * 60 * 60 * 1000) + time * (60 * 1000) - 330 * (60 * 1000)

abbrev pub awaits : RunStatus → Bool
awaits status = same_status status pending || same_status status queued

unfoldable pub is_expected_job_missed : RunStatus → ℕ → ℕ → Bool
is_expected_job_missed status scheduled_at at =
    awaits status && ltb scheduled_at (at - missed_job_grace_ms)

-- The row of an expected run, with the identifier that the database gives it.
abbrev pub expected_run : (String → ℕ → String) → ℕ → String → ℕ → String × ℕ → JobRun
expected_run fresh now exchange trading_date (job_type, time) =
    record (new_run now (fresh job_type trading_date) job_type pending) {
      trading_date = some trading_date;
      exchange = some exchange;
      scheduled_at = some (scheduled_at_for_india_date trading_date time);
    }

unfoldable pub expected_market_data_jobs_for_date :
    (String → ℕ → String) → ℕ → String → ℕ → List JobRun
expected_market_data_jobs_for_date fresh now exchange trading_date =
    map (expected_run fresh now exchange trading_date) expected_schedules

abbrev pub insert_each : List JobRun → List JobRun → List JobRun
insert_each [] runs = runs
insert_each (new ∷ news) runs = insert_each news (insert_unless_conflict new runs)

abbrev pub insert_dates : (ℕ → List JobRun) → List ℕ → List JobRun → List JobRun
insert_dates expected [] runs = runs
insert_dates expected (date ∷ dates) runs =
    insert_dates expected dates (insert_each (expected date) runs)

abbrev pub add_date : ℕ → List ℕ → List ℕ
add_date date dates = if any (λ d. d == date) dates then dates else dates ++ date ∷ []

-- The dates of an exchange: the three recent trading days, and today where it is one. A `Set` keeps the first.
abbrev pub expected_dates : Formatter → String → ℕ → List ℕ
expected_dates fmt exchange at = elim (get_exchange_today_if_trading_day fmt exchange at) [
  | none ↦ get_recent_expected_trading_days fmt exchange at 3
  | some today ↦ add_date today (get_recent_expected_trading_days fmt exchange at 3)
]

-- What `ensureExpectedMarketDataJobs` leaves of the runs and how many it created.
unfoldable pub ensure_expected_market_data_jobs :
    Formatter → (String → String → ℕ → String) → ℕ → ℕ → List String → List JobRun → List JobRun
unfolding expected_market_data_jobs_for_date
ensure_expected_market_data_jobs fmt fresh now at [] runs = runs
ensure_expected_market_data_jobs fmt fresh now at (exchange ∷ exchanges) runs =
    ensure_expected_market_data_jobs fmt fresh now at exchanges (
      insert_dates (expected_market_data_jobs_for_date (fresh exchange) now exchange)
        (expected_dates fmt exchange at) runs)

-- `inArray(jobType, EXPECTED_SCHEDULES.map(…))`
abbrev pub is_scheduled : JobRun → Bool
is_scheduled r = any (λ schedule. str_eq r.job_type schedule.0) expected_schedules

abbrev pub is_in : List String → Option String → Bool
is_in exchanges none = false
is_in exchanges (some exchange) = any (str_eq exchange) exchanges

abbrev pub set_status : ℕ → RunStatus → JobRun → JobRun
set_status now status r = record r { status = status; updated_at = now }

abbrev pub is_pending_of : List String → JobRun → Bool
is_pending_of exchanges r =
    same_status r.status pending && (is_in exchanges r.exchange && is_scheduled r)

unfoldable pub mark_expected_market_data_jobs_queued : ℕ → List String → List JobRun → List JobRun
mark_expected_market_data_jobs_queued now [] runs = runs
mark_expected_market_data_jobs_queued now (e ∷ exchanges) runs =
    update_where (is_pending_of (e ∷ exchanges)) (set_status now queued) runs

-- `lt(scheduledAt, at - grace)`, which null never satisfies.
abbrev pub is_before : ℕ → Option ℕ → Bool
is_before at none = false
is_before at (some t) = ltb t at

abbrev pub was_due : ℕ → JobRun → Bool
was_due at r = is_before (at - missed_job_grace_ms) r.scheduled_at

-- `inArray(status, ["pending", "queued"])`
abbrev pub is_unstarted : RunStatus → Bool
is_unstarted status = any (same_status status) (pending ∷ queued ∷ [])

abbrev pub is_overdue : ℕ → JobRun → Bool
is_overdue at r = is_unstarted r.status && (is_scheduled r && was_due at r)

-- How many rows it marks, and the runs it leaves.
unfoldable pub reconcile_market_data_job_ledger : ℕ → ℕ → List JobRun → ℕ × List JobRun
reconcile_market_data_job_ledger now at runs = (
  length (filter (is_overdue at) runs),
  update_where (is_overdue at) (set_status now missed) runs,
)

pub record ClaimInput : Type 0 where
  pub job_type : String
  pub exchange : String
  pub bullmq_job_id : Option String
  pub ledger_run_id : Option String
  pub trading_date : Option ℕ

pub data ClaimError : Type 0 where
  expected_job_missing not_claimable : ClaimError

-- `input.tradingDate ?? today ?? latest`
abbrev pub claim_date : Formatter → ℕ → ClaimInput → ℕ
claim_date fmt now input = elim input.trading_date [
  | some date ↦ date
  | none ↦ elim (get_exchange_today_if_trading_day fmt input.exchange now) [
    | some today ↦ today
    | none ↦ get_latest_expected_trading_day fmt input.exchange now
  ]
]

abbrev pub insert_first : Option JobRun → List JobRun → List JobRun
insert_first none runs = runs
insert_first (some expected) runs = insert_unless_conflict expected runs

-- The row of a claim and the runs in which it was looked up; the run of a schedule is inserted first.
abbrev pub prepare_claim : (String → ℕ → String) → ℕ → ℕ → ClaimInput → List JobRun → List JobRun
prepare_claim fresh now date input runs = elim input.ledger_run_id [
  | some id ↦ runs
  | none ↦
      insert_first
        (find (λ r. str_eq r.job_type input.job_type)
          (expected_market_data_jobs_for_date fresh now input.exchange date))
        runs
]

abbrev pub claimed_row : ℕ → ClaimInput → List JobRun → Option JobRun
claimed_row date input runs = elim input.ledger_run_id [
  | some id ↦ find (has_id id) runs
  | none ↦ find (has_key date input.exchange input.job_type) runs
]

-- A column keeps its value where the change names none.
abbrev pub or_kept : Option String → Option String → Option String
or_kept none kept = kept
or_kept (some new) kept = some new

abbrev pub start_run : ℕ → Option String → JobRun → JobRun
start_run now bullmq_job_id r = record r {
  status = running;
  started_at = some now;
  finished_at = none;
  bullmq_job_id = or_kept bullmq_job_id r.bullmq_job_id;
  attempt_count = suc r.attempt_count;
  error_summary = none;
  updated_at = now;
}

abbrev pub is_final : RunStatus → Bool
is_final status = same_status status missed || same_status status completed

unfoldable pub claim_row :
    ℕ → Option String → Option JobRun → List JobRun → Result ClaimError String × List JobRun
claim_row now bullmq_job_id none runs = (err expected_job_missing, runs)
claim_row now bullmq_job_id (some row) runs =
    if is_final row.status
    then (err not_claimable, runs)
    else (ok row.id, update_where (has_id row.id) (start_run now bullmq_job_id) runs)

unfoldable pub claim_market_data_ledger_run :
    Formatter
    → (String → ℕ → String)
    → ℕ
    → ClaimInput
    → List JobRun
    → Result ClaimError String × List JobRun
unfolding expected_market_data_jobs_for_date claim_row
claim_market_data_ledger_run fmt fresh now input runs =
    let date = claim_date fmt now input in
    let prepared = prepare_claim fresh now date input runs in
    claim_row now input.bullmq_job_id (claimed_row date input prepared) prepared
