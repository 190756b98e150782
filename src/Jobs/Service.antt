-- ===== src/Jobs/Service.antt =====
-- The runs of the workers in src/modules/jobs/background-job-runs.service.ts. Events and logs are left out.
use stock_harvesting_backend.Prelude.{
  ℕ, String, List, [], ◌∷◌, ◌++◌, Option, none, some, Bool, false, ◌&&◌, ◌||◌, ◌==◌, str_eq, any,
  if◌then◌else◌,
}
use stock_harvesting_backend.Calendar.Days.{Formatter}
use stock_harvesting_backend.Database.Tables.{update_where, insert_row, delete_where}
use stock_harvesting_backend.Database.Transactions.{Result, ok, err}
use stock_harvesting_backend.Market.Summary.{SyncSummary}
use stock_harvesting_backend.Jobs.Runs.{
  RunStatus, queued, running, completed, partial, failed, same_status, chart_ensure_fresh, Counts,
  no_counts, JobRun, new_run, has_id,
}
use stock_harvesting_backend.Jobs.Ledger.{ClaimInput, ClaimError, claim_market_data_ledger_run}

abbrev pub is_active : RunStatus → Bool
is_active status = same_status status queued || same_status status running

abbrev pub fail_run : ℕ → String → JobRun → JobRun
fail_run now reason r = record r {
  status = failed;
  finished_at = some now;
  error_summary = some reason;
  updated_at = now;
}

abbrev pub is_active_run : String → JobRun → Bool
is_active_run id r = has_id id r && is_active r.status

-- The time of the change, if there was one.
unfoldable pub mark_orphaned_run : ℕ → String → String → List JobRun → Option ℕ × List JobRun
mark_orphaned_run now id reason runs = (
  if any (is_active_run id) runs then some now else none,
  update_where (is_active_run id) (fail_run now reason) runs,
)

abbrev pub started_run : ℕ → String → String → JobRun
started_run now id job_type = record (new_run now id job_type running) { started_at = some now }

-- The id of the run that was started; one of the ledger is claimed.
unfoldable pub start_background_job_run :
    Formatter
    → (String → ℕ → String)
    → ℕ
    → String
    → String
    → Option ClaimInput
    → List JobRun
    → Result ClaimError String × List JobRun
unfolding claim_market_data_ledger_run
start_background_job_run fmt fresh now id job_type none runs =
    (ok id, insert_row (started_run now id job_type) runs)
start_background_job_run fmt fresh now id job_type (some input) runs =
    claim_market_data_ledger_run fmt fresh now (record input { job_type = job_type }) runs

unfoldable pub fail_background_job_run : ℕ → String → String → List JobRun → List JobRun
fail_background_job_run now id message runs = update_where (has_id id) (fail_run now message) runs

pub record ScheduledInput : Type 0 where
  pub job_type : String
  pub exchange : Option String
  pub bullmq_job_id : Option String
  pub has_sync_job : Bool
  pub discard_when_no_work : Bool

abbrev pub scheduled_run : ℕ → String → ScheduledInput → JobRun
scheduled_run now id input = record (new_run now id input.job_type running) {
  exchange = input.exchange;
  scheduled_at = some now;
  started_at = some now;
  bullmq_job_id = input.bullmq_job_id;
}

abbrev pub complete_run : ℕ → JobRun → JobRun
complete_run now r = record r { status = completed; finished_at = some now; updated_at = now }

-- `scalar.queued === 0`
abbrev pub is_zero : Option ℕ → Bool
is_zero none = false
is_zero (some n) = n == 0

-- What the body answers: how many jobs it queued, if it counts them, or the message of its error.
unfoldable pub settle_scheduled :
    ℕ → String → ScheduledInput → Result String (Option ℕ) → List JobRun → List JobRun
unfolding fail_background_job_run
settle_scheduled now id input (ok result) runs =
    if input.discard_when_no_work && is_zero result
    then delete_where (has_id id) runs
    else update_where (has_id id) (complete_run now) runs
settle_scheduled now id input (err message) runs = fail_background_job_run now id message runs

-- The answer of the body is passed on, an error too.
unfoldable pub record_scheduled_job_run :
    ℕ
    → ℕ
    → String
    → ScheduledInput
    → Result String (Option ℕ)
    → List JobRun
    → Result String (Option ℕ) × List JobRun
unfolding settle_scheduled
record_scheduled_job_run now later id input result runs =
    if input.has_sync_job then (result, runs) else (
      result,
      settle_scheduled later id input result (insert_row (scheduled_run now id input) runs),
    )

abbrev pub show_progress : ℕ → ℕ → ℕ → ℕ → ℕ → ℕ → JobRun → JobRun
show_progress now processed total updated repaired lost r = record r {
  counts = record r.counts {
    processed = processed;
    updated = updated;
    repaired = repaired;
    failed_count = lost;
  };
  total_expected = total;
  updated_at = now;
}

unfoldable pub emit_job_progress : ℕ → String → ℕ → ℕ → ℕ → ℕ → ℕ → List JobRun → List JobRun
emit_job_progress now id processed total updated repaired lost runs =
    update_where (has_id id) (show_progress now processed total updated repaired lost) runs

-- The message of a partial run, with the number of the failed symbols.
abbrev pub failures_message : (ℕ → String) → ℕ → Option String
failures_message message count = if count == 0 then none else some (message count)

abbrev pub finish_run : (ℕ → String) → ℕ → SyncSummary → JobRun → JobRun
finish_run message now summary r = record r {
  status = if summary.failed_count == 0 then completed else partial;
  finished_at = some now;
  counts = record {
    processed = summary.processed;
    updated = summary.updated_count;
    repaired = summary.repaired_count;
    already_current = summary.already_current_count;
    bootstrap_required = summary.bootstrap_required_count;
    failed_count = summary.failed_count;
  };
  error_summary = failures_message message summary.failed_count;
  coverage_exempt_symbols = summary.provider_empty_symbols;
  updated_at = now;
}

unfoldable pub finish_background_job_run_from_summary :
    (ℕ → String) → ℕ → String → SyncSummary → List JobRun → List JobRun
finish_background_job_run_from_summary message now id summary runs =
    update_where (has_id id) (finish_run message now summary) runs

pub data FreshStatus : Type 0 where
  fresh_updated fresh_repaired fresh_failed : FreshStatus

abbrev pub fresh_counts : FreshStatus → Counts
fresh_counts fresh_updated = record no_counts { processed = 1; updated = 1 }
fresh_counts fresh_repaired = record no_counts { processed = 1; repaired = 1 }
fresh_counts fresh_failed = record no_counts { processed = 1; failed_count = 1 }

abbrev pub fresh_status : FreshStatus → RunStatus
fresh_status fresh_updated = completed
fresh_status fresh_repaired = completed
fresh_status fresh_failed = failed

abbrev pub fresh_error : FreshStatus → Option String
fresh_error fresh_updated = none
fresh_error fresh_repaired = none
fresh_error fresh_failed = some "chart ensure-fresh repair failed"

unfoldable pub record_chart_ensure_fresh_run : ℕ → String → FreshStatus → List JobRun → List JobRun
record_chart_ensure_fresh_run now id status runs =
    insert_row
      (record (new_run now id chart_ensure_fresh (fresh_status status)) {
        started_at = some now;
        finished_at = some now;
        counts = fresh_counts status;
        error_summary = fresh_error status;
      })
      runs

-- What the queue answers for a job: its state, that there is none, or nothing in time.
pub data Lookup : Type 0 where
  in_state : String → Lookup
  absent : Lookup
  timed_out : Lookup

abbrev pub state_of_lookup : Lookup → String
state_of_lookup (in_state state) = state
state_of_lookup absent = "missing"
state_of_lookup timed_out = "unavailable"

-- The queue state of a run that is queued or running; the queue may be missing.
abbrev pub queue_state_of : Option (String → Lookup) → Option String → String
queue_state_of none job_id = "unavailable"
queue_state_of (some queue) none = "missing"
queue_state_of (some queue) (some job_id) = state_of_lookup (queue job_id)

pub record ShownRun : Type 0 where
  pub run : JobRun
  pub queue_state : String

abbrev pub orphan_reason : String → String
orphan_reason state =
    if str_eq state "missing"
    then "Orphaned job: no corresponding Redis queue job exists"
    else "Queue job is failed, but its database run was never finalised"

abbrev pub is_abandoned : String → Bool
is_abandoned state = str_eq state "missing" || str_eq state "failed"

abbrev pub shown_after : ℕ → JobRun → String → Option ℕ → ShownRun
shown_after now row state none = record { run = row; queue_state = state }
shown_after now row state (some at) = record {
  run = fail_run at (orphan_reason state) row;
  queue_state = state;
}

abbrev pub show_abandoned : ℕ → JobRun → String → Option ℕ × List JobRun → ShownRun × List JobRun
show_abandoned now row state (at, runs) = (shown_after now row state at, runs)

abbrev pub show_active : ℕ → JobRun → String → List JobRun → ShownRun × List JobRun
show_active now row state runs =
    if is_abandoned state
    then show_abandoned now row state (mark_orphaned_run now row.id (orphan_reason state) runs)
    else (record { run = row; queue_state = state }, runs)

abbrev pub show_row : ℕ → Option (String → Lookup) → JobRun → List JobRun → ShownRun × List JobRun
show_row now queue row runs =
    if is_active row.status
    then show_active now row (queue_state_of queue row.bullmq_job_id) runs
    else (record { run = row; queue_state = "not-linked" }, runs)

-- The rows that were read are shown one after the other; the table may have changed since they were read.
unfoldable pub show_rows :
    ℕ → Option (String → Lookup) → List JobRun → List JobRun → List ShownRun × List JobRun
unfolding mark_orphaned_run
show_rows now queue [] runs = ([], runs)
show_rows now queue (row ∷ rows) runs =
    let shown = show_row now queue row runs in
    let rest = show_rows now queue rows shown.1 in (shown.0 ∷ rest.0, rest.1)

-- The first row of each job type, from rows ordered by their start, latest first.
unfoldable pub latest_by_type : List JobRun → List JobRun → List JobRun
latest_by_type latest [] = latest
latest_by_type latest (row ∷ rows) =
    if any (λ r. str_eq r.job_type row.job_type) latest
    then latest_by_type latest rows
    else latest_by_type (latest ++ row ∷ []) rows
