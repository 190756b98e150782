-- ===== src/Jobs/Claims.antt =====
-- Which runs a worker may claim, and what a claim leaves.
use stock_harvesting_backend.Prelude.{
  ℕ, ◌+◌, String, List, Option, none, some, Bool, true, false, find, ◌≡◌, ◌∙◌, refl, ap, arith,
}
use text.Mathlib.TextPositions.{eq_refl}
use stock_harvesting_backend.Calendar.Days.{Formatter}
use stock_harvesting_backend.Database.Tables.{find-update_where}
use stock_harvesting_backend.Database.Transactions.{Result, ok, err}
use stock_harvesting_backend.Jobs.Runs.{
  RunStatus, pending, queued, running, completed, partial, failed, missed, JobRun, has_id,
}
use stock_harvesting_backend.Jobs.Ledger.{
  ClaimInput, ClaimError, not_claimable, claim_row, claim_market_data_ledger_run, is_final,
  start_run,
}
use stock_harvesting_backend.Jobs.Identity.{HasUniqueIds, found-All}

-- A claim of the row that a test finds.
claim_row-started :
    (now : ℕ) (job_id : Option String) (p : JobRun → Bool) (runs : List JobRun) (row : JobRun)
    → HasUniqueIds runs
    → find p runs ≡ some row
    → is_final row.status ≡ false
    → ((claim_row now job_id (find p runs) runs).0 ≡ ok row.id)
      × (find (has_id row.id) (claim_row now job_id (find p runs) runs).1
          ≡ some (start_run now job_id row))
unfolding claim_row
claim_row-started now job_id p runs row unique found free =
    let its : find (has_id row.id) runs ≡ some row =
      found-All (λ x. find (has_id x.id) runs ≡ some x) p runs unique found in
    let moved =
      find-update_where (has_id row.id) (has_id row.id) (start_run now job_id) runs (λ x. refl)
        its in
    rw (found, claim_row) (rw free (refl, moved ∙ rw (eq_refl row.id) refl))

claim_row-refused :
    (now : ℕ) (job_id : Option String) (p : JobRun → Bool) (runs : List JobRun) (row : JobRun)
    → find p runs ≡ some row
    → is_final row.status ≡ true
    → claim_row now job_id (find p runs) runs ≡ (err not_claimable, runs)
unfolding claim_row
claim_row-refused now job_id p runs row found final = rw (found, claim_row) (rw final refl)

abbrev kept_or_new : Option String → Option String → Option String
kept_or_new none kept = kept
kept_or_new (some new) kept = some new

-- The run of a claim as it is afterwards.
abbrev as_claimed : ℕ → Option String → JobRun → JobRun
as_claimed now job_id row = record row {
  status = running;
  started_at = some now;
  finished_at = none;
  bullmq_job_id = kept_or_new job_id row.bullmq_job_id;
  attempt_count = row.attempt_count + 1;
  error_summary = none;
  updated_at = now;
}

abbrev IsRefused : List JobRun → Result ClaimError String × List JobRun → Type 0
IsRefused runs answer = answer ≡ (err not_claimable, runs)

abbrev IsGranted : ℕ → Option String → JobRun → Result ClaimError String × List JobRun → Type 0
IsGranted now job_id row answer =
    (answer.0 ≡ ok row.id) × (find (has_id row.id) answer.1 ≡ some (as_claimed now job_id row))

-- What a claim of a run answers, by the run's status.
abbrev pub IsClaimed :
    ℕ
    → Option String
    → List JobRun
    → JobRun
    → Result ClaimError String × List JobRun
    → RunStatus
    → Type 0
IsClaimed now job_id runs row answer missed = IsRefused runs answer
IsClaimed now job_id runs row answer completed = IsRefused runs answer
IsClaimed now job_id runs row answer pending = IsGranted now job_id row answer
IsClaimed now job_id runs row answer queued = IsGranted now job_id row answer
IsClaimed now job_id runs row answer running = IsGranted now job_id row answer
IsClaimed now job_id runs row answer partial = IsGranted now job_id row answer
IsClaimed now job_id runs row answer failed = IsGranted now job_id row answer

start_run-claimed :
    (now : ℕ) (job_id : Option String) (row : JobRun)
    → start_run now job_id row ≡ as_claimed now job_id row
start_run-claimed now none row =
    ap (λ n. record (as_claimed now none row) { attempt_count = n }) (omega arith)
start_run-claimed now (some new) row =
    ap (λ n. record (as_claimed now (some new) row) { attempt_count = n }) (omega arith)

claim_row-IsClaimed :
    (now : ℕ) (job_id : Option String) (p : JobRun → Bool) (runs : List JobRun) (row : JobRun)
    → HasUniqueIds runs
    → find p runs ≡ some row
    → (status : RunStatus) → row.status ≡ status
    → IsClaimed now job_id runs row (claim_row now job_id (find p runs) runs) status
claim_row-IsClaimed now job_id p runs row unique found status is = by_status status is
  where
    granted :
        is_final row.status ≡ false
        → IsGranted now job_id row (claim_row now job_id (find p runs) runs)
    granted free =
        let started = claim_row-started now job_id p runs row unique found free in
        (started.0, started.1 ∙ ap some (start_run-claimed now job_id row))

    by_status :
        (status : RunStatus)
        → row.status ≡ status
        → IsClaimed now job_id runs row (claim_row now job_id (find p runs) runs) status
    by_status missed is = claim_row-refused now job_id p runs row found (ap is_final is)
    by_status completed is = claim_row-refused now job_id p runs row found (ap is_final is)
    by_status pending is = granted (ap is_final is)
    by_status queued is = granted (ap is_final is)
    by_status running is = granted (ap is_final is)
    by_status partial is = granted (ap is_final is)
    by_status failed is = granted (ap is_final is)

-- The run of a request that names it: a missed or a completed one is refused and the runs stay as they are; one of any
-- other status is running afterwards, from now on, with one attempt more, no error and the request's job, if it has one.
pub claim_market_data_ledger_run_lem :
    (fmt : Formatter) (fresh : String → ℕ → String) (now : ℕ) (input : ClaimInput)
    (runs : List JobRun) (id : String) (row : JobRun)
    → input.ledger_run_id ≡ some id
    → HasUniqueIds runs
    → find (has_id id) runs ≡ some row
    → IsClaimed now input.bullmq_job_id runs row
        (claim_market_data_ledger_run fmt fresh now input runs)
        row.status
unfolding claim_market_data_ledger_run
claim_market_data_ledger_run_lem fmt fresh now input runs id row given unique found =
    rw given (
      claim_row-IsClaimed now input.bullmq_job_id (has_id id) runs row unique found row.status refl)
