-- ===== src/Jobs/Steps.antt =====
-- The steps of the ledger, and what they leave of a completed run.
use stock_harvesting_backend.Prelude.{
  ℕ, String, List, [], ◌∷◌, Option, none, some, Bool, true, false, not, ◌||◌, ◌&&◌, leb, str_eq,
  any, find, ◌≡◌, ◌∙◌, sym, false≢true, subst, refl, arith, Bool-cases, Option-cases, inl, inr,
}
use stock_harvesting_backend.Calendar.Days.{Formatter}
use stock_harvesting_backend.Jobs.Runs.{
  RunStatus, pending, queued, running, completed, partial, failed, missed, same_status, JobRun,
  has_id, has_key, daily_candle_catch_up, conflicts, insert_unless_conflict,
}
use stock_harvesting_backend.Jobs.Ledger.{
  ClaimInput, claim_market_data_ledger_run, claim_date, insert_first,
  ensure_expected_market_data_jobs, expected_market_data_jobs_for_date,
  mark_expected_market_data_jobs_queued, reconcile_market_data_job_ledger,
}
use stock_harvesting_backend.Jobs.Catchup.{
  MarketDb, Queue, enqueue, requeue, queue_catch_up, is_left, mark_enqueued, mark_enqueue_error,
  catch_up_job_id, catch_up_run, create_and_queue_catch_up, target_symbols_of, queue_targets,
}
use stock_harvesting_backend.Jobs.Service.{mark_orphaned_run, is_active_run, fail_run}
use stock_harvesting_backend.Jobs.Identity.{HasUniqueIds}
use stock_harvesting_backend.Jobs.Lifecycle.{
  Stands, Keeps, another_row, change-Keeps, insert-Keeps, ensure-Keeps, mark-Keeps, reconcile-Keeps,
  claim_row-Keeps, other_status,
}

-- One request on the ledger: the expected runs of a day, the marks, a claim by a worker, a catch-up that is asked
-- for, and the failure of a run whose job is gone.
pub data Step (fmt : Formatter) (format_date : ℕ → String)
    : List JobRun → List JobRun → Type 0 where
  ensures :
      (fresh : String → String → ℕ → String) (now at : ℕ) (exchanges : List String)
      (runs : List JobRun)
      → Step fmt format_date runs (ensure_expected_market_data_jobs fmt fresh now at exchanges runs)
  marks :
      (now : ℕ) (exchanges : List String) (runs : List JobRun)
      → Step fmt format_date runs (mark_expected_market_data_jobs_queued now exchanges runs)
  reconciles :
      (now at : ℕ) (runs : List JobRun)
      → Step fmt format_date runs (reconcile_market_data_job_ledger now at runs).1
  claims :
      (fresh : String → ℕ → String) (now : ℕ) (input : ClaimInput) (runs : List JobRun)
      → Step fmt format_date runs (claim_market_data_ledger_run fmt fresh now input runs).1
  catches_up :
      (now : ℕ) (fresh : String) (queue : Option Queue) (exchange : String) (trading_date : ℕ)
      (symbols : Option (List String)) (force : Bool) (db : MarketDb)
      → Step fmt format_date db.runs
          (create_and_queue_catch_up format_date now fresh queue exchange trading_date symbols force
            db).1
  orphans :
      (now : ℕ) (id reason : String) (runs : List JobRun)
      → Step fmt format_date runs (mark_orphaned_run now id reason runs).1

pub data Steps (fmt : Formatter) (format_date : ℕ → String)
    : List JobRun → List JobRun → Type 0 where
  stop : (runs : List JobRun) → Steps fmt format_date runs runs
  step :
      {runs next after : List JobRun}
      → Step fmt format_date runs next
      → Steps fmt format_date next after
      → Steps fmt format_date runs after

-- A run that a catch-up may repeat is not completed.
same_completed : (s : RunStatus) → same_status s completed ≡ true → s ≡ completed
same_completed pending e = cc
same_completed queued e = cc
same_completed running e = cc
same_completed completed e = refl
same_completed partial e = cc
same_completed failed e = cc
same_completed missed e = cc

not_left :
    (queue : Option Queue) (job_id : String) (row : JobRun)
    → is_left queue job_id row ≡ false
    → same_status row.status completed ≡ false
not_left queue job_id row goes = elim (Bool-cases (same_status row.status completed)) [
  | inr other ↦ other
  | inl same ↦
      let stays : is_left queue job_id row ≡ true = rw (same_completed row.status same) refl in
      elim (false≢true (sym goes ∙ stays)) [ ]
]

absent-found :
    (p q : JobRun → Bool) (runs : List JobRun) {r : JobRun}
    → any p runs ≡ false
    → find q runs ≡ some r
    → p r ≡ false
absent-found p q [] absent e = cc
absent-found p q (x ∷ runs) {r} absent e =
    let here : p x ≡ false = ground arith in
    let rest : any p runs ≡ false = ground arith in
    elim (Bool-cases (q x)) [
      | inl on ↦ let first : x ≡ r = ground arith in subst (λ y. p y ≡ false) first here
      | inr off ↦
          let later : find q runs ≡ some r = ground arith in absent-found p q runs rest later
    ]

module _ (id : String) (r : JobRun) (done : r.status ≡ completed) where
  claim-Keeps :
      (fmt : Formatter) (fresh : String → ℕ → String) (now : ℕ) (input : ClaimInput)
      (runs : List JobRun)
      → HasUniqueIds runs
      → Stands id r runs
      → Keeps id r runs (claim_market_data_ledger_run fmt fresh now input runs).1
  unfolding claim_market_data_ledger_run
  claim-Keeps fmt fresh now input runs unique stands =
      let date = claim_date fmt now input in
      elim (Option-cases input.ledger_run_id) [
        | inl none_given ↦
            let expected =
              find (λ x. str_eq x.job_type input.job_type)
                (expected_market_data_jobs_for_date fresh now input.exchange date) in
            let kept = insert_first-Keeps expected runs unique stands in
            rw none_given (
              claim_row-Keeps id r done now input.bullmq_job_id
                (has_key date input.exchange input.job_type) _ (insert_first expected runs) refl
                kept.0 kept.1)
        | inr (given, e) ↦ rw e (
            claim_row-Keeps id r done now input.bullmq_job_id (has_id given) _ runs refl unique
              stands)
      ]
    where
      insert_first-Keeps :
          (expected : Option JobRun) (runs : List JobRun)
          → HasUniqueIds runs
          → Stands id r runs
          → Keeps id r runs (insert_first expected runs)
      insert_first-Keeps none runs unique stands = (unique, stands)
      insert_first-Keeps (some new) runs unique stands =
          insert-Keeps id r done new runs unique stands

  enqueue-Keeps :
      (now : ℕ) (queue : Option Queue) (job_id other : String) (runs : List JobRun)
      → has_id other r ≡ false
      → HasUniqueIds runs
      → Stands id r runs
      → Keeps id r runs (enqueue now queue job_id other runs)
  unfolding enqueue
  enqueue-Keeps now none job_id other runs apart unique stands = (unique, stands)
  enqueue-Keeps now (some q) job_id other runs apart unique stands =
      elim (Option-cases (q.add_job job_id)) [
        | inl added ↦ rw added (
            change-Keeps id r done (has_id other) (mark_enqueued now job_id) runs (λ x. refl) apart
              unique stands)
        | inr (e, refused) ↦ rw refused (
            change-Keeps id r done (has_id other) (mark_enqueue_error now e) runs (λ x. refl) apart
              unique stands)
      ]

  orphan-Keeps :
      (now : ℕ) (other reason : String) (runs : List JobRun)
      → HasUniqueIds runs
      → Stands id r runs
      → Keeps id r runs (mark_orphaned_run now other reason runs).1
  unfolding mark_orphaned_run
  orphan-Keeps now other reason runs unique stands =
      change-Keeps id r done (is_active_run other) (fail_run now reason) runs (λ x. refl)
        (rw done (ground arith)) unique stands

  requeue-Keeps :
      (now : ℕ) (queue : Option Queue) (job_id : String) (force : Bool) (p : JobRun → Bool)
      (found : Option JobRun) (runs : List JobRun)
      → find p runs ≡ found
      → HasUniqueIds runs
      → Stands id r runs
      → Keeps id r runs (requeue now queue job_id force found runs).1
  unfolding requeue
  requeue-Keeps now queue job_id force p none runs e unique stands = (unique, stands)
  requeue-Keeps now queue job_id force p (some row) runs e unique stands =
      let stays = is_left queue job_id row || (leb 3 row.attempt_count && not force) in
      elim (Bool-cases stays) [
        | inl left ↦ rw left (unique, stands)
        | inr goes ↦
            let out : same_status row.status completed ≡ false =
              not_left queue job_id row (ground arith) in
            let apart =
              another_row id r row p runs unique stands e (other_status id r done row out) in
            rw goes (enqueue-Keeps now queue job_id row.id runs apart unique stands)
      ]

  queue-Keeps :
      (format_date : ℕ → String) (now : ℕ) (fresh : String) (queue : Option Queue)
      (exchange : String) (date : ℕ) (targets : List String) (force : Bool) (runs : List JobRun)
      → HasUniqueIds runs
      → Stands id r runs
      → Keeps id r runs
          (queue_catch_up format_date now fresh queue exchange date targets force runs).1
  unfolding queue_catch_up
  queue-Keeps format_date now fresh queue exchange date targets force runs unique stands =
      let job_id = catch_up_job_id format_date exchange date in
      let new = catch_up_run now fresh exchange date targets in
      elim (Bool-cases (any (conflicts new) runs)) [
        | inl taken ↦ rw taken (
            requeue-Keeps now queue job_id force (has_key date exchange daily_candle_catch_up) _
              runs refl unique stands)
        | inr free ↦
            let kept = insert-Keeps id r done new runs unique stands in
            let none_conflicts = absent-found (conflicts new) (has_id id) runs free stands in
            let apart : has_id fresh r ≡ false = ground (arith, none_conflicts) in
            rw free (
              enqueue-Keeps now queue job_id fresh (insert_unless_conflict new runs) apart kept.0
                kept.1)
      ]

  targets-Keeps :
      (format_date : ℕ → String) (now : ℕ) (fresh : String) (queue : Option Queue)
      (exchange : String) (date : ℕ) (force : Bool) (targets : List String) (runs : List JobRun)
      → HasUniqueIds runs
      → Stands id r runs
      → Keeps id r runs
          (queue_targets format_date now fresh queue exchange date force targets runs).1
  targets-Keeps format_date now fresh queue exchange date force [] runs unique stands =
      (unique, stands)
  targets-Keeps format_date now fresh queue exchange date force (s ∷ ss) runs unique stands =
      queue-Keeps format_date now fresh queue exchange date (s ∷ ss) force runs unique stands

  catch_up-Keeps :
      (format_date : ℕ → String) (now : ℕ) (fresh : String) (queue : Option Queue)
      (exchange : String) (date : ℕ) (symbols : Option (List String)) (force : Bool) (db : MarketDb)
      → HasUniqueIds db.runs
      → Stands id r db.runs
      → Keeps id r db.runs
          (create_and_queue_catch_up format_date now fresh queue exchange date symbols force db).1
  unfolding create_and_queue_catch_up
  catch_up-Keeps format_date now fresh queue exchange date symbols force db unique stands =
      targets-Keeps format_date now fresh queue exchange date force
        (target_symbols_of exchange date symbols db) db.runs unique stands

  step-Keeps :
      (fmt : Formatter) (format_date : ℕ → String) {runs after : List JobRun}
      → Step fmt format_date runs after
      → HasUniqueIds runs
      → Stands id r runs
      → Keeps id r runs after
  step-Keeps fmt format_date (ensures fresh now at exchanges runs) unique stands =
      ensure-Keeps id r done fmt fresh now at exchanges runs unique stands
  step-Keeps fmt format_date (marks now exchanges runs) unique stands =
      mark-Keeps id r done now exchanges runs unique stands
  step-Keeps fmt format_date (reconciles now at runs) unique stands =
      reconcile-Keeps id r done now at runs unique stands
  step-Keeps fmt format_date (claims fresh now input runs) unique stands =
      claim-Keeps fmt fresh now input runs unique stands
  step-Keeps fmt format_date (catches_up now fresh queue exchange date symbols force db) unique
        stands =
      catch_up-Keeps format_date now fresh queue exchange date symbols force db unique stands
  step-Keeps fmt format_date (orphans now other reason runs) unique stands =
      orphan-Keeps now other reason runs unique stands

  steps-Keeps :
      (fmt : Formatter) (format_date : ℕ → String) {runs after : List JobRun}
      → Steps fmt format_date runs after
      → HasUniqueIds runs
      → Stands id r runs
      → Keeps id r runs after
  steps-Keeps fmt format_date (stop runs) unique stands = (unique, stands)
  steps-Keeps fmt format_date (step one rest) unique stands =
      let kept = step-Keeps fmt format_date one unique stands in
      steps-Keeps fmt format_date rest kept.0 kept.1

-- Where the ids of the runs are unique, they stay so, and a completed run stays as it is, whatever sequence of
-- requests follows: expected runs, marks, claims, catch-ups and failures of lost jobs.
pub completed_run-Keeps :
    (fmt : Formatter) (format_date : ℕ → String) (id : String) (r : JobRun)
    (runs after : List JobRun)
    → r.status ≡ completed
    → HasUniqueIds runs
    → find (has_id id) runs ≡ some r
    → Steps fmt format_date runs after
    → HasUniqueIds after × (find (has_id id) after ≡ some r)
completed_run-Keeps fmt format_date id r runs after done unique stands steps =
    steps-Keeps id r done fmt format_date steps unique stands
