-- ===== src/Jobs/Lifecycle.antt =====
-- What the requests on the ledger may do to a run that is finished.
use stock_harvesting_backend.Prelude.{
  ℕ, String, List, [], ◌∷◌, Option, none, some, some-injective, Bool, true, false, false≢true,
  str_eq, any, find, ◌≡◌, ◌≢◌, ◌∙◌, ap, sym, subst, refl, arith, Bool-cases, inl, inr,
}
use text.Mathlib.TextEquality.{eq_iff}
use stock_harvesting_backend.Calendar.Days.{Formatter}
use stock_harvesting_backend.Database.Tables.{update_where, find-update_where, find-insert_row}
use stock_harvesting_backend.Jobs.Runs.{
  RunStatus, queued, completed, missed, same_status, JobRun, has_id, conflicts,
  insert_unless_conflict,
}
use stock_harvesting_backend.Jobs.Ledger.{
  claim_row, insert_each, insert_dates, expected_dates, ensure_expected_market_data_jobs,
  expected_market_data_jobs_for_date, is_final, is_overdue, is_pending_of, set_status, start_run,
  mark_expected_market_data_jobs_queued, reconcile_market_data_job_ledger,
}
use stock_harvesting_backend.Jobs.Identity.{
  HasUniqueIds, found-All, update_where-HasUniqueIds, insert_unless_conflict-HasUniqueIds,
}

-- The run of an id is this one.
abbrev pub Stands : String → JobRun → List JobRun → Type 0
Stands id r runs = find (has_id id) runs ≡ some r

-- A change that the run is not among leaves it.
update-Stands :
    (id : String) (r : JobRun) (q : JobRun → Bool) (f : JobRun → JobRun) (runs : List JobRun)
    → ((x : JobRun) → (f x).id ≡ x.id)
    → q r ≡ false
    → Stands id r runs
    → Stands id r (update_where q f runs)
update-Stands id r q f runs same out stands =
    find-update_where (has_id id) q f runs (λ x. ap (λ i. str_eq i id) (same x)) stands
    ∙ rw out refl

insert-Stands :
    (id : String) (r new : JobRun) (runs : List JobRun)
    → Stands id r runs
    → Stands id r (insert_unless_conflict new runs)
unfolding insert_unless_conflict
insert-Stands id r new runs stands = elim (Bool-cases (any (conflicts new) runs)) [
  | inl taken ↦ rw taken stands
  | inr free ↦ rw free (find-insert_row (has_id id) runs new stands)
]

-- Where ids are unique, a row of another status is another row.
pub another_row :
    (id : String) (r row : JobRun) (p : JobRun → Bool) (runs : List JobRun)
    → HasUniqueIds runs
    → Stands id r runs
    → find p runs ≡ some row
    → row.status ≢ r.status
    → has_id row.id r ≡ false
another_row id r row p runs unique stands found other = elim (Bool-cases (has_id row.id r)) [
  | inr apart ↦ apart
  | inl same ↦
      let equal : r.id ≡ row.id = (eq_iff r.id row.id).0 same in
      let mine : find (has_id r.id) runs ≡ some r =
        found-All (λ x. find (has_id x.id) runs ≡ some x) (has_id id) runs unique stands in
      let its : find (has_id row.id) runs ≡ some row =
        found-All (λ x. find (has_id x.id) runs ≡ some x) p runs unique found in
      let one : row ≡ r =
        some-injective row r (sym its ∙ ap (λ i. find (has_id i) runs) (sym equal) ∙ mine) in
      elim (other (ap (λ x. x.status) one)) [ ]
]

-- Ids stay unique, and a completed run stays as it is.
abbrev pub Keeps : String → JobRun → List JobRun → List JobRun → Type 0
Keeps id r runs after = HasUniqueIds after × Stands id r after

module _ (id : String) (r : JobRun) (done : r.status ≡ completed) where
  pub change-Keeps :
      (q : JobRun → Bool) (f : JobRun → JobRun) (runs : List JobRun)
      → ((x : JobRun) → (f x).id ≡ x.id)
      → q r ≡ false
      → HasUniqueIds runs
      → Stands id r runs
      → Keeps id r runs (update_where q f runs)
  change-Keeps q f runs same out unique stands =
      (update_where-HasUniqueIds q f runs same unique, update-Stands id r q f runs same out stands)

  pub insert-Keeps :
      (new : JobRun) (runs : List JobRun)
      → HasUniqueIds runs
      → Stands id r runs
      → Keeps id r runs (insert_unless_conflict new runs)
  insert-Keeps new runs unique stands =
      (insert_unless_conflict-HasUniqueIds new runs unique, insert-Stands id r new runs stands)

  insert_each-Keeps :
      (news runs : List JobRun)
      → HasUniqueIds runs
      → Stands id r runs
      → Keeps id r runs (insert_each news runs)
  insert_each-Keeps [] runs unique stands = (unique, stands)
  insert_each-Keeps (new ∷ news) runs unique stands =
      let kept = insert-Keeps new runs unique stands in
      insert_each-Keeps news (insert_unless_conflict new runs) kept.0 kept.1

  insert_dates-Keeps :
      (expected : ℕ → List JobRun) (dates : List ℕ) (runs : List JobRun)
      → HasUniqueIds runs
      → Stands id r runs
      → Keeps id r runs (insert_dates expected dates runs)
  insert_dates-Keeps expected [] runs unique stands = (unique, stands)
  insert_dates-Keeps expected (date ∷ dates) runs unique stands =
      let kept = insert_each-Keeps (expected date) runs unique stands in
      insert_dates-Keeps expected dates (insert_each (expected date) runs) kept.0 kept.1

  pub ensure-Keeps :
      (fmt : Formatter) (fresh : String → String → ℕ → String) (now at : ℕ)
      (exchanges : List String) (runs : List JobRun)
      → HasUniqueIds runs
      → Stands id r runs
      → Keeps id r runs (ensure_expected_market_data_jobs fmt fresh now at exchanges runs)
  unfolding ensure_expected_market_data_jobs
  ensure-Keeps fmt fresh now at [] runs unique stands = (unique, stands)
  ensure-Keeps fmt fresh now at (exchange ∷ exchanges) runs unique stands =
      let expected = expected_market_data_jobs_for_date (fresh exchange) now exchange in
      let dates = expected_dates fmt exchange at in
      let kept = insert_dates-Keeps expected dates runs unique stands in
      ensure-Keeps fmt fresh now at exchanges (insert_dates expected dates runs) kept.0 kept.1

  not_open : (s : RunStatus) → r.status ≡ s → same_status s completed ≡ true
  not_open s e = subst (λ t. same_status t completed ≡ true) (sym done ∙ e) refl

  pub mark-Keeps :
      (now : ℕ) (exchanges : List String) (runs : List JobRun)
      → HasUniqueIds runs
      → Stands id r runs
      → Keeps id r runs (mark_expected_market_data_jobs_queued now exchanges runs)
  unfolding mark_expected_market_data_jobs_queued
  mark-Keeps now [] runs unique stands = (unique, stands)
  mark-Keeps now (e ∷ exchanges) runs unique stands =
      change-Keeps (is_pending_of (e ∷ exchanges)) (set_status now queued) runs (λ x. refl)
        (rw done refl) unique stands

  pub reconcile-Keeps :
      (now at : ℕ) (runs : List JobRun)
      → HasUniqueIds runs
      → Stands id r runs
      → Keeps id r runs (reconcile_market_data_job_ledger now at runs).1
  unfolding reconcile_market_data_job_ledger
  reconcile-Keeps now at runs unique stands =
      change-Keeps (is_overdue at) (set_status now missed) runs (λ x. refl) (rw done refl) unique
        stands

  pub other_status :
      (row : JobRun) → same_status row.status completed ≡ false → row.status ≢ r.status
  other_status row out e =
      false≢true (sym out ∙ subst (λ s. same_status s completed ≡ true) (sym (e ∙ done)) refl)

  pub claim_row-Keeps :
      (now : ℕ) (job_id : Option String) (p : JobRun → Bool) (found : Option JobRun)
      (runs : List JobRun)
      → find p runs ≡ found
      → HasUniqueIds runs
      → Stands id r runs
      → Keeps id r runs (claim_row now job_id found runs).1
  unfolding claim_row
  claim_row-Keeps now job_id p none runs e unique stands = (unique, stands)
  claim_row-Keeps now job_id p (some row) runs e unique stands =
      elim (Bool-cases (is_final row.status)) [
        | inl final ↦ rw final (unique, stands)
        | inr free ↦
            let out : same_status row.status completed ≡ false = ground arith in
            let apart = another_row id r row p runs unique stands e (other_status row out) in
            rw free (
              change-Keeps (has_id row.id) (start_run now job_id) runs (λ x. refl) apart unique
                stands)
      ]
