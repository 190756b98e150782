-- ===== src/Jobs/Closing.antt =====
-- How a run stands after its coverage is finished.
use stock_harvesting_backend.Prelude.{
  ℕ, String, List, [], ◌∷◌, Option, none, some, Bool, true, false, ◌==◌, str_eq, find, any, ◌+◌,
  length, filter, if◌then◌else◌, ◌≡◌, ◌∙◌, ap, refl, arith, Bool-cases, inl, inr,
}
use stock_harvesting_backend.Database.Tables.{update_where, find-update_where, find-holds}
use stock_harvesting_backend.Jobs.Runs.{completed, partial, JobRun, has_id}
use stock_harvesting_backend.Jobs.Coverage.{Coverage}
use stock_harvesting_backend.Jobs.Catchup.{MarketDb, get_historical_coverage}
use stock_harvesting_backend.Jobs.Gaps.{lacks_candle}
use stock_harvesting_backend.Jobs.Missing.{get_historical_coverage-missing}
use stock_harvesting_backend.Jobs.Finish.{
  note_exempt, set_exempt, close_run, backtest_done, backtest_failed, finish_backtest,
  mark_backtest, finish_ledger_coverage, is_current,
}

-- A change of the run with an id is found under it.
changed_run :
    (id : String) (f : JobRun → JobRun) (runs : List JobRun) (r : JobRun)
    → ((x : JobRun) → (f x).id ≡ x.id)
    → find (has_id id) runs ≡ some r
    → find (has_id id) (update_where (has_id id) f runs) ≡ some (f r)
changed_run id f runs r same found =
    find-update_where (has_id id) (has_id id) f runs (λ x. ap (λ i. str_eq i id) (same x)) found
    ∙ rw (find-holds (has_id id) runs found) refl

-- The run as it is closed for a coverage.
abbrev pub IsClosed : Coverage → JobRun → Type 0
IsClosed coverage r =
    (r.status ≡ (if coverage.missing == 0 then completed else partial))
    × (r.total_expected ≡ coverage.total_expected)
    × (r.completed_count ≡ coverage.completed)
    × (r.missing_count ≡ coverage.missing)

abbrev pub ShowsRun : String → (JobRun → Type 0) → List JobRun → Type 0
ShowsRun id P runs = (r : JobRun) × (find (has_id id) runs ≡ some r) × P r

noted_run :
    (now : ℕ) (id : String) (symbols : List String) (runs : List JobRun) (r : JobRun)
    → find (has_id id) runs ≡ some r
    → ShowsRun id (λ x. Unit {0}) (note_exempt now id symbols runs)
noted_run now id [] runs r found = (r, found, tt)
noted_run now id (s ∷ symbols) runs r found = (
  set_exempt now (s ∷ symbols) r,
  changed_run id (set_exempt now (s ∷ symbols)) runs r (λ x. refl) found,
  tt,
)

-- What the backtest is marked with leaves the run closed, and reaches the date if nothing fails.
marked_run :
    (now : ℕ) (id : String) (date : ℕ) (backtest : Option String) (coverage : Coverage)
    (runs : List JobRun) (r : JobRun)
    → IsClosed coverage r
    → find (has_id id) runs ≡ some r
    → ShowsRun id (IsClosed coverage) (mark_backtest now id date backtest runs)
marked_run now id date none coverage runs r closed found = (
  backtest_done now date r,
  changed_run id (backtest_done now date) runs r (λ x. refl) found,
  closed,
)
marked_run now id date (some e) coverage runs r closed found = (
  backtest_failed now e r,
  changed_run id (backtest_failed now e) runs r (λ x. refl) found,
  closed,
)

backtested_run :
    (now : ℕ) (id exchange : String) (date : ℕ) (backtest : Option String) (full : Bool)
    (coverage : Coverage) (runs : List JobRun) (r : JobRun)
    → IsClosed coverage r
    → find (has_id id) runs ≡ some r
    → ShowsRun id (IsClosed coverage) (finish_backtest now id exchange date backtest full runs)
backtested_run now id exchange date backtest false coverage runs r closed found = (r, found, closed)
backtested_run now id exchange date backtest true coverage runs r closed found =
    elim (Bool-cases (any (is_current exchange date) runs)) [
      | inl current ↦ rw current (
        backtest_done now date r,
        changed_run id (backtest_done now date) runs r (λ x. refl) found,
        closed,
      )
      | inr behind ↦ rw behind (marked_run now id date backtest coverage runs r closed found)
    ]

-- A run that is closed with a number of missing candles.
abbrev pub ShowsMissing : ℕ → JobRun → Type 0
ShowsMissing missing r =
    (r.status ≡ (if missing == 0 then completed else partial))
    × (r.missing_count ≡ missing)
    × (r.completed_count + r.missing_count ≡ r.total_expected)

-- Finishing the coverage of a run that is there closes it: it is completed exactly if every active instrument has its
-- candle of the date, or is exempted by a catch-up run of the date, with the noted symbols taken as this run's, or is
-- remembered to have no history; else it is partial, with the number of the others, and the counts add up. The backtest
-- that follows, whether it succeeds, fails or is current, changes none of this.
pub finish_ledger_coverage-IsClosed :
    (now : ℕ) (backtest : Option String) (id exchange : String) (date : ℕ) (exempt : List String)
    (db : MarketDb) (r : JobRun)
    → find (has_id id) db.runs ≡ some r
    → ShowsRun id
        (ShowsMissing (length (filter (lacks_candle id exempt exchange date db) db.instruments)))
        (finish_ledger_coverage now backtest id exchange date exempt db).1
unfolding finish_ledger_coverage
finish_ledger_coverage-IsClosed now backtest id exchange date exempt db r found =
    let noted = note_exempt now id exempt db.runs in
    let coverage = get_historical_coverage exchange date (record db { runs = noted }) in
    let (x, there, _) = noted_run now id exempt db.runs r found in
    let closed = update_where (has_id id) (close_run now coverage) noted in
    let (shown, found_run, (status, total, done, missing)) =
      backtested_run now id exchange date backtest (coverage.missing == 0) coverage closed
        (close_run now coverage x) (refl, refl, refl, refl)
        (changed_run id (close_run now coverage) noted x (λ y. refl) there) in
    let counted = get_historical_coverage-missing now id exchange date exempt db in
    (
      shown,
      found_run,
      (
        status ∙ ap (λ n. if n == 0 then completed else partial) counted.0,
        missing ∙ counted.0,
        omega (arith, total, done, missing, counted.1),
      ),
    )
