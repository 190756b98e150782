-- ===== src/Tests/Jobs.antt =====
-- Runs of the ledger.
use stock_harvesting_backend.Prelude.{
  ℕ, String, List, [], ◌∷◌, none, some, true, find, map, filter, length, if◌then◌else◌, ◌≡◌, refl,
}
use stock_harvesting_backend.Calendar.Days.{Formatter}
use stock_harvesting_backend.Market.Universe.{
  InstrumentRow, global_datafeeds, active_universe_filter,
}
use stock_harvesting_backend.Jobs.Runs.{
  completed, pending, daily_candle_morning, daily_candle_catch_up, JobRun, new_run, has_id,
}
use stock_harvesting_backend.Jobs.Ledger.{
  ClaimInput, claim_market_data_ledger_run, reconcile_market_data_job_ledger,
}
use stock_harvesting_backend.Jobs.Catchup.{MarketDb}
use stock_harvesting_backend.Jobs.Finish.{finish_ledger_coverage}
use stock_harvesting_backend.Jobs.Marks.{is_late, as_missed, reconcile_market_data_job_ledger_lem}
use stock_harvesting_backend.Jobs.Identity.{HasUniqueIds}
use stock_harvesting_backend.Jobs.Steps.{Steps, step, stop, reconciles, claims, completed_run-Keeps}
use stock_harvesting_backend.Jobs.Claims.{IsClaimed, claim_market_data_ledger_run_lem}
use stock_harvesting_backend.Jobs.Gaps.{lacks_candle}
use stock_harvesting_backend.Jobs.Closing.{ShowsRun, ShowsMissing, finish_ledger_coverage-IsClosed}

abbrev utc : Formatter
utc zone at = record { date = 20420; weekday = 5; hour = 12; minute = 0 }

abbrev date_text : ℕ → String
date_text d = "2025-11-28"

abbrev fresh_id : String → ℕ → String
fresh_id job_type date = "fresh"

abbrev done_run : JobRun
done_run = record (new_run 5 "r1" daily_candle_catch_up completed) {
  trading_date = some 20420;
  exchange = some "BSE";
}

abbrev late_run : JobRun
late_run = record (new_run 5 "r2" daily_candle_morning pending) {
  trading_date = some 20421;
  exchange = some "BSE";
  scheduled_at = some 100;
}

abbrev runs : List JobRun
runs = done_run ∷ late_run ∷ []

abbrev claim_late : ClaimInput
claim_late = record {
  job_type = daily_candle_morning;
  exchange = "BSE";
  bullmq_job_id = some "job-7";
  ledger_run_id = some "r2";
  trading_date = none;
}

abbrev after_steps : List JobRun
after_steps =
    (reconcile_market_data_job_ledger 9 50000000
      (claim_market_data_ledger_run utc fresh_id 8 claim_late runs).1).1

claim_then_reconcile : Steps utc date_text runs after_steps
claim_then_reconcile = step (claims fresh_id 8 claim_late runs) (
    step (reconciles 9 50000000 (claim_market_data_ledger_run utc fresh_id 8 claim_late runs).1)
      (stop after_steps))

completed_run-Keeps_example :
    HasUniqueIds after_steps × (find (has_id "r1") after_steps ≡ some done_run)
completed_run-Keeps_example =
    completed_run-Keeps utc date_text "r1" done_run runs after_steps refl (refl, (refl, tt)) refl
      claim_then_reconcile

claim_market_data_ledger_run_lem_example :
    IsClaimed 8
      (some "job-7")
      runs
      late_run
      (claim_market_data_ledger_run utc fresh_id 8 claim_late runs)
      pending
claim_market_data_ledger_run_lem_example =
    claim_market_data_ledger_run_lem utc fresh_id 8 claim_late runs "r2" late_run refl
      (refl, (refl, tt)) refl

-- Two active instruments, of which one has its candle; the run notes the symbol "X".
abbrev instruments : List InstrumentRow
instruments =
    record {
      id = "i1";
      provider = global_datafeeds;
      exchange = "BSE";
      symbol = "TCS";
      active = true;
    }
    ∷ record {
      id = "i2";
      provider = global_datafeeds;
      exchange = "BSE";
      symbol = "INFY";
      active = true;
    }
    ∷ []

abbrev gap_db : MarketDb
gap_db = record {
  instruments = instruments;
  day_candles = ("i1", 20421) ∷ ("i2", 20420) ∷ [];
  checkpoints = [];
  runs = runs;
}

finish_ledger_coverage-IsClosed_example :
    ShowsRun "r2"
      (ShowsMissing (length (filter (lacks_candle "r2" ("X" ∷ []) "BSE" 20421 gap_db) instruments)))
      (finish_ledger_coverage 9 none "r2" "BSE" 20421 ("X" ∷ []) gap_db).1
finish_ledger_coverage-IsClosed_example =
    finish_ledger_coverage-IsClosed 9 none "r2" "BSE" 20421 ("X" ∷ []) gap_db late_run refl

one_gap : length (filter (lacks_candle "r2" ("X" ∷ []) "BSE" 20421 gap_db) instruments) ≡ 1
unfolding active_universe_filter
one_gap = refl

reconcile_market_data_job_ledger_lem_example :
    let r = reconcile_market_data_job_ledger 9 50000000 runs in
    (r.1 ≡ map (λ x. if is_late 50000000 x then as_missed 9 x else x) runs)
    × (r.0 ≡ length (filter (is_late 50000000) runs))
    × ((reconcile_market_data_job_ledger 10 50000000 r.1).0 ≡ 0)
reconcile_market_data_job_ledger_lem_example =
    reconcile_market_data_job_ledger_lem 9 10 50000000 runs

one_missed : (reconcile_market_data_job_ledger 9 50000000 runs).0 ≡ 1
unfolding reconcile_market_data_job_ledger
one_missed = refl
