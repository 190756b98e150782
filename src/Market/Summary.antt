-- ===== src/Market/Summary.antt =====
-- The summary of a daily synchronization in src/modules/market-data/market-data.candle-sync.ts.
use stock_harvesting_backend.Prelude.{ℕ, String, List, [], Option}

pub data SyncStatus : Type 0 where
  updated repaired already_current bootstrap_required provider_empty failed : SyncStatus

pub record FailureDetail : Type 0 where
  pub instrument_id : Option String
  pub symbol : String
  pub reason : String

pub record SyncSummary : Type 0 where
  pub processed : ℕ
  pub updated_count : ℕ
  pub repaired_count : ℕ
  pub already_current_count : ℕ
  pub bootstrap_required_count : ℕ
  pub provider_empty_count : ℕ
  pub provider_empty_symbols : List String
  pub failed_count : ℕ
  pub failed_symbols : List String
  pub failed_details : List FailureDetail

abbrev pub empty_summary : SyncSummary
empty_summary = record {
  processed = 0;
  updated_count = 0;
  repaired_count = 0;
  already_current_count = 0;
  bootstrap_required_count = 0;
  provider_empty_count = 0;
  provider_empty_symbols = [];
  failed_count = 0;
  failed_symbols = [];
  failed_details = [];
}
