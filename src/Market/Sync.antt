-- ===== src/Market/Sync.antt =====
-- The synchronization of an exchange, `syncDailyCandlesForActiveInstruments` of
-- src/modules/market-data/market-data.candle-sync.ts. Eight workers take the symbols; what they do to the summary is
-- a sequence of beginnings and of answers, in any order that they may come in.
use stock_harvesting_backend.Prelude.{
  ℕ, suc, ◌-◌, String, List, [], ◌∷◌, ◌++◌, Option, none, some, Bool, true, false, if◌then◌else◌,
  ◌≡◌,
}
use stock_harvesting_backend.Market.Summary.{
  SyncStatus, updated, repaired, already_current, bootstrap_required, provider_empty, failed,
  SyncSummary, empty_summary,
}

-- How the refresh of a symbol answers: a status with the dates that failed, the provider's limit, or another error.
pub data Outcome : Type 0 where
  returned : Option String → SyncStatus → List ℕ → Outcome
  rate_limited : Outcome
  threw : String → Outcome

pub record SyncState : Type 0 where
  pub summary : SyncSummary
  pub limit : Bool
  pub in_flight : ℕ

abbrev pub start_state : SyncState
start_state = record { summary = empty_summary; limit = false; in_flight = 0 }

abbrev pub add_failure : Option String → String → String → SyncSummary → SyncSummary
add_failure instrument_id symbol reason s = record s {
  failed_count = suc s.failed_count;
  failed_symbols = s.failed_symbols ++ symbol ∷ [];
  failed_details =
      s.failed_details
      ++ (record { instrument_id = instrument_id; symbol = symbol; reason = reason }) ∷ [];
}

-- The reason of a failed status; the text of the dates is an argument.
abbrev pub failure_reason : (List ℕ → String) → List ℕ → String
failure_reason gap [] = "sync failed"
failure_reason gap (d ∷ dates) = gap (d ∷ dates)

unfoldable pub count_status :
    (List ℕ → String) → String → Option String → SyncStatus → List ℕ → SyncSummary → SyncSummary
count_status gap symbol id updated dates s = record s { updated_count = suc s.updated_count }
count_status gap symbol id repaired dates s = record s { repaired_count = suc s.repaired_count }
count_status gap symbol id already_current dates s = record s {
  already_current_count = suc s.already_current_count;
}
count_status gap symbol id bootstrap_required dates s = record s {
  bootstrap_required_count = suc s.bootstrap_required_count;
}
count_status gap symbol id provider_empty dates s = record s {
  provider_empty_count = suc s.provider_empty_count;
  provider_empty_symbols = s.provider_empty_symbols ++ symbol ∷ [];
}
count_status gap symbol id failed dates s = add_failure id symbol (failure_reason gap dates) s

-- A worker takes a symbol, unless the limit was met.
unfoldable pub begin_symbol : SyncState → SyncState
begin_symbol state = if state.limit then state else record state {
  summary = record state.summary { processed = suc state.summary.processed };
  in_flight = suc state.in_flight;
}

-- What the answer for a symbol leaves of the summary and the limit.
unfoldable pub settle_symbol : (List ℕ → String) → String → Outcome → SyncState → SyncState
unfolding count_status
settle_symbol gap symbol (returned id status dates) state = record state {
  summary = count_status gap symbol id status dates state.summary;
}
settle_symbol gap symbol rate_limited state = record state {
  limit = true;
  summary = record state.summary { processed = state.summary.processed - 1 };
}
settle_symbol gap symbol (threw message) state = record state {
  summary = add_failure none symbol message state.summary;
}

-- Steps of the workers: an answer belongs to a symbol that is on its way.
pub data SyncStep (gap : List ℕ → String) : SyncState → SyncState → Type 0 where
  begins : (state : SyncState) → SyncStep gap state (begin_symbol state)
  settles :
      (symbol : String) (outcome : Outcome) (state : SyncState) (others : ℕ)
      → state.in_flight ≡ suc others
      → SyncStep gap state (settle_symbol gap symbol outcome (record state { in_flight = others }))

pub data SyncSteps (gap : List ℕ → String) : SyncState → SyncState → Type 0 where
  rest : (state : SyncState) → SyncSteps gap state state
  then_step : {s t u : SyncState} → SyncSteps gap s t → SyncStep gap t u → SyncSteps gap s u

-- The summary, or the limit's error.
abbrev pub sync_answer : SyncState → Option SyncSummary
sync_answer state = if state.limit then none else some state.summary
