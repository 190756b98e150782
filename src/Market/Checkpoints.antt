-- ===== src/Market/Checkpoints.antt =====
-- src/modules/market-data/market-data.candle-bootstrap-checkpoints.ts and its table in src/db/schema/market-data.ts.
use stock_harvesting_backend.Prelude.{
  ℕ, suc, zero, String, List, [], ◌∷◌, Option, none, some, Bool, true, false, not, ◌&&◌, ◌==◌, ltb,
  str_eq, any, filter, length, if◌then◌else◌,
}
use stock_harvesting_backend.Database.Tables.{update_where, insert_row}

pub data BootstrapStatus : Type 0 where
  success partial failed : BootstrapStatus

abbrev pub is_success : BootstrapStatus → Bool
is_success success = true
is_success partial = false
is_success failed = false

pub record CheckpointRow : Type 0 where
  pub exchange : String
  pub symbol : String
  pub timeframe : String
  pub kind : String
  pub bootstrap_version : ℕ
  pub status : BootstrapStatus
  pub requested_from : ℕ
  pub requested_to : Option ℕ
  pub completed_at : Option ℕ
  pub candle_count : Option ℕ
  pub last_error : Option String
  pub updated_at : ℕ

pub record CheckpointInput : Type 0 where
  pub exchange : String
  pub symbol : String
  pub timeframe : String
  pub kind : String
  pub bootstrap_version : ℕ
  pub status : BootstrapStatus
  pub requested_from : ℕ
  pub requested_to : Option ℕ
  pub candle_count : Option ℕ
  pub last_error : Option String

-- `identityUnique`
abbrev pub has_identity : String → String → String → String → CheckpointRow → Bool
has_identity exchange symbol timeframe kind row =
    str_eq row.exchange exchange
    && (str_eq row.symbol symbol && (str_eq row.timeframe timeframe && str_eq row.kind kind))

abbrev pub identifies : CheckpointInput → CheckpointRow → Bool
identifies input row = has_identity input.exchange input.symbol input.timeframe input.kind row

abbrev pub checkpoint_row : ℕ → CheckpointInput → CheckpointRow
checkpoint_row now input = record {
  exchange = input.exchange;
  symbol = input.symbol;
  timeframe = input.timeframe;
  kind = input.kind;
  bootstrap_version = input.bootstrap_version;
  status = input.status;
  requested_from = input.requested_from;
  requested_to = input.requested_to;
  completed_at = some now;
  candle_count = input.candle_count;
  last_error = input.last_error;
  updated_at = now;
}

-- The `set` of `onConflictDoUpdate`.
abbrev pub overwrite : ℕ → CheckpointInput → CheckpointRow → CheckpointRow
overwrite now input row = record row {
  bootstrap_version = input.bootstrap_version;
  status = input.status;
  requested_from = input.requested_from;
  requested_to = input.requested_to;
  completed_at = some now;
  candle_count = input.candle_count;
  last_error = input.last_error;
  updated_at = now;
}

unfoldable pub upsert_candle_bootstrap_checkpoint :
    ℕ → CheckpointInput → List CheckpointRow → List CheckpointRow
upsert_candle_bootstrap_checkpoint now input rows =
    if any (identifies input) rows
    then update_where (identifies input) (overwrite now input) rows
    else insert_row (checkpoint_row now input) rows

pub record Requirement : Type 0 where
  pub bootstrap_version : ℕ
  pub requested_from : ℕ

unfoldable pub is_candle_bootstrap_checkpoint_satisfied : Option CheckpointRow → Requirement → Bool
is_candle_bootstrap_checkpoint_satisfied none requirement = false
is_candle_bootstrap_checkpoint_satisfied (some checkpoint) requirement =
    if not (is_success checkpoint.status)
    then false
    else if not (checkpoint.bootstrap_version == requirement.bootstrap_version)
    then false
    else if ltb requirement.requested_from checkpoint.requested_from
    then false
    else true

abbrev pub checkpoint_read_batch_size : ℕ
checkpoint_read_batch_size = 500

abbrev pub take : {A : Type 0} → ℕ → List A → List A
take zero xs = []
take (suc n) [] = []
take (suc n) (x ∷ xs) = x ∷ take n xs

abbrev pub drop : {A : Type 0} → ℕ → List A → List A
drop zero xs = xs
drop (suc n) [] = []
drop (suc n) (x ∷ xs) = drop n xs

-- `checkpointsBySymbol.set(row.symbol, row)`: the row replaces one of the same symbol in its place.
abbrev pub set_checkpoint : CheckpointRow → List CheckpointRow → List CheckpointRow
set_checkpoint row [] = row ∷ []
set_checkpoint row (r ∷ rows) =
    if str_eq r.symbol row.symbol then row ∷ rows else r ∷ set_checkpoint row rows

abbrev pub set_each : List CheckpointRow → List CheckpointRow → List CheckpointRow
set_each [] by_symbol = by_symbol
set_each (row ∷ rows) by_symbol = set_each rows (set_checkpoint row by_symbol)

-- The rows of a batch's query.
abbrev pub select_batch : String → String → String → List String → CheckpointRow → Bool
select_batch exchange timeframe kind batch row =
    str_eq row.exchange exchange
    && (any (str_eq row.symbol) batch && (str_eq row.timeframe timeframe && str_eq row.kind kind))

-- The batches that are left, from the position `start` on; the fuel bounds their number.
unfoldable pub read_batches :
    ℕ
    → (CheckpointRow → List String → Bool)
    → List CheckpointRow
    → List String
    → List CheckpointRow
    → List CheckpointRow
read_batches zero selects table symbols by_symbol = by_symbol
read_batches (suc fuel) selects table symbols by_symbol =
    let batch = take checkpoint_read_batch_size symbols in
    let rest =
      read_batches fuel selects table (drop checkpoint_read_batch_size symbols)
        (set_each (filter (λ row. selects row batch) table) by_symbol) in
    elim symbols [ [] ↦ by_symbol | s ∷ ss ↦ rest ]

unfoldable pub read_candle_bootstrap_checkpoints_in_batches :
    String → List String → String → String → List CheckpointRow → List CheckpointRow
unfolding read_batches
read_candle_bootstrap_checkpoints_in_batches exchange symbols timeframe kind table =
    read_batches (length symbols) (λ row batch. select_batch exchange timeframe kind batch row)
      table symbols []
