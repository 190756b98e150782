-- ===== src/Market/NoHistory.antt =====
-- src/modules/market-data/market-data.no-history.ts: what the provider has confirmed to have no history.
use stock_harvesting_backend.Prelude.{
  ℕ, ◌-◌, ◌*◌, String, List, Option, none, some, Bool, true, ◌&&◌, leb, str_eq, find, filter, map,
}
use stock_harvesting_backend.Database.Tables.{delete_where}
use stock_harvesting_backend.Market.Checkpoints.{
  CheckpointRow, CheckpointInput, success, is_success, has_identity,
  upsert_candle_bootstrap_checkpoint,
}

abbrev pub no_history_checkpoint_kind : String
no_history_checkpoint_kind = "no-history-check"

abbrev pub no_history_recheck_interval_ms : ℕ
no_history_recheck_interval_ms = 7 * 24 * 60 * 60 * 1000

abbrev pub day_timeframe : String
day_timeframe = "1D"

unfoldable pub no_history_recheck_cutoff : ℕ → ℕ
no_history_recheck_cutoff now = now - no_history_recheck_interval_ms

unfoldable pub is_no_history_recheck_due : Option ℕ → ℕ → Bool
unfolding no_history_recheck_cutoff
is_no_history_recheck_due none now = true
is_no_history_recheck_due (some confirmed_at) now = leb confirmed_at (no_history_recheck_cutoff now)

abbrev pub is_mark : String → String → CheckpointRow → Bool
is_mark exchange symbol row =
    has_identity exchange symbol day_timeframe no_history_checkpoint_kind row

abbrev pub is_confirmed : String → String → CheckpointRow → Bool
is_confirmed exchange symbol row = is_mark exchange symbol row && is_success row.status

-- `row?.completedAt ?? null`
abbrev pub completed_at_of : Option CheckpointRow → Option ℕ
completed_at_of none = none
completed_at_of (some row) = row.completed_at

unfoldable pub read_no_history_confirmed_at : String → String → List CheckpointRow → Option ℕ
read_no_history_confirmed_at exchange symbol rows =
    completed_at_of (find (is_confirmed exchange symbol) rows)

abbrev pub no_history_input : String → String → ℕ → ℕ → CheckpointInput
no_history_input exchange symbol requested_from requested_to = record {
  exchange = exchange;
  symbol = symbol;
  timeframe = day_timeframe;
  kind = no_history_checkpoint_kind;
  bootstrap_version = 1;
  status = success;
  requested_from = requested_from;
  requested_to = some requested_to;
  candle_count = some 0;
  last_error = none;
}

unfoldable pub record_no_history_confirmed :
    ℕ → String → String → ℕ → ℕ → List CheckpointRow → List CheckpointRow
unfolding upsert_candle_bootstrap_checkpoint
record_no_history_confirmed now exchange symbol requested_from requested_to rows =
    upsert_candle_bootstrap_checkpoint now
      (no_history_input exchange symbol requested_from requested_to) rows

unfoldable pub clear_no_history : String → String → List CheckpointRow → List CheckpointRow
clear_no_history exchange symbol rows = delete_where (is_mark exchange symbol) rows

-- A confirmed mark of an exchange.
abbrev pub is_mark_of : String → CheckpointRow → Bool
is_mark_of exchange row =
    str_eq row.exchange exchange
    && (str_eq row.timeframe day_timeframe
        && (str_eq row.kind no_history_checkpoint_kind && is_success row.status))

unfoldable pub list_no_history_symbols : String → List CheckpointRow → List String
list_no_history_symbols exchange rows = map (λ row. row.symbol) (filter (is_mark_of exchange) rows)
