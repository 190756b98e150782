-- ===== src/Market/Candles.antt =====
-- The stored candles of src/modules/market-data/market-data.candles.ts. Prices are whole numbers of the price step.
-- The transaction of `replaceCandlesAtomically` is left out: its body throws nothing of its own.
use stock_harvesting_backend.Prelude.{
  ℕ, zero, suc, String, List, [], ◌∷◌, Option, none, some, Bool, ◌&&◌, ◌==◌, leb, min, max, str_eq,
  any, filter, map, length, if◌then◌else◌,
}
use stock_harvesting_backend.Database.Tables.{delete_where}
use stock_harvesting_backend.Market.Checkpoints.{take, drop}

pub record Candle : Type 0 where
  pub time : ℕ
  pub open_price : ℕ
  pub high : ℕ
  pub low : ℕ
  pub close : ℕ
  pub volume : ℕ

pub record CandleKey : Type 0 where
  pub instrument_id : String
  pub timeframe : String
  pub time : ℕ

pub record CandleRow : Type 0 where
  pub instrument_id : String
  pub exchange : String
  pub symbol : String
  pub timeframe : String
  pub candle : Candle
  pub source : String

-- `candleUnique`; also the key of the map that drops duplicates, where no part of it holds a colon.
abbrev pub key_of : CandleRow → CandleKey
key_of row = record {
  instrument_id = row.instrument_id;
  timeframe = row.timeframe;
  time = row.candle.time;
}

abbrev pub key_eq : CandleKey → CandleKey → Bool
key_eq a b =
    str_eq a.instrument_id b.instrument_id && (str_eq a.timeframe b.timeframe && (a.time == b.time))

abbrev pub has_candle_key : CandleKey → CandleRow → Bool
has_candle_key key row = key_eq (key_of row) key

-- `candlesByKey.set(key, input)`
abbrev pub set_input : CandleRow → List CandleRow → List CandleRow
set_input input [] = input ∷ []
set_input input (i ∷ inputs) =
    if has_candle_key (key_of input) i then input ∷ inputs else i ∷ set_input input inputs

abbrev pub dedupe_from : List CandleRow → List CandleRow → List CandleRow
dedupe_from kept [] = kept
dedupe_from kept (input ∷ inputs) = dedupe_from (set_input input kept) inputs

unfoldable pub dedupe_candle_upsert_inputs : List CandleRow → List CandleRow
dedupe_candle_upsert_inputs inputs = dedupe_from [] inputs

-- `insert … on conflict do update`, one row.
abbrev pub upsert_row : CandleRow → List CandleRow → List CandleRow
upsert_row input [] = input ∷ []
upsert_row input (r ∷ rows) =
    if has_candle_key (key_of input) r
    then record r { candle = input.candle; source = input.source } ∷ rows
    else r ∷ upsert_row input rows

abbrev pub upsert_rows : List CandleRow → List CandleRow → List CandleRow
upsert_rows [] rows = rows
upsert_rows (input ∷ inputs) rows = upsert_rows inputs (upsert_row input rows)

abbrev pub candle_upsert_chunk_size : ℕ
candle_upsert_chunk_size = 500

-- The chunks that are left; the fuel bounds their number.
unfoldable pub upsert_chunks : ℕ → List CandleRow → List CandleRow → List CandleRow
upsert_chunks zero inputs rows = rows
upsert_chunks (suc fuel) inputs rows =
    let rest =
      upsert_chunks fuel (drop candle_upsert_chunk_size inputs)
        (upsert_rows (take candle_upsert_chunk_size inputs) rows) in
    elim inputs [ [] ↦ rows | i ∷ is ↦ rest ]

unfoldable pub upsert_candles : List CandleRow → List CandleRow → List CandleRow
unfolding dedupe_candle_upsert_inputs upsert_chunks
upsert_candles inputs rows =
    let deduped = dedupe_candle_upsert_inputs inputs in upsert_chunks (length deduped) deduped rows

abbrev pub day : String
day = "1D"

abbrev pub week : String
week = "1W"

abbrev pub month : String
month = "1M"

abbrev pub in_refresh : String → ℕ → ℕ → CandleKey → Bool
in_refresh instrument_id from to key =
    str_eq key.instrument_id instrument_id
    && (any (str_eq key.timeframe) (day ∷ week ∷ month ∷ [])
        && (leb from key.time && leb key.time to))

unfoldable pub delete_candles_for_refresh : String → ℕ → ℕ → List CandleRow → List CandleRow
delete_candles_for_refresh instrument_id from to rows =
    delete_where (λ r. in_refresh instrument_id from to (key_of r)) rows

pub record ReplaceInput : Type 0 where
  pub instrument_id : String
  pub exchange : String
  pub symbol : String
  pub from : ℕ
  pub to : ℕ
  pub daily : List Candle
  pub weekly : List Candle
  pub monthly : List Candle

abbrev pub row_of : ReplaceInput → String → String → Candle → CandleRow
row_of input timeframe source candle = record {
  instrument_id = input.instrument_id;
  exchange = input.exchange;
  symbol = input.symbol;
  timeframe = timeframe;
  candle = candle;
  source = source;
}

abbrev pub replace_with : ReplaceInput → List CandleRow → List CandleRow
replace_with input rows = upsert_candles (map (row_of input month "derived") input.monthly) (
    upsert_candles (map (row_of input week "derived") input.weekly) (
      upsert_candles (map (row_of input day "provider") input.daily)
        (delete_candles_for_refresh input.instrument_id input.from input.to rows)))

-- Nothing is deleted where there is no daily candle to write.
abbrev pub replace_unless_empty : List Candle → ReplaceInput → List CandleRow → List CandleRow
replace_unless_empty [] input rows = rows
replace_unless_empty (candle ∷ candles) input rows = replace_with input rows

unfoldable pub replace_candles_atomically : ReplaceInput → List CandleRow → List CandleRow
unfolding upsert_candles delete_candles_for_refresh
replace_candles_atomically input rows = replace_unless_empty input.daily input rows

abbrev pub is_of : String → String → CandleRow → Bool
is_of instrument_id timeframe r =
    str_eq r.instrument_id instrument_id && str_eq r.timeframe timeframe

pub record HistoryRange : Type 0 where
  pub from : ℕ
  pub to : ℕ

abbrev pub widen : ℕ → Option HistoryRange → Option HistoryRange
widen t none = some (record { from = t; to = t })
widen t (some range) = some (record { from = min t range.from; to = max t range.to })

-- `min(time)` and `max(time)` of the rows of an instrument.
unfoldable pub read_candle_history_range : String → String → List CandleRow → Option HistoryRange
read_candle_history_range instrument_id timeframe [] = none
read_candle_history_range instrument_id timeframe (r ∷ rows) =
    let rest = read_candle_history_range instrument_id timeframe rows in
    if is_of instrument_id timeframe r then widen r.candle.time rest else rest

abbrev pub is_in_range : String → String → ℕ → ℕ → CandleRow → Bool
is_in_range instrument_id timeframe from to r =
    is_of instrument_id timeframe r && (leb from r.candle.time && leb r.candle.time to)

-- A set of dates as the list of those of distinct rows.
unfoldable pub read_candle_dates_in_range : String → String → ℕ → ℕ → List CandleRow → List ℕ
read_candle_dates_in_range instrument_id timeframe from to rows =
    map (λ r. r.candle.time) (filter (is_in_range instrument_id timeframe from to) rows)
