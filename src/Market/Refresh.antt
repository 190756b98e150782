-- ===== src/Market/Refresh.antt =====
-- The refresh of one symbol, `refreshDailyCandles` of src/modules/market-data/market-data.candle-sync.ts. The provider,
-- the instrument of the symbol, the dates that depend on the clock and the errors after the write are arguments.
use stock_harvesting_backend.Prelude.{
  ℕ, String, List, [], ◌∷◌, ◌++◌, Option, none, some, Bool, true, false, not, ◌&&◌, ◌==◌, leb, ltb,
  str_eq, any, map, filter, length, if◌then◌else◌,
}
use stock_harvesting_backend.Database.Tables.{update_where}
use stock_harvesting_backend.Database.Transactions.{Result, ok, err}
use stock_harvesting_backend.Market.Checkpoints.{CheckpointRow}
use stock_harvesting_backend.Market.NoHistory.{
  read_no_history_confirmed_at, is_no_history_recheck_due, record_no_history_confirmed,
  clear_no_history,
}
use stock_harvesting_backend.Market.Candles.{
  CandleRow, day, HistoryRange, read_candle_history_range, read_candle_dates_in_range,
}
use stock_harvesting_backend.Market.Plan.{
  SyncPlan, bootstrap_required, range, plan_daily_candle_sync, get_completed_weekdays_after,
}
use stock_harvesting_backend.Market.Summary.{
  SyncStatus, updated, repaired, already_current, provider_empty, failed,
}
use stock_harvesting_backend.Market.Backfill.{
  Provider, BackfillResult, Failures, unless_failed, is_empty, uses_global_datafeeds_minute_history,
  backfill_daily_candles,
}

-- When an instrument's candles were last asked for, and for which date.
pub record RefreshMark : Type 0 where
  pub instrument_id : String
  pub refreshed_at : Option ℕ
  pub target_date : Option ℕ

pub record SyncDb : Type 0 where
  pub candles : List CandleRow
  pub checkpoints : List CheckpointRow
  pub marks : List RefreshMark

pub record SyncResult : Type 0 where
  pub instrument_id : Option String
  pub status : SyncStatus
  pub inserted_daily : ℕ
  pub failed_dates : List ℕ

pub record RefreshInput : Type 0 where
  pub symbol : String
  pub exchange : String
  pub target_date : Option ℕ
  pub force_recheck : Bool

-- The dates of a refresh: today's expected one and the start of a full history.
pub record RefreshDates : Type 0 where
  pub now : ℕ
  pub expected : ℕ
  pub history_from : ℕ

abbrev pub Answer : Type 0
Answer = Result String SyncResult × SyncDb

abbrev pub without_candles : Option String → SyncStatus → List ℕ → SyncResult
without_candles instrument_id status failed_dates = record {
  instrument_id = instrument_id;
  status = status;
  inserted_daily = 0;
  failed_dates = failed_dates;
}

unfoldable pub mark_instrument_candle_refresh : ℕ → String → ℕ → List RefreshMark → List RefreshMark
mark_instrument_candle_refresh now instrument_id target marks =
    update_where (λ m. str_eq m.instrument_id instrument_id)
      (λ m. record m { refreshed_at = some now; target_date = some target }) marks

abbrev pub to_of : Option HistoryRange → Option ℕ
to_of none = none
to_of (some stored) = some stored.to

abbrev pub or_else : Option ℕ → ℕ → ℕ
or_else none d = d
or_else (some t) d = t

abbrev pub from_of : Option ℕ → SyncPlan → ℕ → ℕ
from_of (some target) plan history_from = target
from_of none bootstrap_required history_from = history_from
from_of none (range from to repair) history_from = from

abbrev pub end_of : Option ℕ → SyncPlan → ℕ → ℕ
end_of (some target) plan latest = target
end_of none bootstrap_required latest = latest
end_of none (range from to repair) latest = to

abbrev pub is_bootstrap : Option ℕ → SyncPlan → Bool
is_bootstrap (some target) plan = false
is_bootstrap none bootstrap_required = true
is_bootstrap none (range from to repair) = false

abbrev pub weekdays_after : Option ℕ → ℕ → Option (List ℕ)
weekdays_after none latest = none
weekdays_after (some stored) latest = some (get_completed_weekdays_after stored latest)

-- The days of a repair, where the exchange has minute history and no date is asked for.
abbrev pub repair_dates_of : Bool → Option ℕ → Bool → Option ℕ → ℕ → Option (List ℕ)
repair_dates_of false target bootstrap stored latest = none
repair_dates_of true (some target) bootstrap stored latest = none
repair_dates_of true none true stored latest = some (latest ∷ [])
repair_dates_of true none false stored latest = weekdays_after stored latest

abbrev pub is_in_dates : List ℕ → ℕ → Bool
is_in_dates dates d = any (λ x. x == d) dates

-- What a refresh has worked out before it asks the provider.
pub record Work : Type 0 where
  pub instrument_id : String
  pub bootstrap : Bool
  pub stored : Option ℕ
  pub latest : ℕ
  pub from : ℕ
  pub to : ℕ
  pub dates_before : List ℕ

abbrev pub work_of : RefreshDates → String → RefreshInput → SyncDb → Work
work_of dates instrument_id input db =
    let stored = to_of (read_candle_history_range instrument_id day db.candles) in
    let latest = or_else input.target_date dates.expected in
    let plan = plan_daily_candle_sync stored latest in
    let from = from_of input.target_date plan dates.history_from in
    let to = end_of input.target_date plan latest in
    record {
      instrument_id = instrument_id;
      bootstrap = is_bootstrap input.target_date plan;
      stored = stored;
      latest = latest;
      from = from;
      to = to;
      dates_before = read_candle_dates_in_range instrument_id day from to db.candles;
    }

-- A bootstrap that found nothing in a range is remembered.
abbrev pub remember_empty : ℕ → RefreshInput → Work → BackfillResult → SyncDb → SyncDb
remember_empty now input work result db =
    if work.bootstrap && (result.provider_confirmed_empty && not result.used_intraday_repair)
    then record db {
      checkpoints =
          record_no_history_confirmed now input.exchange input.symbol work.from work.to
            db.checkpoints;
    }
    else db

abbrev pub finish_empty : ℕ → RefreshInput → Work → BackfillResult → SyncDb → Answer
finish_empty now input work result db =
    if not (is_empty result.provider_failed_dates)
    then (ok (without_candles (some work.instrument_id) failed result.provider_failed_dates), db)
    else if result.intraday_repair_skipped
    then (ok (without_candles (some work.instrument_id) already_current []), db)
    else (
      ok (without_candles (some work.instrument_id) provider_empty []),
      remember_empty now input work result db,
    )

abbrev pub was_already_fresh : Option ℕ → ℕ → Bool
was_already_fresh none latest = false
was_already_fresh (some stored) latest = leb latest stored

abbrev pub status_of : Work → List ℕ → SyncStatus
status_of work dates_after =
    if ltb (length work.dates_before) (length dates_after)
    then if was_already_fresh work.stored work.latest then repaired else updated
    else already_current

abbrev pub clear_mark : RefreshInput → Work → SyncDb → SyncDb
clear_mark input work db =
    if work.bootstrap
    then record db { checkpoints = clear_no_history input.exchange input.symbol db.checkpoints }
    else db

-- The dates that failed at the provider, and those whose candle is not stored although it was received.
abbrev pub lost_dates : BackfillResult → List ℕ → List ℕ
lost_dates result dates_after =
    result.provider_failed_dates
    ++ filter (λ t. not (is_in_dates dates_after t)) (map (λ c. c.time) result.daily_candles)

abbrev pub finish_stored : Failures → RefreshInput → Work → BackfillResult → SyncDb → Answer
finish_stored failures input work result db =
    let cleared = clear_mark input work db in
    let dates_after =
      read_candle_dates_in_range work.instrument_id day work.from work.to cleared.candles in
    let failed_dates = lost_dates result dates_after in
    (
      unless_failed failures.read_error (record {
        instrument_id = some work.instrument_id;
        status = if is_empty failed_dates then status_of work dates_after else failed;
        inserted_daily = length result.daily_candles;
        failed_dates = failed_dates;
      }),
      cleared,
    )

-- What follows the mark of a refresh, which is not written where it throws.
abbrev pub finish_marked :
    Failures → Option String → ℕ → RefreshInput → Work → BackfillResult → SyncDb → Answer
finish_marked failures (some e) now input work result db = (err e, db)
finish_marked failures none now input work result db =
    let marked : SyncDb = record db {
      marks = mark_instrument_candle_refresh now work.instrument_id work.latest db.marks;
    } in
    if is_empty result.daily_candles
    then finish_empty now input work result marked
    else finish_stored failures input work result marked

abbrev pub finish_refresh :
    Failures
    → ℕ
    → RefreshInput
    → Work
    → SyncDb
    → Result String BackfillResult × List CandleRow
    → Answer
finish_refresh failures now input work db (err e, candles) =
    (err e, record db { candles = candles })
finish_refresh failures now input work db (ok result, candles) =
    finish_marked failures failures.mark_error now input work result
      (record db { candles = candles })

-- A bootstrap is left out while its last empty answer is fresh, unless it is forced.
abbrev pub is_known_empty : ℕ → RefreshInput → Work → SyncDb → Bool
is_known_empty now input work db =
    work.bootstrap
    && (not input.force_recheck
        && not (
            is_no_history_recheck_due
              (read_no_history_confirmed_at input.exchange input.symbol db.checkpoints) now))

module _ (get_week_key get_month_key : ℕ → String) (failures : Failures) where
  abbrev pub ask_provider : ℕ → Option Provider → RefreshInput → Work → SyncDb → Answer
  ask_provider now adapter input work db = finish_refresh failures now input work db (
      backfill_daily_candles get_week_key get_month_key failures adapter (some work.instrument_id)
        (record {
          symbol = input.symbol;
          exchange = input.exchange;
          from = work.from;
          to = work.to;
          intraday_repair_dates =
              repair_dates_of (uses_global_datafeeds_minute_history input.exchange)
                input.target_date work.bootstrap work.stored work.latest;
        })
        db.candles)

  unfoldable pub refresh_daily_candles :
      RefreshDates → Option Provider → Option String → RefreshInput → SyncDb → Answer
  unfolding backfill_daily_candles mark_instrument_candle_refresh
  refresh_daily_candles dates adapter none input db =
      (ok (without_candles none provider_empty []), db)
  refresh_daily_candles dates adapter (some instrument_id) input db =
      let work = work_of dates instrument_id input db in
      if is_known_empty dates.now input work db
      then (ok (without_candles (some instrument_id) provider_empty []), db)
      else ask_provider dates.now adapter input work db
