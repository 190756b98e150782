-- ===== src/Market/Kept.antt =====
-- A refresh that stores nothing changes no candle.
use stock_harvesting_backend.Prelude.{
  ℕ, String, List, [], ◌∷◌, Option, none, some, true, not, ◌&&◌, length, if◌then◌else◌, ◌==◌, ◌≡◌,
  ◌∙◌, ◌⊎◌, refl, subst, arith, Bool-cases, inl, inr,
}
use stock_harvesting_backend.Database.Transactions.{Result, ok, err}
use stock_harvesting_backend.Market.Candles.{
  Candle, CandleRow, upsert_candles, dedupe_candle_upsert_inputs, upsert_chunks,
  replace_candles_atomically,
}
use stock_harvesting_backend.Market.Summary.{provider_empty}
use stock_harvesting_backend.Market.Aggregation.{Bar, aggregate_bse_intraday_candles}
use stock_harvesting_backend.Market.Backfill.{
  Provider, BackfillInput, BackfillResult, Failures, unless_failed, Mode, by_repair, by_session,
  by_range, mode_of, to_list, repair_dates, is_empty, write_days, write_range, finish_session,
  finish_range, backfill_by, backfill_daily_candles, uses_global_datafeeds_minute_history,
}
use stock_harvesting_backend.Market.Refresh.{
  SyncDb, SyncResult, RefreshInput, RefreshDates, Work, Answer, without_candles, finish_empty,
  finish_stored, finish_marked, finish_refresh, remember_empty, clear_mark, work_of, is_known_empty,
  ask_provider, refresh_daily_candles, mark_instrument_candle_refresh,
}

-- How many candles a backfill received, and how many a refresh reports as stored.
abbrev received : Result String BackfillResult → ℕ
received (err e) = 0
received (ok result) = length result.daily_candles

abbrev pub stored : Result String SyncResult → ℕ
stored (err e) = 0
stored (ok result) = result.inserted_daily

module _ (get_week_key get_month_key : ℕ → String) (failures : Failures) where
  write_days-none :
      (id : String) (input : BackfillInput) (daily : List Candle) (rows : List CandleRow)
      → length daily ≡ 0
      → write_days get_week_key get_month_key failures id input daily rows ≡ rows
  unfolding upsert_candles dedupe_candle_upsert_inputs upsert_chunks
  write_days-none id input [] rows empty = refl
  write_days-none id input (c ∷ cs) rows empty = ground arith

  write_range-none :
      (id : String) (input : BackfillInput) (daily : List Candle) (rows : List CandleRow)
      → length daily ≡ 0
      → write_range get_week_key get_month_key failures id input daily rows ≡ rows
  unfolding replace_candles_atomically
  write_range-none id input [] rows empty = refl
  write_range-none id input (c ∷ cs) rows empty = ground arith

  -- A backfill that received nothing kept the candles, unless the statistics failed after them.
  abbrev IsKept : List CandleRow → Result String BackfillResult × List CandleRow → Type 0
  IsKept rows answer =
      (answer.1 ≡ rows) ⊎ ((e : String) × (answer.0 ≡ err e) × (failures.stats_error ≡ some e))

  unless_failed-IsKept :
      (error : Option String) (result : BackfillResult) (written rows : List CandleRow)
      → failures.stats_error ≡ error
      → (length result.daily_candles ≡ 0 → written ≡ rows)
      → received (unless_failed error result) ≡ 0
      → IsKept rows (unless_failed error result, written)
  unless_failed-IsKept none result written rows is kept empty = inl (kept empty)
  unless_failed-IsKept (some e) result written rows is kept empty = inr (e, refl, is)

  finish_session-none :
      (id : String) (input : BackfillInput) (bars : Result String (List Bar))
      (rows : List CandleRow)
      → received (finish_session get_week_key get_month_key failures id input bars rows).0 ≡ 0
      → IsKept rows (finish_session get_week_key get_month_key failures id input bars rows)
  finish_session-none id input (err e) rows empty = inl refl
  finish_session-none id input (ok bars) rows empty =
      unless_failed-IsKept failures.stats_error _ _ rows refl
        (write_days-none id input (to_list (aggregate_bse_intraday_candles bars input.from true))
          rows)
        empty

  finish_range-none :
      (id : String) (input : BackfillInput) (daily : Result String (List Candle))
      (rows : List CandleRow)
      → received (finish_range get_week_key get_month_key failures id input daily rows).0 ≡ 0
      → IsKept rows (finish_range get_week_key get_month_key failures id input daily rows)
  finish_range-none id input (err e) rows empty = inl refl
  finish_range-none id input (ok daily) rows empty =
      unless_failed-IsKept failures.stats_error _ _ rows refl (write_range-none id input daily rows)
        empty

  backfill_by-none :
      (mode : Mode) (adapter : Provider) (id : String) (input : BackfillInput)
      (rows : List CandleRow)
      → received (backfill_by get_week_key get_month_key failures mode adapter id input rows).0 ≡ 0
      → IsKept rows (backfill_by get_week_key get_month_key failures mode adapter id input rows)
  unfolding backfill_by
  backfill_by-none (by_repair dates fetch) adapter id input rows empty =
      unless_failed-IsKept failures.stats_error _ _ rows refl
        (write_days-none id input (repair_dates fetch dates).0 rows) empty
  backfill_by-none (by_session fetch) adapter id input rows empty =
      finish_session-none id input (fetch input.from) rows empty
  backfill_by-none by_range adapter id input rows empty =
      finish_range-none id input (adapter.fetch_daily input.from input.to) rows empty

  backfill-none :
      (adapter : Option Provider) (instrument : Option String) (input : BackfillInput)
      (rows : List CandleRow)
      → received
          (backfill_daily_candles get_week_key get_month_key failures adapter instrument input
            rows).0
        ≡ 0
      → IsKept rows
          (backfill_daily_candles get_week_key get_month_key failures adapter instrument input rows)
  unfolding backfill_daily_candles
  backfill-none none instrument input rows empty = inl refl
  backfill-none (some adapter) none input rows empty = inl refl
  backfill-none (some adapter) (some id) input rows empty =
      backfill_by-none
        (mode_of (uses_global_datafeeds_minute_history input.exchange) input.intraday_repair_dates
          adapter.fetch_intraday (input.from == input.to))
        adapter id input rows empty

  -- Nothing but the writing of the backfill touches the candles.
  remember_empty-candles :
      (now : ℕ) (input : RefreshInput) (work : Work) (result : BackfillResult) (db : SyncDb)
      → (remember_empty now input work result db).candles ≡ db.candles
  remember_empty-candles now input work result db =
      elim (Bool-cases
        (work.bootstrap && (result.provider_confirmed_empty && not result.used_intraday_repair))) [
          | inl on ↦ rw on refl
          | inr off ↦ rw off refl
        ]

  finish_empty-candles :
      (now : ℕ) (input : RefreshInput) (work : Work) (result : BackfillResult) (db : SyncDb)
      → (finish_empty now input work result db).1.candles ≡ db.candles
  finish_empty-candles now input work result db =
      elim (Bool-cases (not (is_empty result.provider_failed_dates))) [
        | inl lost ↦ rw lost refl
        | inr fine ↦ elim (Bool-cases result.intraday_repair_skipped) [
          | inl skipped ↦ rw fine (rw skipped refl)
          | inr asked ↦ rw fine (rw asked (remember_empty-candles now input work result db))
        ]
      ]

  clear_mark-candles :
      (input : RefreshInput) (work : Work) (db : SyncDb)
      → (clear_mark input work db).candles ≡ db.candles
  clear_mark-candles input work db = elim (Bool-cases work.bootstrap) [
    | inl on ↦ rw on refl
    | inr off ↦ rw off refl
  ]

  -- An answer of a refresh that reports no candle as stored: the candles are those before it, unless one of the
  -- statements after their write threw.
  abbrev pub LeavesCandles : List CandleRow → Answer → Type 0
  LeavesCandles rows answer =
      (answer.1.candles ≡ rows)
      ⊎ ((e : String) × (answer.0 ≡ err e)
          × ((failures.stats_error ≡ some e)
              ⊎ ((failures.mark_error ≡ some e) ⊎ (failures.read_error ≡ some e))))

  finish_stored-LeavesCandles :
      (read_error : Option String) (input : RefreshInput) (work : Work) (result : SyncResult)
      (rows : List CandleRow) (db : SyncDb)
      → failures.read_error ≡ read_error
      → (result.inserted_daily ≡ 0 → db.candles ≡ rows)
      → stored (unless_failed read_error result) ≡ 0
      → LeavesCandles rows (unless_failed read_error result, clear_mark input work db)
  finish_stored-LeavesCandles none input work result rows db is kept nothing =
      inl (clear_mark-candles input work db ∙ kept nothing)
  finish_stored-LeavesCandles (some e) input work result rows db is kept nothing =
      inr (e, refl, inr (inr is))

  finish_marked-LeavesCandles :
      (mark_error : Option String) (now : ℕ) (input : RefreshInput) (work : Work)
      (result : BackfillResult) (rows : List CandleRow) (db : SyncDb)
      → failures.mark_error ≡ mark_error
      → (length result.daily_candles ≡ 0 → db.candles ≡ rows)
      → stored (finish_marked failures mark_error now input work result db).0 ≡ 0
      → LeavesCandles rows (finish_marked failures mark_error now input work result db)
  finish_marked-LeavesCandles (some e) now input work result rows db is kept nothing =
      inr (e, refl, inr (inl is))
  finish_marked-LeavesCandles none now input work result rows db is kept nothing =
      let marked : SyncDb = record db {
        marks = mark_instrument_candle_refresh now work.instrument_id work.latest db.marks;
      } in
      let full_answer = finish_stored failures input work result marked in
      let empty_answer = finish_empty now input work result marked in
      elim (Bool-cases (is_empty result.daily_candles)) [
        | inl empty ↦ rw empty (
            inl (
              finish_empty-candles now input work result marked
              ∙ kept (empty-length result.daily_candles empty)))
        | inr full ↦
            let reported =
              subst (λ b. stored (if b then empty_answer else full_answer).0 ≡ 0) full nothing in
            rw full (
              finish_stored-LeavesCandles failures.read_error input work _ rows marked refl kept
                reported)
      ]
    where
      empty-length : (cs : List Candle) → is_empty cs ≡ true → length cs ≡ 0
      empty-length [] e = refl
      empty-length (c ∷ cs) e = ground arith

  finish_refresh-LeavesCandles :
      (now : ℕ) (input : RefreshInput) (work : Work) (db : SyncDb)
      (answer : Result String BackfillResult × List CandleRow)
      → (received answer.0 ≡ 0 → IsKept db.candles answer)
      → stored (finish_refresh failures now input work db answer).0 ≡ 0
      → LeavesCandles db.candles (finish_refresh failures now input work db answer)
  finish_refresh-LeavesCandles now input work db (err e, candles) kept nothing = elim (kept refl) [
    | inl same ↦ inl same
    | inr (x, is, failed_stats) ↦ inr (x, cc, inl failed_stats)
  ]
  finish_refresh-LeavesCandles now input work db (ok result, candles) kept nothing =
      finish_marked-LeavesCandles failures.mark_error now input work result db.candles
        (record db { candles = candles }) refl (λ empty. same (kept empty)) nothing
    where
      same : IsKept db.candles (ok result, candles) → candles ≡ db.candles
      same (inl e) = e
      same (inr (x, is, failed_stats)) = cc

-- A refresh that reports no candle as stored, because the provider failed, had nothing or was not asked, leaves every
-- stored candle as it was; a refresh that throws does so too, unless the error is that of one of the statements after
-- the write: the statistics of the instrument, the mark of the refresh, or the read of the stored dates.
pub refresh_daily_candles-none :
    (get_week_key get_month_key : ℕ → String) (failures : Failures) (dates : RefreshDates)
    (adapter : Option Provider) (instrument : Option String) (input : RefreshInput) (db : SyncDb)
    → stored
        (refresh_daily_candles get_week_key get_month_key failures dates adapter instrument input
          db).0
      ≡ 0
    → LeavesCandles get_week_key get_month_key failures db.candles (
        refresh_daily_candles get_week_key get_month_key failures dates adapter instrument input db)
unfolding refresh_daily_candles
refresh_daily_candles-none get_week_key get_month_key failures dates adapter none input db nothing =
    inl refl
refresh_daily_candles-none get_week_key get_month_key failures dates adapter (some id) input db
      nothing =
    let work = work_of dates id input db in
    elim (Bool-cases (is_known_empty dates.now input work db)) [
      | inl known ↦ rw known (inl refl)
      | inr asked ↦
          let known_empty : Answer = (ok (without_candles (some id) provider_empty []), db) in
          let answer =
            ask_provider get_week_key get_month_key failures dates.now adapter input work db in
          let reported =
            subst (λ b. stored (if b then known_empty else answer).0 ≡ 0) asked nothing in
          rw asked (
            finish_refresh-LeavesCandles get_week_key get_month_key failures dates.now input work db
              _
              (λ empty.
                backfill-none get_week_key get_month_key failures adapter (some id) _ db.candles
                  empty)
              reported)
    ]
