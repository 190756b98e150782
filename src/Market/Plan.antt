-- ===== src/Market/Plan.antt =====
-- src/modules/market-data/market-data.candle-sync-plan.ts, the loop over completed weekdays and the rule on repeated
-- refreshes in market-data.candle-sync.ts. Dates are day numbers.
use stock_harvesting_backend.Prelude.{
  ℕ, zero, suc, ◌-◌, ◌*◌, String, List, [], ◌∷◌, Option, none, some, Bool, true, false, not, ◌&&◌,
  ◌==◌, leb, ltb, filter, if◌then◌else◌, ◌≡◌, refl, min, arith, Bool-cases, inl, inr,
}
use stock_harvesting_backend.Calendar.Weeks.{get_utc_day}
use stock_harvesting_backend.Calendar.Days.{is_weekend}

abbrev pub incremental_overlap_trading_days : ℕ
incremental_overlap_trading_days = 5

abbrev pub recent_repair_window_calendar_days : ℕ
recent_repair_window_calendar_days = 35

pub data SyncPlan : Type 0 where
  bootstrap_required : SyncPlan
  range : ℕ → ℕ → Bool → SyncPlan

unfoldable pub plan_daily_candle_sync : Option ℕ → ℕ → SyncPlan
plan_daily_candle_sync none to = bootstrap_required
plan_daily_candle_sync (some latest_stored_date) to =
    let incremental_from = latest_stored_date - incremental_overlap_trading_days in
    let repair_from = to - recent_repair_window_calendar_days in
    let final_from = if ltb incremental_from repair_from then incremental_from else repair_from in
    range final_from to ((final_from == repair_from) && ltb repair_from incremental_from)

-- The dates from one on that are weekdays, up to a last one; the fuel bounds their number.
unfoldable pub weekdays_from : ℕ → ℕ → ℕ → List ℕ
weekdays_from zero date last = []
weekdays_from (suc fuel) date last =
    let rest = weekdays_from fuel (suc date) last in
    if leb date last then if is_weekend (get_utc_day date) then rest else date ∷ rest else []

unfoldable pub get_completed_weekdays_after : ℕ → ℕ → List ℕ
unfolding weekdays_from
get_completed_weekdays_after from_exclusive to_inclusive =
    weekdays_from (to_inclusive - from_exclusive) (suc from_exclusive) to_inclusive

pub record RefreshRow : Type 0 where
  pub symbol : String
  pub last_candle_refresh_at : Option ℕ
  pub last_candle_refresh_target_date : Option ℕ

abbrev pub recent_candle_refresh_cooldown_ms : ℕ
recent_candle_refresh_cooldown_ms = 15 * 60000

abbrev pub is_recent : Option ℕ → Option ℕ → ℕ → ℕ → Bool
is_recent none at target_date now = false
is_recent (some d) none target_date now = false
is_recent (some d) (some at) target_date now =
    (d == target_date) && leb (now - recent_candle_refresh_cooldown_ms) at

unfoldable pub exclude_recently_refreshed_instruments : List RefreshRow → ℕ → ℕ → List RefreshRow
exclude_recently_refreshed_instruments rows target_date now =
    filter
      (λ r.
        not (is_recent r.last_candle_refresh_target_date r.last_candle_refresh_at target_date now))
      rows

-- The planned range ends at the expected date and starts at the earlier of five days before the last stored one and 35
-- days before its end; it is called a repair exactly if the window of 35 days is the wider one.
pub plan_daily_candle_sync_lem :
    (latest to : ℕ)
    → plan_daily_candle_sync (some latest) to
      ≡ range (min (latest - 5) (to - 35)) to (ltb (to - 35) (latest - 5))
unfolding plan_daily_candle_sync
plan_daily_candle_sync_lem latest to = elim (Bool-cases (ltb (latest - 5) (to - 35))) [
  | inl earlier ↦
      let least : min (latest - 5) (to - 35) ≡ latest - 5 = ground arith in
      let out : ltb (to - 35) (latest - 5) ≡ false = ground arith in
      rw (least, out, earlier) (ground arith)
  | inr later ↦
      let least : min (latest - 5) (to - 35) ≡ to - 35 = ground arith in
      let same : ((to - 35) == (to - 35)) ≡ true = ground arith in
      rw least (rw later (rw same refl))
]
