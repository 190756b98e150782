-- ===== src/Jobs/Watchdog.antt =====
-- src/modules/jobs/daily-candle-schedule-watchdog.ts, job-runtime-limits.ts and provider-cooldown.service.ts.
use stock_harvesting_backend.Prelude.{
  ℕ, ◌+◌, ◌-◌, ◌*◌, String, List, [], ◌∷◌, Option, none, some, Bool, false, not, ◌&&◌, ◌||◌, leb,
  ltb, str_eq, find, if◌then◌else◌,
}
use stock_harvesting_backend.Calendar.Days.{
  Formatter, get_exchange_today_if_trading_day, get_latest_expected_trading_day,
}
use stock_harvesting_backend.Jobs.Runs.{JobRun, daily_candle_morning, has_key}
use stock_harvesting_backend.Jobs.Ledger.{awaits, expected_schedules, scheduled_at_for_india_date}
use stock_harvesting_backend.Jobs.Catchup.{Queue, has_live_catch_up_job}

abbrev pub start_grace_ms : ℕ
start_grace_ms = 15 * 60000

abbrev pub morning_recovery_window_ms : ℕ
morning_recovery_window_ms = 4 * 60 * 60000

abbrev pub post_market_recovery_window_ms : ℕ
post_market_recovery_window_ms = 6 * 60 * 60000

abbrev pub recovery_window : String → ℕ
recovery_window job_type =
    if str_eq job_type daily_candle_morning
    then morning_recovery_window_ms
    else post_market_recovery_window_ms

-- Before the schedule the elapsed time is negative, so that no recovery is due.
unfoldable pub is_daily_schedule_recovery_due : String → ℕ → ℕ → Bool
is_daily_schedule_recovery_due job_type scheduled_at at =
    leb (scheduled_at + start_grace_ms) at && ltb at (scheduled_at + recovery_window job_type)

-- The texts of the identifiers, which an exchange, a job type and an instant or a date determine.
pub record JobIds : Type 0 where
  pub scheduled : String → String → ℕ → String
  pub recovery : String → String → ℕ → String

-- A job that the watchdog adds.
pub record RecoveryJob : Type 0 where
  pub exchange : String
  pub job_type : String
  pub trading_date : ℕ
  pub coverage_trading_date : ℕ
  pub job_id : String

abbrev pub is_started : Option JobRun → Bool
is_started none = false
is_started (some run) = not (awaits run.status)

abbrev pub is_run_live : Queue → Option JobRun → Bool
is_run_live queue none = false
is_run_live queue (some run) = elim run.bullmq_job_id [
  | none ↦ false
  | some id ↦ has_live_catch_up_job queue id
]

module _ (fmt : Formatter) (ids : JobIds) (queue : Queue) (at : ℕ) (exchange : String) where
  -- A schedule is left alone where it is not due, where its run has started and where one of its jobs is live.
  abbrev pub needs_recovery : ℕ → String × ℕ → List JobRun → Bool
  needs_recovery trading_date (job_type, time) runs =
      let scheduled_at = scheduled_at_for_india_date trading_date time in
      let run = find (has_key trading_date exchange job_type) runs in
      is_daily_schedule_recovery_due job_type scheduled_at at
      && (not (is_started run)
          && not (
              has_live_catch_up_job queue (ids.scheduled exchange job_type scheduled_at)
              || (has_live_catch_up_job queue (ids.recovery exchange job_type trading_date)
                  || is_run_live queue run)))

  abbrev pub coverage_date : ℕ → String × ℕ → ℕ
  coverage_date trading_date (job_type, time) =
      if str_eq job_type daily_candle_morning
      then get_latest_expected_trading_day fmt exchange
          (scheduled_at_for_india_date trading_date time)
      else trading_date

  abbrev pub recovery_job : ℕ → String × ℕ → RecoveryJob
  recovery_job trading_date schedule = record {
    exchange = exchange;
    job_type = schedule.0;
    trading_date = trading_date;
    coverage_trading_date = coverage_date trading_date schedule;
    job_id = ids.recovery exchange schedule.0 trading_date;
  }

  -- The jobs that are added for a list of schedules.
  abbrev pub recover_schedules : ℕ → List (String × ℕ) → List JobRun → List RecoveryJob
  recover_schedules trading_date [] runs = []
  recover_schedules trading_date (schedule ∷ schedules) runs =
      if needs_recovery trading_date schedule runs
      then recovery_job trading_date schedule ∷ recover_schedules trading_date schedules runs
      else recover_schedules trading_date schedules runs

  unfoldable pub recover_due_daily_candle_schedules : List JobRun → List RecoveryJob
  unfolding is_daily_schedule_recovery_due scheduled_at_for_india_date has_live_catch_up_job
  recover_due_daily_candle_schedules runs =
      elim (get_exchange_today_if_trading_day fmt exchange at) [
        | none ↦ []
        | some trading_date ↦ recover_schedules trading_date expected_schedules runs
      ]

pub record ProviderCooldown : Type 0 where
  pub active : Bool
  pub until : Option ℕ
  pub remaining_ms : ℕ

abbrev pub no_cooldown : ProviderCooldown
no_cooldown = record { active = false; until = none; remaining_ms = 0 }

abbrev pub blocked_until_of : Option ℕ → ℕ
blocked_until_of none = 0
blocked_until_of (some t) = t

-- What the store of the limit answers: no client or an error, or the time that is kept, if one is.
pub data CooldownRead : Type 0 where
  unreadable : CooldownRead
  kept : Option ℕ → CooldownRead

unfoldable pub get_global_datafeeds_cooldown : ℕ → CooldownRead → ProviderCooldown
get_global_datafeeds_cooldown now unreadable = no_cooldown
get_global_datafeeds_cooldown now (kept raw) =
    let remaining = blocked_until_of raw - now in
    record {
      active = ltb 0 remaining;
      until = if ltb 0 remaining then some (blocked_until_of raw) else none;
      remaining_ms = remaining;
    }
