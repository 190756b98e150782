-- ===== src/Jobs/Runs.antt =====
-- The rows of src/db/schema/background-job-runs.ts, and the names of src/shared/constants they are built from.
-- Instants are milliseconds and dates days from the same origin.
use stock_harvesting_backend.Prelude.{
  ℕ, String, List, [], Option, none, some, Bool, true, false, ◌&&◌, ◌||◌, ◌==◌, str_eq, any,
  if◌then◌else◌,
}
use stock_harvesting_backend.Database.Tables.{insert_row}

pub data RunStatus : Type 0 where
  pending queued running completed partial failed missed : RunStatus

-- Two statuses are equal.
abbrev pub same_status : RunStatus → RunStatus → Bool
same_status pending pending = true
same_status queued queued = true
same_status running running = true
same_status completed completed = true
same_status partial partial = true
same_status failed failed = true
same_status missed missed = true
same_status s t = false

abbrev pub daily_candle_morning : String
daily_candle_morning = "daily_candle_morning"

abbrev pub daily_candle_post_market : String
daily_candle_post_market = "daily_candle_post_market"

abbrev pub daily_candle_catch_up : String
daily_candle_catch_up = "daily_candle_catch_up"

abbrev pub chart_ensure_fresh : String
chart_ensure_fresh = "chart_ensure_fresh"

-- The counts of a sync that a run reports.
pub record Counts : Type 0 where
  pub processed : ℕ
  pub updated : ℕ
  pub repaired : ℕ
  pub already_current : ℕ
  pub bootstrap_required : ℕ
  pub failed_count : ℕ

abbrev pub no_counts : Counts
no_counts = record {
  processed = 0;
  updated = 0;
  repaired = 0;
  already_current = 0;
  bootstrap_required = 0;
  failed_count = 0;
}

pub record JobRun : Type 0 where
  pub id : String
  pub job_type : String
  pub status : RunStatus
  pub trading_date : Option ℕ
  pub exchange : Option String
  pub scheduled_at : Option ℕ
  pub started_at : Option ℕ
  pub finished_at : Option ℕ
  pub attempt_count : ℕ
  pub bullmq_job_id : Option String
  pub total_expected : ℕ
  pub completed_count : ℕ
  pub missing_count : ℕ
  pub backtest_status : Option String
  pub backtest_through : Option ℕ
  pub counts : Counts
  pub error_summary : Option String
  pub coverage_exempt_symbols : List String
  pub updated_at : ℕ

-- The columns that an insert leaves out have their defaults.
abbrev pub new_run : ℕ → String → String → RunStatus → JobRun
new_run now id job_type status = record {
  id = id;
  job_type = job_type;
  status = status;
  trading_date = none;
  exchange = none;
  scheduled_at = none;
  started_at = none;
  finished_at = none;
  attempt_count = 0;
  bullmq_job_id = none;
  total_expected = 0;
  completed_count = 0;
  missing_count = 0;
  backtest_status = none;
  backtest_through = none;
  counts = no_counts;
  error_summary = none;
  coverage_exempt_symbols = [];
  updated_at = now;
}

abbrev pub has_id : String → JobRun → Bool
has_id id r = str_eq r.id id

-- `eq(column, value)` on a column that may be null.
abbrev pub is_date : ℕ → Option ℕ → Bool
is_date d none = false
is_date d (some e) = e == d

abbrev pub is_text : String → Option String → Bool
is_text t none = false
is_text t (some u) = str_eq u t

-- The row of a trading date, an exchange and a job type.
abbrev pub has_key : ℕ → String → String → JobRun → Bool
has_key date exchange job_type r =
    is_date date r.trading_date && (is_text exchange r.exchange && str_eq r.job_type job_type)

-- `expectedJobUnique`: rows with the same key, where null equals nothing.
abbrev pub same_key : Option ℕ → Option String → String → JobRun → Bool
same_key (some date) (some exchange) job_type r = has_key date exchange job_type r
same_key (some date) none job_type r = false
same_key none exchange job_type r = false

-- A row that a unique constraint sets against a new one: its id or its key.
abbrev pub conflicts : JobRun → JobRun → Bool
conflicts new r = has_id new.id r || same_key new.trading_date new.exchange new.job_type r

-- `insert … on conflict do nothing`
unfoldable pub insert_unless_conflict : JobRun → List JobRun → List JobRun
insert_unless_conflict new runs = if any (conflicts new) runs then runs else insert_row new runs
