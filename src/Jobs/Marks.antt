-- ===== src/Jobs/Marks.antt =====
-- Which expected runs the reconciliation marks as missed.
use stock_harvesting_backend.Prelude.{
  ℕ, suc, ◌+◌, ◌-◌, List, [], ◌∷◌, Option, none, some, Bool, true, false, ◌&&◌, ◌||◌, ltb, str_eq,
  filter, length, map, if◌then◌else◌, ◌≡◌, ap, refl, arith, Bool-cases, inl, inr,
}
use stock_harvesting_backend.Database.Tables.{update_where}
use stock_harvesting_backend.Jobs.Runs.{
  RunStatus, pending, queued, running, completed, partial, failed, missed, JobRun,
}
use stock_harvesting_backend.Jobs.Ledger.{
  is_unstarted, is_expected_job_missed, is_scheduled, is_overdue, is_before, missed_job_grace_ms,
  reconcile_market_data_job_ledger,
}

-- A status before the start of a run.
abbrev is_awaited : RunStatus → Bool
is_awaited pending = true
is_awaited queued = true
is_awaited running = false
is_awaited completed = false
is_awaited partial = false
is_awaited failed = false
is_awaited missed = false

-- Half a day, in milliseconds, has gone by since a time.
abbrev is_long_past : ℕ → Option ℕ → Bool
is_long_past at none = false
is_long_past at (some t) = ltb (t + 43200000) at

-- A run of one of the two schedules that has not begun half a day after its time.
abbrev pub is_late : ℕ → JobRun → Bool
is_late at r =
    is_long_past at r.scheduled_at
    && (str_eq r.job_type "daily_candle_morning" || str_eq r.job_type "daily_candle_post_market")
    && is_awaited r.status

abbrev pub as_missed : ℕ → JobRun → JobRun
as_missed now r = record r { status = missed; updated_at = now }

awaited : (status : RunStatus) → is_unstarted status ≡ is_awaited status
awaited pending = refl
awaited queued = refl
awaited running = refl
awaited completed = refl
awaited partial = refl
awaited failed = refl
awaited missed = refl

long_past : (at : ℕ) (t : Option ℕ) → is_before (at - missed_job_grace_ms) t ≡ is_long_past at t
long_past at none = refl
long_past at (some t) = ground arith

is_overdue_lem : (at : ℕ) (r : JobRun) → is_overdue at r ≡ is_late at r
is_overdue_lem at r =
    let status = awaited r.status in
    let time = long_past at r.scheduled_at in rw status (rw time (ground arith))

-- The reconciliation asks of a run of the schedules what `isExpectedJobMissed` asks.
pub is_overdue-is_expected_job_missed :
    (at t : ℕ) (r : JobRun)
    → r.scheduled_at ≡ some t
    → is_overdue at r ≡ (is_scheduled r && is_expected_job_missed r.status t at)
unfolding is_expected_job_missed
is_overdue-is_expected_job_missed at t r due = rw due (ground arith)

update_where-same :
    (p q : JobRun → Bool) (f : JobRun → JobRun) (runs : List JobRun)
    → ((r : JobRun) → p r ≡ q r)
    → (update_where p f runs ≡ map (λ r. if q r then f r else r) runs)
      × (length (filter p runs) ≡ length (filter q runs))
update_where-same p q f [] same = (refl, refl)
update_where-same p q f (r ∷ runs) same =
    let ih = update_where-same p q f runs same in
    elim (Bool-cases (q r)) [
      | inl on ↦ (rw (same r) (rw on (ap (λ rs. f r ∷ rs) ih.0)), rw (same r) (rw on (ap suc ih.1)))
      | inr off ↦ (rw (same r) (rw off (ap (λ rs. r ∷ rs) ih.0)), rw (same r) (rw off ih.1))
    ]

-- No row passes a test that its change takes it out of.
none_left :
    (p : JobRun → Bool) (f : JobRun → JobRun) (runs : List JobRun)
    → ((r : JobRun) → p (f r) ≡ false)
    → length (filter p (update_where p f runs)) ≡ 0
none_left p f [] out = refl
none_left p f (r ∷ runs) out =
    let ih = none_left p f runs out in
    elim (Bool-cases (p r)) [ inl on ↦ rw on (rw (out r) ih) | inr off ↦ rw off (rw off ih) ]

-- The reconciliation marks as missed exactly the runs of the two schedules that are pending or queued half a day after
-- their time, reports their number, leaves every other run as it is, and finds nothing to mark when it runs again at
-- the same time.
pub reconcile_market_data_job_ledger_lem :
    (now later at : ℕ) (runs : List JobRun)
    → let r = reconcile_market_data_job_ledger now at runs in
      (r.1 ≡ map (λ x. if is_late at x then as_missed now x else x) runs)
      × (r.0 ≡ length (filter (is_late at) runs))
      × ((reconcile_market_data_job_ledger later at r.1).0 ≡ 0)
unfolding reconcile_market_data_job_ledger
reconcile_market_data_job_ledger_lem now later at runs =
    let same =
      update_where-same (is_overdue at) (is_late at) (as_missed now) runs (is_overdue_lem at) in
    (same.0, same.1, none_left (is_overdue at) (as_missed now) runs (λ r. refl))
