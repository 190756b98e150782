-- ===== src/Jobs.antt =====
-- src/modules/jobs: the ledger of market-data runs, the runs of the workers and the watchdog of the schedule.
pub mod Runs
pub mod Coverage
pub mod Ledger
pub mod Catchup
pub mod Finish
pub mod Service
pub mod Marks
pub mod Identity
pub mod Lifecycle
pub mod Steps
pub mod Claims
pub mod Gaps
pub mod Missing
pub mod Closing
pub mod Watchdog
