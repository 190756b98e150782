-- ===== src/Lib.antt =====
-- A verification library of the stock harvesting backend.
--
-- The backend serves a stock screener: it keeps candles of instruments, decides from them which symbols
-- are weekly strong or near their long-term high, streams live prices, evaluates price alerts, and keeps
-- accounts, watchlists and collections in a database. Each part below is a function of its inputs and of
-- the rows that it reads; a service returns its answer with the rows that it leaves.
--
-- Parts and files:
-- - Calendar: src/modules/market-data/trading-calendar.ts. Weeks is the arithmetic of weeks, Days the
--   trading days (getLatestExpectedTradingDay is get_latest_expected_trading_day, and so on), Latest what
--   they mean.
-- - Evaluator: src/modules/market-data/weekly-strong-evaluator.ts. RollingMax is rollingMax with its deque,
--   NearHigh passesNearHigh and the latest decision, Series the series and the streak; Scan, Deque, Cursor,
--   Windows, Agreement and Streak hold the proofs. It asks Calendar whether a week is complete.
-- - Scanner: src/modules/scanner. Rule, Lookback, Safety, Signal and Trades model rules/*.ts,
--   scanner.constants.ts, scanner-current-signal.ts and scanner.backtest.ts, Candles scanner.candles.ts and the live
--   result of scanner.service.ts; Points, Verdict, Segments, Runs and Closes hold the proofs. It uses the evaluator's
--   sliding maximum and derives its weeks by Market's aggregation.
-- - Database: what the services use of drizzle: Tables the statements on lists of rows, Transactions the
--   transaction as a parameter that keeps a body's writes if it returns and undoes them if it throws.
-- - Auth: src/modules/auth. Store is the rows of src/db/schema, Registration registration.service.ts,
--   Session session.service.ts and password-auth.service.ts, Reset password-reset.service.ts; Codes,
--   Rotation and Recovery hold the proofs.
-- - Provider: src/modules/data-provider/adapters/global-datafeeds. Gate is GdfCallGate of
--   global-datafeeds.rate-limit.ts, Lease the lease of GdfSessionBroker in
--   global-datafeeds.session-broker.ts; Cooldown, Quota and Exclusion hold the proofs.
-- - Market: src/modules/market-data and src/modules/data-provider. Universe is market-data.universe.ts with
--   data-provider.registry.ts and resolveEligibleProviders; Checkpoints market-data.candle-bootstrap-checkpoints.ts;
--   NoHistory market-data.no-history.ts; Candles the writes of market-data.candles.ts; Aggregation
--   candle-aggregation.ts and intraday-aggregation.ts; Plan candle-sync-plan.ts; Backfill, Refresh, Summary and
--   Sync market-data.candle-sync.ts (backfillDailyCandles, refreshDailyCandles, the sync of an exchange as steps
--   of its workers). Batches, Marks, Store, Replacement, Totals, Weekdays, Kept and Tally hold the proofs. A
--   backfill writes through Candles, a refresh plans by Plan and marks by NoHistory.
-- - Jobs: src/modules/jobs. Runs is the rows of background_job_runs; Coverage, Ledger, Catchup and Finish are
--   market-data-job-ledger.ts; Service background-job-runs.service.ts; Watchdog
--   daily-candle-schedule-watchdog.ts and provider-cooldown.service.ts. Identity, Lifecycle, Steps, Claims,
--   Gaps, Missing, Closing and Marks hold the proofs. The coverage asks which candles of a day Market has.
-- - Alerts: src/modules/price-alerts/price-alerts.service.ts, in Service; Evaluation and Ownership hold the
--   proofs.
-- - Collections: src/modules/market-collections. Versions is market-collection-versions.service.ts, Parse and
--   Import the CSV files, their classification and import in market-collections.service.ts; Applicable,
--   Statuses, Symbols, Members, Classify and Membership hold the proofs. Columns that are only shown, such as
--   the time of the last import, are left out.
-- - Stream: src/modules/market-stream. Candles is market-stream-candles.ts, Hub market-stream.hub.ts, Health
--   market-stream.provider-health.ts and market-stream.capabilities.ts; Updates, Subscriptions
--   and Delivery hold the proofs.
-- - Watchlists: src/modules/watchlists/watchlists.service.ts, in Service; Guards and Duplicates hold the
--   proofs.
-- - Tests: concrete inputs. Prelude: the names that the files share.
--
-- Representation. A date is its day number, counted from a Saturday, day 0; the source compares ISO texts,
-- whose order is that of the numbers. Prices are whole numbers of their smallest unit, and the ratio 0.85
-- is 85 to 100, compared without rounding. Times are milliseconds. Subtraction is used where the source's
-- difference is not negative; where a date could lie before day 0 the theorems ask for a later one.
-- Parameters: Intl.DateTimeFormat (its weekday belongs to its date), the hashes of src/modules/security,
-- trimming, splitting and changing the case of texts, the start of a month, the keys of weeks and months,
-- transactions, the key of Redis, the queue's answers, the providers' answers, the outcome of a backtest's
-- refresh, the errors of the statements that follow a backfill's write, the clock, and the identifiers
-- and random values that are drawn.
--
-- Loops are structural, or run on fuel: seven rounds for a weekend that is skipped, as every week has a
-- weekday; the number of daily candles for the cursor that runs over them; the number of symbols or rows for
-- batches and chunks, each of which takes at least one; and the days between two dates for the weekdays
-- in between.
--
-- Not modelled: HTTP routes, mails, sockets, the queue and its worker; Google sign-in; the request and
-- response messages of the session broker; the saved results of the scanner and the statistics of the breakout
-- backtest; batch resolution of collection versions, bulk import, update, preparation and deletion of
-- collections; freshness of charts, refresh of latest prices and metrics; generation of weekly strong
-- backtests; the other providers' adapters, monetization, drawings, AI and administration; migrations.
pub mod Prelude
pub mod Calendar
pub mod Evaluator
pub mod Scanner
pub mod Database
pub mod Auth
pub mod Provider
pub mod Alerts
pub mod Collections
pub mod Stream
pub mod Market
pub mod Jobs
pub mod Watchlists
pub mod Tests
