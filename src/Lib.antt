-- ===== src/Lib.antt =====
-- Verification of the ZQ and Polymarket arbitrage engine (`src/zq_arb`): long Fed funds futures
-- (ZQ) at IBKR, hedged by YES shares of rate outcomes at Polymarket.
--
-- The program and the files here:
-- - `src/zq_arb/domain`: `enums.py` is Domain/Enums, `calendar.py` is Domain/Calendar, where a
--   meeting splits a contract month into the days before the rate change and from it on.
-- - `src/zq_arb/analytics/probability.py`: `theoretical_settlement` is Analytics/Settlement.
-- - `src/zq_arb/analytics/payoff.py`: the hedge ratio, the cumulative rounding and the
--   commission floor are Analytics/Sizing; `walk_asks`, `marketable_limit_price` and
--   `plan_hedge_entry` are Book/Walk and Book/Plan, on the books of `domain/models.py`
--   (Book/Types).
--   `build_three_state_opportunity` is Payoff/Build, on the scenario matrices of Payoff/Scenarios.
-- - `src/zq_arb/execution/state_machine.py`: `BatchMachine` is Batch/Types and Batch/Machine. Its
--   fills use the sizing and the settlement to create obligations. Batch/History runs any
--   sequence of its methods, with the calls that raise among them.
-- - `src/zq_arb/persistence/hedge_ledger.py`: the rows are Ledger/Types, the life of a hedge order
--   before its fills Ledger/Intents, the venue's final word Ledger/Verification, the fills
--   Ledger/Executions. Each of these refreshes the obligation and its batch (Ledger/Refresh, with
--   `_refresh_batch_state` of `repository.py`). The venue receipts and the safety differences are
--   Ledger/Receipts.
-- - `src/zq_arb/persistence/repository.py`: the ZQ side of the same tables is Repository/Entry (the
--   intent with its batch, its abandonment and submission), Repository/Fills (an execution and the
--   obligations that it creates, by the ratios of Repository/Sizing), Repository/Status (broker
--   statuses, cancellation, normalisation) and Repository/Positions. Repository/History runs any
--   sequence of its sessions and of the hedge ledger's on one set of tables.
-- - `src/zq_arb/risk/engine.py`: `qualify` is Risk/Checks and Risk/Engine.
-- - `src/zq_arb/adapters/polymarket.py`: `update_books_from_stream_event` is Stream/Update, with the
--   snapshots of Stream/Snapshots, on events whose fields are read.
-- - `src/zq_arb/api/security.py`: `LoginRateLimiter` is Api/Limiter, its histories a function of the
--   client's id, its clock in ticks and each attempt given with the time since the last event.
-- - `src/zq_arb/services/state.py`: the alerts of `StateStore` are Store/Alerts, a code being the
--   list of its characters.
-- - `src/zq_arb/execution/coordinator.py`: `_reconcile_ledger_snapshot` is Execution/Reconcile and
--   Execution/Comparison, on the differences of Execution/Differences; `_classify_ibkr_callbacks`
--   is Execution/Callbacks, the safety pause and the end of a gap are Execution/Safety, and
--   `maintenance_recovery_allowed` is Execution/Restart. A call reads each clock once.
--   `handle_ibkr_event` is Execution/Events, on the orders and fills of Execution/Reports and
--   Execution/Fills and the reads of Execution/Account; a payload is read into typed fields, and
--   the shares that a batch without saved ratios owes, the audit records and what `_publish` shows
--   are not modelled. `_route_one_hedge` is Execution/Routing and Execution/Placing,
--   `_post_prepared` is Execution/Posting, over the tables of the ledger, with the venue's
--   answers, the books and the writes of other tasks across each wait as parameters. A round keeps
--   what it sends with the tables of that moment. `confirm_reconciliation` of
--   `src/zq_arb/services/engine.py` is Execution/Confirming.
-- - `src/zq_arb/execution/maintenance.py` is Maintenance/Hold, with the time zone as a parameter;
--   Maintenance/Laws adds what the coordinator may do to a hold while it lasts.
-- - `src/zq_arb/analytics/portfolio.py` is Portfolio/Valuation, on the positions that it is given.
--
-- State and results. A method takes the state and gives a result with the state that it leaves; a
-- database session gives new tables or an error alone, since it rolls back. A row that a query
-- finds is the first, and the unique constraints of `persistence/models.py` are an error of their
-- own. Ids, hashes and texts that are only compared are numbers. Statuses are data, as
-- `normalize_status` leaves them.
--
-- Numbers. A `Decimal` is a whole number of units that the database columns fix: 10^-10 for prices,
-- rates and ratios, 10^-8 for shares, contracts and money. Products of the two are exact in
-- 10^-18, and an average price is an exact quotient. `Decimal` rounds at 28 digits, more than these
-- values need. Signed values are integers over the native numbers (Prelude/Int).
--
-- Loops are structural recursion over lists; no fuel is used.
--
-- Not modelled: the rest of the coordinator, of the engine and of its state store, the outcome
-- probabilities and the legacy sizing, which divide `Decimal`s inexactly at 28 digits, the adapters
-- and API routes, which are asynchronous wiring and network code; configuration; views for display;
-- time stamps of histories and rows, and the execution environment check of a session.
pub mod Prelude
pub mod Domain
pub mod Analytics
pub mod Batch
pub mod Book
pub mod Ledger
pub mod Risk
pub mod Stream
pub mod Payoff
pub mod Portfolio
pub mod Repository
pub mod Maintenance
pub mod Api
pub mod Store
pub mod Execution
