-- ===== src/Lib.antt =====
-- Verification of the portfolio manager: the bookkeeping and decision code that moves money,
-- written as total functions, with the theorems that make it correct.
--
-- The program. Scheduled jobs (jobs/, scheduler.js) and a small server (server.js) read a
-- Google sheet, a Redis store and a Postgres mirror (lib/sheets.js, lib/redis.js, lib/pg/), ask
-- brokers and data vendors for fills, quotes and history, and hand what they read to pure
-- modules under lib/. Those modules decide what is written back. They are what is modelled; the
-- stores, the vendors and the texts of log lines are not. A signature, a digest, and Node's
-- decoding of a hexadecimal text are parameters of the definitions that use them.
--
-- Base: shared code. Base.Tests, Base.Lists, Base.Results and Base.Text hold Boolean tests, list
-- helpers, results with errors, and texts by code points (trim, toLowerCase, comparison, date
-- shape; letters outside ASCII are not lowered). Base.Int is ℤ over the native numbers.
-- Base.Money models a JavaScript number as an exact count of 1e-14, `Num` adding the values that
-- are not finite, which it does not tell apart, and `Number` those with both infinities; round2,
-- round4 and roundShares round half up as Math.round does. The error of
-- binary floating point below 1e-14 is not modelled.
--
-- Lots: tax lots and the booking of broker fills.
--   Lots.Lot, Lots.Fifo      lib/tax-lots.js, contracts/lot.js (openLot, consumeLotsFIFO,
--                            applyLotUpdates)
--   Lots.Owned               lib/owned-lots.js (ownedOpenShares, consumeOwnedLotsFIFO)
--   Lots.Attribution         lib/agent-attribution.js (matchTradeToApprovedProposal)
--   Lots.Fills               lib/fill-processing.js (planFillProcessing)
-- The other modules of Lots hold proofs. The list of lots is the sheet's rows; a Map keyed by
-- lot id is an association list; the lot ids that openLot draws are an argument.
--
-- Risk: what stands between a recommendation and an order.
--   Risk.Breaker             lib/circuit-breaker.js
--   Risk.Approval            lib/approval-validity.js (checkApprovalStillValid)
--   Risk.Sizing              lib/proposal-sizing.js
--   Risk.Engine              lib/risk-engine.js (applyRiskChecks; the search for fabricated
--                            claims, by regular expressions, enters by its outcome)
--
-- Capital: the investors' ledger.
--   Capital.Nav              lib/contribution-nav.js (the signed close that prices an entry)
--   Capital.Signing          lib/investor-ledger.js (entries and their signatures)
--   Capital.Ledger           lib/investor-ledger.js (the next entry, unattributed capital)
--   Capital.Plan             lib/withdrawal-commit.js (the plan that is signed, its validation)
--   Capital.Replay           lib/withdrawal-commit.js (what a replay compares with the plan)
--   Capital.Pricing          lib/withdrawal-pricing.js
--   Capital.Writes           lib/withdrawal-commit-runner.js (the store, the writers, a run)
--   Capital.Commit           lib/withdrawal-commit-runner.js (the run as its writes and outcome)
-- A run reads a store and makes writes; the code's await of a writer is one write. JSON.parse, the
-- canonical JSON text of a plan and the check of a trade row's signature are services of the run.
--
-- Budget: what one research run may spend.
--   Budget.Reservations      lib/ai-budget.js (the state of createResearchRunBudget, its inner functions)
--   Budget.Run               lib/ai-budget.js (the methods that it returns)
-- An id from randomUUID is an argument; a cost that the telemetry record lacks is 0.
--
-- Ops: checks of what comes in from outside.
--   Ops.Orders               lib/reconcile.js (reconcileOrders)
--   Ops.Patch                lib/companion-proposal-state.js
--   Ops.Gates                lib/data-gates.js (evaluateDataGates)
-- Ops.PatchReports and Ops.Readiness hold proofs about the last two.
--
-- Month: the spending limit of a calendar month, which all processes share.
--   Month.Hash, Month.Store  lib/anthropic-monthly-budget.js: the state in Redis and the scripts
--                            AUTHORIZE_SCRIPT, SETTLE_SCRIPT and POISON_SCRIPT, each an atomic step
--   Month.Settings, Month.Report, Month.Client, Month.Settlement
--                            the rest of that file: configuration, report and readiness, authorizeCall,
--                            settleCall and settleProviderFailure over the scripts
--   Month.Pricing            lib/anthropic-pricing.js
--   Month.Usage, Month.UsageSum
--                            lib/anthropic-usage.js (records of paid calls, their sum for a month,
--                            which Month.Report takes as MonthUsage)
-- A call of Redis may answer, fail before the script runs, or lose the answer of a script that ran.
-- The keys of one month are modelled; that they expire after 50 days, and the copies of amounts in
-- dollars that the hash also holds, are not.
--
-- Records: rows of the sheet and their signatures.
--   Records.Cells, Records.InvestorRow
--                            lib/investor-ledger.js (investorLedgerRow, parseInvestorLedgerRow)
--   Records.Secrets          lib/operational-ledger.js (secrets, signatures)
--   Records.Verify           lib/operational-ledger.js, lib/ledger-verify.js (verification of rows)
--
-- Ops.Lock models lib/workflow-lock.js: the key, the closures that were not called, and steps of
-- processes that acquire, release or wait.
--
-- Risk.MandateClamp models lib/mandate-proposal-clamp.js; the policy that it asks
-- (lib/mandate-policy.js) is a parameter.
--
-- Lots.Closure models lib/lot-reconciliation.js; the rows that the sheet returns are those of
-- Records.Cells.
--
-- Tests holds runs on concrete inputs, one for each theorem listed here.
--
-- No definition uses fuel: every loop of the code runs over a list, and is recursion on it.
--
-- Not modelled: reading and writing sheets, Redis, Postgres and mail, calls of vendors and of
-- language models, scheduling, and scoring tables. PROJECT.json names each part.
pub mod Base
pub mod Lots
pub mod Risk
pub mod Capital
pub mod Budget
pub mod Month
pub mod Ops
pub mod Records
pub mod Tests
