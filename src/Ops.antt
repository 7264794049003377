-- ===== src/Ops.antt =====
-- Ops: checks of what comes in from outside. Broker orders (lib/reconcile.js), the executor's
-- reports (lib/companion-proposal-state.js), research data (lib/data-gates.js).
pub mod Orders
pub mod Patch
pub mod PatchReports
pub mod Lock
pub mod Gates
pub mod Readiness
