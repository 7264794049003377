-- ===== src/Capital.antt =====
-- Capital: the pricing of contributions and withdrawals (lib/contribution-nav.js,
-- lib/withdrawal-pricing.js), the investor ledger (lib/investor-ledger.js) and the withdrawal
-- commit (lib/withdrawal-commit.js, lib/withdrawal-commit-runner.js).
pub mod Nav
pub mod PreDeposit
pub mod Signing
pub mod Ledger
pub mod Overdraw
pub mod Plan
pub mod Replay
pub mod LotReplay
pub mod Pricing
pub mod Writes
pub mod Commit
pub mod CommitOrder
pub mod PlanFirst
pub mod EntryOnce
