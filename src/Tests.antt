-- ===== src/Tests.antt =====
-- Runs of the modelled code on small inputs, and the theorems at such inputs.
mod LotRuns
mod RiskRuns
mod CapitalRuns
mod CommitRuns
mod BudgetRuns
mod MonthRuns
mod UsageRuns
mod OpsRuns
mod RecordRuns
mod ClosureRuns
