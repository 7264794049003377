-- ===== src/Capital/Writes.antt =====
-- lib/withdrawal-commit-runner.js: what a withdrawal reads and writes. A run is the writes that it
-- makes, in order, and how it ends; a failed write leaves the store after those before it.
use portfolio_manager.Base.{String, Bool, List, [], ◌∷◌, ◌++◌, Outcome, ok, thrown, throw_if}
use portfolio_manager.Risk.Breaker.{PerformanceRow}
use portfolio_manager.Capital.Signing.{Entry}
use portfolio_manager.Capital.Plan.{PlanError, LedgerTrade}
use portfolio_manager.Capital.Replay.{LotRow}
use portfolio_manager.Capital.Pricing.{PricingError}

pub data CommitError : Type 0 where
  plan_error : PlanError → CommitError
  pricing_error : PricingError → CommitError
  conflicting_plans key_reused entry_without_plan gain_moved trades_conflict : CommitError
  duplicate_entries entry_conflict entry_not_signed : CommitError

pub record Operation : Type 0 where
  pub operation_id : String
  pub created_at : String
  pub plan_json : String

pub record Store : Type 0 where
  pub ledger : List Entry
  pub history : List PerformanceRow
  pub lots : List LotRow
  pub operations : List Operation
  pub trades : List LedgerTrade

-- The writers of `io`.
pub data Write : Type 0 where
  append_operation : Operation → Write
  append_trades : List LedgerTrade → Write
  apply_lots : List LotRow → Write
  append_entry : Entry → Write
  shadow_entry : Entry → Write

-- A run: its writes in order, then a value or an error.
pub record Run (A : Type 0) : Type 0 where
  pub writes : List Write
  pub outcome : Outcome CommitError A

infixl 5 ◌then_run◌
unfoldable pub ◌then_run◌ : {A B : Type 0} → Run A → (A → Run B) → Run B
m then_run f = elim m.outcome [
  | ok a ↦ let rest = f a in record { writes = m.writes ++ rest.writes; outcome = rest.outcome }
  | thrown e ↦ record { writes = m.writes; outcome = thrown e }
]

abbrev pub pure_run : {A : Type 0} → A → Run A
pure_run a = record { writes = []; outcome = ok a }

abbrev pub write : Write → Run (Unit {0})
write w = record { writes = w ∷ []; outcome = ok tt }

abbrev pub refuse_if : Bool → CommitError → Run (Unit {0})
refuse_if test e = record { writes = []; outcome = throw_if test e }

abbrev pub from_plan : {A : Type 0} → Outcome PlanError A → Run A
from_plan o = elim o [
  | ok a ↦ pure_run a
  | thrown e ↦ record { writes = []; outcome = thrown (plan_error e) }
]

abbrev pub from_pricing : {A : Type 0} → Outcome PricingError A → Run A
from_pricing o = elim o [
  | ok a ↦ pure_run a
  | thrown e ↦ record { writes = []; outcome = thrown (pricing_error e) }
]

-- `if (lotUpdates.length) await io.applyLotUpdatesToSheet(lotUpdates)`
abbrev pub write_lots : List LotRow → Run (Unit {0})
write_lots [] = pure_run tt
write_lots (u ∷ us) = write (apply_lots (u ∷ us))
