-- ===== src/Capital/Commit.antt =====
-- lib/withdrawal-commit-runner.js: the withdrawal as a sequence of writes.
use portfolio_manager.Base.{
  String, Bool, true, false, not, ◌&&◌, Option, none, some, List, [], ◌∷◌, filter, any, all, map,
  if◌then◌else◌,
}
use portfolio_manager.Base.Int.{ℤ, ◌-ℤ◌, ltb_ℤ, abs_ℤ}
use portfolio_manager.Base.Money.{Num, micro, round2}
use portfolio_manager.Base.Text.{◌=s=◌}
use portfolio_manager.Lots.Lot.{Lot}
use portfolio_manager.Risk.Breaker.{PerformanceRow}
use portfolio_manager.Capital.Signing.{Entry, Crypto, investor_ledger_entry_hmac_matches}
use portfolio_manager.Capital.Plan.{
  Plan, PlanInput, LedgerTrade, Instruction, names_operation, build_withdrawal_commit_plan,
  validate_withdrawal_commit_plan, parse_withdrawal_commit_plan,
}
use portfolio_manager.Capital.Replay.{
  LotRow, Projection, is_keyed, withdrawal_plan_matches_request,
  reconcile_withdrawal_lot_transitions, withdrawal_trades_match_plan,
  project_withdrawal_units_after_replay, withdrawal_entry_matches_plan,
}
use portfolio_manager.Capital.Pricing.{
  WithdrawalRequest, prepare_signed_withdrawal_ledger_entry, withdrawal_commit_already_recorded,
}
use portfolio_manager.Capital.Writes.{
  Operation, Run, Store, append_entry, append_operation, append_trades, conflicting_plans,
  duplicate_entries, entry_conflict, entry_not_signed, entry_without_plan, from_plan, from_pricing,
  gain_moved, key_reused, pure_run, refuse_if, shadow_entry, trades_conflict, write, write_lots,
  ◌then_run◌,
}

-- The code and services that the run calls outside of it: canonical JSON and its parser, the
-- digest, and the check of an operational signature on a trade row.
pub record Services : Type 0 where
  pub print : Plan → String
  pub parse : String → Option Plan
  pub crypto : Crypto
  pub trade_signed : LedgerTrade → Bool

pub record CommitRequest : Type 0 where
  pub idempotency_key : String
  pub email : String
  pub investor_id : String
  pub requested_amount : Num
  pub sales : List Instruction
  pub preview_realized_gain : ℤ
  pub nav_snapshot : Option PerformanceRow
  pub secret : Option String
  pub trade_date : String
  pub uuid : String
  pub today : String
  pub now : String

pub record Committed : Type 0 where
  pub plan : Plan
  pub already_recorded : Bool
  pub replayed : Bool
  pub overdraw_warning : Option Projection

abbrev pub has_key : String → Operation → Bool
has_key key row = row.operation_id =s= key

abbrev other_json : String → Operation → Bool
other_json json row = not (row.plan_json =s= json)

abbrev pub lot_of : LotRow → Lot
lot_of row = row.lot

-- The arguments of `prepareSignedWithdrawalLedgerEntry`.
abbrev pricing_request : Store → CommitRequest → WithdrawalRequest
pricing_request s r = record {
  ledger = s.ledger;
  performance_history = s.history;
  email = r.email;
  name = r.email;
  amount = r.requested_amount;
  investor_id = some r.investor_id;
  entry_id = some r.idempotency_key;
  nav_snapshot = r.nav_snapshot;
  uuid = r.uuid;
  today = r.today;
  secret = r.secret;
}

abbrev plan_input : Store → CommitRequest → Entry → PlanInput
plan_input s r entry = record {
  operation_id = r.idempotency_key;
  created_at = r.now;
  email = r.email;
  investor_id = r.investor_id;
  requested_amount = r.requested_amount;
  entry = entry;
  sales = r.sales;
  lots = map lot_of s.lots;
  trade_date = r.trade_date;
}

abbrev gain_differs : ℤ → ℤ → Bool
gain_differs planned preview = ltb_ℤ micro (abs_ℤ (planned -ℤ round2 preview))

module _ (services : Services) where
  -- The branch without a stored plan: price, plan, persist the plan.
  unfoldable pub fresh_plan : Store → CommitRequest → Run Plan
  fresh_plan s r =
      refuse_if (withdrawal_commit_already_recorded s.ledger (some r.idempotency_key))
        entry_without_plan
      then_run λ _.
          from_pricing
            (prepare_signed_withdrawal_ledger_entry services.crypto (pricing_request s r))
          then_run λ priced.
              from_plan (build_withdrawal_commit_plan (plan_input s r priced.1.entry))
              then_run λ plan.
                  refuse_if (gain_differs plan.total_realized_gain r.preview_realized_gain)
                    gain_moved
                  then_run λ _. from_plan (validate_withdrawal_commit_plan plan) then_run λ _.
                      write (
                        append_operation (record {
                          operation_id = r.idempotency_key;
                          created_at = plan.created_at;
                          plan_json = services.print plan;
                        }))
                      then_run λ _. pure_run plan

  -- The branch with one: it must parse, and name the same request.
  unfoldable pub replayed_plan : String → CommitRequest → Run Plan
  replayed_plan json r =
      from_plan (parse_withdrawal_commit_plan services.parse json) then_run λ plan.
      from_plan
        (withdrawal_plan_matches_request plan r.email r.investor_id r.requested_amount r.sales)
      then_run λ same. refuse_if (not same) key_reused then_run λ _. pure_run plan

  -- The stored plan, or a new one, and whether it is a replay.
  unfoldable pub choose_plan : Store → CommitRequest → Run (Plan × Bool)
  choose_plan s r = elim (filter (has_key r.idempotency_key) s.operations) [
    | [] ↦ fresh_plan s r then_run λ plan. pure_run (plan, false)
    | first ∷ others ↦
        refuse_if (any (other_json first.plan_json) others) conflicting_plans then_run λ _.
        replayed_plan first.plan_json r then_run λ plan. pure_run (plan, true)
  ]

  -- Trade rows under the key are the plan's, or there are none and they are appended.
  unfoldable pub trades_stage : Store → CommitRequest → Plan → Run (Unit {0})
  trades_stage s r plan = elim plan.trades [
    | [] ↦ pure_run tt
    | t ∷ ts ↦ elim (filter (is_keyed r.idempotency_key) s.trades) [
      | [] ↦ write (append_trades (t ∷ ts))
      | k ∷ ks ↦ from_plan (withdrawal_trades_match_plan s.trades plan) then_run λ same.
          refuse_if (not (same && all services.trade_signed (k ∷ ks))) trades_conflict
    ]
  ]

  unfoldable pub lots_stage : Store → Plan → Run (Unit {0})
  lots_stage s plan =
      from_plan (reconcile_withdrawal_lot_transitions s.lots plan.lot_transitions)
      then_run λ updates. write_lots updates

  -- A replay that still has to append its entry may overdraw, which is reported.
  unfoldable pub overdraw_check : Store → Plan → Bool → Run (Option Projection)
  overdraw_check s plan false = pure_run none
  overdraw_check s plan true =
      from_plan (project_withdrawal_units_after_replay s.ledger plan) then_run λ p.
      pure_run (if p.overdrawn then some p else none)

  -- No row with the key: the entry is appended if it is signed. One: it is the plan's.
  unfoldable pub entry_stage : Store → CommitRequest → Plan → Bool → Run (Bool × Option Projection)
  entry_stage s r plan replayed = elim (filter (names_operation r.idempotency_key) s.ledger) [
    | [] ↦
        refuse_if (not (investor_ledger_entry_hmac_matches services.crypto plan.entry r.secret))
          entry_not_signed
        then_run λ _. overdraw_check s plan replayed then_run λ warning.
            write (append_entry plan.entry) then_run λ _. pure_run (false, warning)
    | e ∷ es ↦ elim es [
      | [] ↦ from_plan (withdrawal_entry_matches_plan e plan) then_run λ same.
          refuse_if (not same) entry_conflict then_run λ _. pure_run (true, none)
      | e' ∷ es' ↦ refuse_if true duplicate_entries then_run λ _. pure_run (true, none)
    ]
  ]

  unfoldable pub run_withdrawal_commit : Store → CommitRequest → Run Committed
  run_withdrawal_commit s r = choose_plan s r then_run λ chosen.
      trades_stage s r chosen.0 then_run λ _. lots_stage s chosen.0 then_run λ _.
      entry_stage s r chosen.0 chosen.1 then_run λ done.
      write (shadow_entry chosen.0.entry) then_run λ _. pure_run (record {
        plan = chosen.0;
        already_recorded = done.0;
        replayed = chosen.1;
        overdraw_warning = done.1;
      })
