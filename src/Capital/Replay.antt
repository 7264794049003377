-- ===== src/Capital/Replay.antt =====
-- lib/withdrawal-commit.js: what a replay compares with the signed plan.
use portfolio_manager.Base.{
  ℕ, String, Bool, true, false, not, ◌&&◌, Option, none, some, List, [], ◌∷◌, filter, all, map,
  length, if◌then◌else◌, ◌==◌, Outcome, ok, thrown, ◌>>=◌,
}
use portfolio_manager.Base.Int.{ℤ, pos, ◌+ℤ◌, ◌-ℤ◌, ltb_ℤ, leb_ℤ, eqb_ℤ, abs_ℤ}
use portfolio_manager.Base.Money.{Num, micro}
use portfolio_manager.Base.Text.{◌=s=◌, trim}
use portfolio_manager.Lots.Lot.{Lot, LotStatus, still_open, closed}
use portfolio_manager.Capital.Signing.{Entry, normalize_email}
use portfolio_manager.Capital.Ledger.{entry_matches_investor, sum_units}
use portfolio_manager.Capital.Plan.{
  Plan, PlanError, Transition, LedgerTrade, Instruction, ticker_and_shares, lot_missing,
  lot_changed, partially_applied, normalized_sales, names_operation,
  validate_withdrawal_commit_plan,
}

abbrev pub same_text? : Option String → Option String → Bool
same_text? none none = true
same_text? (some a) (some b) = a =s= b
same_text? _ _ = false

abbrev pub same_num : Num → Num → Bool
same_num (some a) (some b) = eqb_ℤ a b
same_num _ _ = false

abbrev same_nav : Option ℤ → Option ℤ → Bool
same_nav none none = true
same_nav (some a) (some b) = eqb_ℤ a b
same_nav _ _ = false

-- A row of the Lots sheet, with its place there.
pub record LotRow : Type 0 where
  pub lot : Lot
  pub row_index : ℕ

abbrev same_status : LotStatus → LotStatus → Bool
same_status still_open still_open = true
same_status closed closed = true
same_status _ _ = false

-- `sameFields(left, right, LOT_COMPARISON_FIELDS)`
unfoldable pub same_lot : Lot → Lot → Bool
same_lot a b =
    a.lot_id =s= b.lot_id
    && a.ticker =s= b.ticker
    && a.open_date =s= b.open_date
    && a.agent_id =s= b.agent_id
    && eqb_ℤ a.cost_per_share b.cost_per_share
    && eqb_ℤ a.shares_original b.shares_original
    && eqb_ℤ a.shares_open b.shares_open
    && same_status a.status b.status

-- One field of `sameMoney`: both missing, or both finite and 1e-6 apart at most.
unfoldable pub same_money : Option Num → Option Num → Bool
same_money none none = true
same_money (some (some a)) (some (some b)) = leb_ℤ (abs_ℤ (a -ℤ b)) micro
same_money _ _ = false

unfoldable pub same_trade : LedgerTrade → LedgerTrade → Bool
same_trade a b =
    a.date =s= b.date
    && a.ticker =s= b.ticker
    && a.side =s= b.side
    && same_text? a.order_id b.order_id
    && a.agent_id =s= b.agent_id
    && same_text? a.proposal_id b.proposal_id
    && same_money a.shares b.shares
    && same_money a.price b.price
    && same_money a.amount b.amount
    && same_money a.realized_gain b.realized_gain

abbrev same_sales : List (String × Num) → List (String × Num) → Bool
same_sales [] [] = true
same_sales (a ∷ as') (b ∷ bs) = a.0 =s= b.0 && same_num a.1 b.1 && same_sales as' bs
same_sales _ _ = false

abbrev with_price_one : Instruction → Instruction
with_price_one sale = record sale { price = some (pos 100_000_000_000_000) }

-- Two canonical JSON texts of sales are equal when the sales are.
unfoldable pub withdrawal_plan_matches_request :
    Plan → String → String → Num → List Instruction → Outcome PlanError Bool
withdrawal_plan_matches_request plan email investor_id requested_amount sales = do
  _ ← validate_withdrawal_commit_plan plan
  requested ← normalized_sales (map with_price_one sales)
  ok (
      plan.request.email =s= normalize_email email
      && plan.request.investor_id =s= trim investor_id
      && same_num plan.request.requested_amount requested_amount
      && same_sales plan.request.sales (map ticker_and_shares requested))

-- The row a lot id is mapped to: `new Map(...)` keeps the last one.
unfoldable pub row_by_id : String → List LotRow → Option LotRow
row_by_id id [] = none
row_by_id id (row ∷ rows) =
    let later = row_by_id id rows in
    elim later [ some r ↦ some r | none ↦ if row.lot.lot_id =s= id then some row else none ]

pub data LotState : Type 0 where
  at_before at_after : LotState

-- What a transition finds: the row, and the state that it is in.
unfoldable pub row_state : Transition → Option LotRow → Outcome PlanError (LotRow × LotState)
row_state t none = thrown lot_missing
row_state t (some row) =
    if same_lot row.lot t.before
    then ok (row, at_before)
    else if same_lot row.lot t.after
    then ok (row, at_after)
    else thrown lot_changed

unfoldable pub transition_state : List LotRow → Transition → Outcome PlanError (LotRow × LotState)
transition_state rows t = row_state t (row_by_id t.before.lot_id rows)

unfoldable pub transition_states :
    List LotRow → List Transition → Outcome PlanError (List (Transition × (LotRow × LotState)))
transition_states rows [] = ok []
transition_states rows (t ∷ ts) = do
  state ← transition_state rows t
  rest ← transition_states rows ts
  ok ((t, state) ∷ rest)

abbrev pub is_after : Transition × (LotRow × LotState) → Bool
is_after s = elim s.1.1 [ at_before ↦ false | at_after ↦ true ]

-- `{ ...transition.after, rowIndex: current.rowIndex }`
abbrev pub absolute_update : Transition × (LotRow × LotState) → LotRow
absolute_update s = record { lot = s.0.after; row_index = s.1.0.row_index }

unfoldable pub settle_states :
    List (Transition × (LotRow × LotState)) → Outcome PlanError (List LotRow)
settle_states states =
    if all is_after states
    then ok []
    else if all (λ s. not (is_after s)) states
    then ok (map absolute_update states)
    else thrown partially_applied

unfoldable pub reconcile_withdrawal_lot_transitions :
    List LotRow → List Transition → Outcome PlanError (List LotRow)
reconcile_withdrawal_lot_transitions rows transitions =
    transition_states rows transitions >>= settle_states

-- `findIndex` and `splice`: the list without its first match.
unfoldable pub take_match : LedgerTrade → List LedgerTrade → Option (List LedgerTrade)
take_match planned [] = none
take_match planned (t ∷ ts) =
    let rest = take_match planned ts in
    if same_trade t planned then some ts else elim rest [ none ↦ none | some ts' ↦ some (t ∷ ts') ]

unfoldable pub match_all : List LedgerTrade → List LedgerTrade → Bool
match_all [] [] = true
match_all [] (t ∷ ts) = false
match_all (planned ∷ ps) unmatched = elim (take_match planned unmatched) [
  | none ↦ false
  | some rest ↦ match_all ps rest
]

unfoldable pub is_keyed : String → LedgerTrade → Bool
is_keyed operation_id t = elim t.proposal_id [ none ↦ false | some id ↦ id =s= operation_id ]

unfoldable pub withdrawal_trades_match_plan : List LedgerTrade → Plan → Outcome PlanError Bool
withdrawal_trades_match_plan entries plan = do
  _ ← validate_withdrawal_commit_plan plan
  let actual = filter (is_keyed plan.operation_id) entries
  ok (length actual == length plan.trades && match_all plan.trades actual)

pub record Projection : Type 0 where
  pub held_units : ℤ
  pub projected_units : ℤ
  pub overdrawn : Bool

abbrev pub is_other_entry : Plan → Entry → Bool
is_other_entry plan e =
    not (names_operation plan.operation_id e)
    && entry_matches_investor plan.entry.investor_id plan.entry.email e

unfoldable pub project_withdrawal_units_after_replay :
    List Entry → Plan → Outcome PlanError Projection
project_withdrawal_units_after_replay ledger plan = do
  _ ← validate_withdrawal_commit_plan plan
  let held = sum_units (filter (is_other_entry plan) ledger)
  let projected = held +ℤ plan.entry.units
  ok (record {
    held_units = held;
    projected_units = projected;
    overdrawn = ltb_ℤ (projected +ℤ micro) (pos 0);
  })

unfoldable pub withdrawal_entry_matches_plan : Entry → Plan → Outcome PlanError Bool
withdrawal_entry_matches_plan entry plan = do
  _ ← validate_withdrawal_commit_plan plan
  ok (
      names_operation plan.operation_id entry
      && entry.date =s= plan.entry.date
      && entry.email =s= plan.entry.email
      && entry.name =s= plan.entry.name
      && entry.investor_id =s= plan.entry.investor_id
      && entry.entry_type =s= plan.entry.entry_type
      && eqb_ℤ entry.amount plan.entry.amount
      && same_nav entry.nav_per_unit plan.entry.nav_per_unit
      && eqb_ℤ entry.units plan.entry.units
      && same_text? entry.row_hmac plan.entry.row_hmac)
