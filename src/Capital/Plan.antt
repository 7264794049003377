-- ===== src/Capital/Plan.antt =====
-- lib/withdrawal-commit.js: the plan that a withdrawal signs before it moves money. The fields
-- that the code compares on a lot are the fields of `Lot`. JSON.parse is a parameter.
use portfolio_manager.Base.{
  ℕ, String, Bool, false, not, ◌||◌, Option, none, some, List, [], ◌∷◌, ◌++◌, find?, any, map,
  if◌then◌else◌, ◌==◌, Outcome, ok, thrown, ◌>>=◌, ◌>>◌, throw_if,
}
use portfolio_manager.Base.Int.{ℤ, pos, ◌+ℤ◌, ◌*ℤ◌}
use portfolio_manager.Base.Money.{Num, round2, round2_product}
use portfolio_manager.Base.Text.{◌=s=◌, trim, to_upper, is_empty, is_date}
use portfolio_manager.Lots.Lot.{Lot, LotError, require_positive, apply_lot_updates}
use portfolio_manager.Lots.Fifo.{Sale, consume_lots_fifo}
use portfolio_manager.Capital.Signing.{Entry, normalize_email}

pub data PlanError : Type 0 where
  no_operation_id no_email no_investor_id amount_not_positive entry_not_signed bad_trade_date :
      PlanError
  no_ticker sale_shares_not_positive sale_price_not_positive : PlanError
  sale_refused : LotError → PlanError
  lost_lot plan_json_invalid plan_invalid plan_incomplete bad_transition : PlanError
  lot_missing lot_changed partially_applied : PlanError

-- An instruction to sell, as it is given and as it is normalised.
pub record Instruction : Type 0 where
  pub ticker : String
  pub shares : Num
  pub price : Num

pub record NormalSale : Type 0 where
  pub ticker : String
  pub shares : ℤ
  pub price : ℤ

unfoldable pub normalized_sale : Instruction → Outcome PlanError NormalSale
normalized_sale sale = do
  let ticker = to_upper (trim sale.ticker)
  throw_if (is_empty ticker) no_ticker
  shares ← require_positive sale.shares sale_shares_not_positive
  price ← require_positive sale.price sale_price_not_positive
  ok (record { ticker = ticker; shares = shares; price = price })

unfoldable pub normalized_sales : List Instruction → Outcome PlanError (List NormalSale)
normalized_sales [] = ok []
normalized_sales (sale ∷ sales) = do
  first ← normalized_sale sale
  rest ← normalized_sales sales
  ok (first ∷ rest)

-- A row of the Trade Ledger: a number is missing, not finite, or there.
pub record LedgerTrade : Type 0 where
  pub date : String
  pub ticker : String
  pub side : String
  pub order_id : Option String
  pub agent_id : String
  pub proposal_id : Option String
  pub shares : Option Num
  pub price : Option Num
  pub amount : Option Num
  pub realized_gain : Option Num

pub record Transition : Type 0 where
  pub before : Lot
  pub after : Lot

-- What the request is compared on: `sales` keeps ticker and shares.
pub record PlanRequest : Type 0 where
  pub email : String
  pub investor_id : String
  pub requested_amount : Num
  pub sales : List (String × Num)

pub record Plan : Type 0 where
  pub version : ℕ
  pub operation_id : String
  pub created_at : String
  pub request : PlanRequest
  pub entry : Entry
  pub trades : List LedgerTrade
  pub lot_transitions : List Transition
  pub total_realized_gain : ℤ

-- `transitionByLotId.set(...)`: the first state stays, the last one is replaced.
unfoldable pub set_transition : Lot → Lot → List Transition → List Transition
set_transition before updated [] = record { before = before; after = updated } ∷ []
set_transition before updated (t ∷ ts) =
    if t.after.lot_id =s= updated.lot_id
    then record { before = t.before; after = updated } ∷ ts
    else t ∷ set_transition before updated ts

unfoldable pub set_transitions :
    List Lot → List Lot → List Transition → Outcome PlanError (List Transition)
set_transitions lots [] ts = ok ts
set_transitions lots (updated ∷ us) ts = elim (find? (λ l. l.lot_id =s= updated.lot_id) lots) [
  | none ↦ thrown lost_lot
  | some before ↦ set_transitions lots us (set_transition before updated ts)
]

unfoldable pub consume_for_plan : List Lot → NormalSale → Outcome PlanError Sale
consume_for_plan lots sale =
    elim (consume_lots_fifo lots sale.ticker (some sale.shares) (some sale.price)) [
      | ok consumed ↦ ok consumed
      | thrown e ↦ thrown (sale_refused e)
    ]

unfoldable pub planned_trade : String → String → NormalSale → ℤ → LedgerTrade
planned_trade operation_id date sale gain = record {
  date = date;
  ticker = sale.ticker;
  side = "SELL";
  order_id = none;
  agent_id = "withdrawal";
  proposal_id = some operation_id;
  shares = some (some sale.shares);
  price = some (some sale.price);
  amount = some (some (round2_product (sale.shares *ℤ sale.price)));
  realized_gain = some (some (round2 gain));
}

-- What the loop over the instructions has built.
pub record Working : Type 0 where
  pub lots : List Lot
  pub gain : ℤ
  pub transitions : List Transition
  pub trades : List LedgerTrade

unfoldable pub plan_sales : String → String → List NormalSale → Working → Outcome PlanError Working
plan_sales operation_id date [] w = ok w
plan_sales operation_id date (sale ∷ sales) w = do
  consumed ← consume_for_plan w.lots sale
  transitions ← set_transitions w.lots consumed.updated_lots w.transitions
  plan_sales operation_id date sales (record {
    lots = apply_lot_updates w.lots consumed.updated_lots;
    gain = w.gain +ℤ consumed.realized_gain;
    transitions = transitions;
    trades = w.trades ++ (planned_trade operation_id date sale consumed.realized_gain ∷ []);
  })

abbrev pub names_operation : String → Entry → Bool
names_operation operation_id entry = elim entry.entry_id [
  | none ↦ false
  | some id ↦ id =s= operation_id
]

abbrev pub ticker_and_shares : NormalSale → String × Num
ticker_and_shares sale = (sale.ticker, some sale.shares)

-- The arguments of `buildWithdrawalCommitPlan`.
pub record PlanInput : Type 0 where
  pub operation_id : String
  pub created_at : String
  pub email : String
  pub investor_id : String
  pub requested_amount : Num
  pub entry : Entry
  pub sales : List Instruction
  pub lots : List Lot
  pub trade_date : String

unfoldable pub build_withdrawal_commit_plan : PlanInput → Outcome PlanError Plan
build_withdrawal_commit_plan input = do
  let operation_id = trim input.operation_id
  throw_if (is_empty operation_id) no_operation_id
  let email = normalize_email input.email
  throw_if (is_empty email) no_email
  let investor_id = trim input.investor_id
  throw_if (is_empty investor_id) no_investor_id
  amount ← require_positive input.requested_amount amount_not_positive
  throw_if (not (names_operation operation_id input.entry)) entry_not_signed
  let date = trim input.trade_date
  throw_if (not (is_date date)) bad_trade_date
  sales ← normalized_sales input.sales
  done ←
      plan_sales operation_id date sales
        (record { lots = input.lots; gain = pos 0; transitions = []; trades = [] })
  ok (record {
    version = 1;
    operation_id = operation_id;
    created_at = trim input.created_at;
    request = record {
      email = email;
      investor_id = investor_id;
      requested_amount = some amount;
      sales = map ticker_and_shares sales;
    };
    entry = input.entry;
    trades = done.trades;
    lot_transitions = done.transitions;
    total_realized_gain = round2 done.gain;
  })

abbrev bad_ends : Transition → Bool
bad_ends t = is_empty t.before.lot_id || not (t.before.lot_id =s= t.after.lot_id)

abbrev at_price_one : String × Num → Instruction
at_price_one sale = record {
  ticker = sale.0;
  shares = sale.1;
  price = some (pos 100_000_000_000_000);
}

unfoldable pub validate_withdrawal_commit_plan : Plan → Outcome PlanError Plan
validate_withdrawal_commit_plan plan = do
  throw_if (not (plan.version == 1) || is_empty plan.operation_id) plan_invalid
  _ ← require_positive plan.request.requested_amount amount_not_positive
  throw_if (not (names_operation plan.operation_id plan.entry)) plan_incomplete
  _ ← normalized_sales (map at_price_one plan.request.sales)
  throw_if (any bad_ends plan.lot_transitions) bad_transition
  ok plan

-- `JSON.parse` into a plan, which fails on a text that is none.
unfoldable pub parse_withdrawal_commit_plan :
    (String → Option Plan) → String → Outcome PlanError Plan
parse_withdrawal_commit_plan parse text = elim (parse text) [
  | none ↦ thrown plan_json_invalid
  | some plan ↦ validate_withdrawal_commit_plan plan
]
