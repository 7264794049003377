-- ===== src/Tests/OpsRuns.antt =====
-- Orders, reports and data gates on small inputs, and the theorems there.
use portfolio_manager.Base.{
  ◌≡◌, ◌↔◌, thrown, refl, ◌+◌, map, String, true, false, Option, none, some, List, [], ◌∷◌, ok,
}
use portfolio_manager.Base.Int.{pos, ◌-ℤ◌}
use portfolio_manager.Base.Money.{whole}
use portfolio_manager.Base.Text.{trim, to_upper, to_lower}
use portfolio_manager.Ops.Lock.{
  Lock, LockReached, at_start, then_lock, acquiring, waiting, acquire_workflow_lock, Exclusive,
  LockReached-Exclusive,
}
use portfolio_manager.Ops.Orders.{
  RawOrder, Accounts, normalize_order, is_filled, in_ledger, add_order, reconcile_orders,
  reconcile_orders-Accounts,
}
use portfolio_manager.Ops.Patch.{
  text, number, StatePatch, ProposalState, forbidden_field, is_allowed, field_of, null_or_one_of,
  null_or_text, null_or_positive, validate_companion_proposal_state_patch,
}
use portfolio_manager.Ops.PatchReports.{Reports, validate_companion_proposal_state_patch_iff}
use portfolio_manager.Ops.Gates.{
  Reading, reading, nan, absent, GateInput, GateOptions, evaluate_data_gates, missing_fields,
  require_present, is_stale, is_thin, is_micro_cap, volume_floor, data_score, required_count,
}
use portfolio_manager.Ops.Readiness.{Ready, NoNan, evaluate_data_gates_iff}

abbrev order : String → String → RawOrder
order id state = record {
  order_id = none;
  id = some id;
  ticker = none;
  symbol = some " aaa";
  side = some "buy";
  state = some state;
  shares = some (some (whole 1));
  price = some (some (whole 2));
  filled_at = none;
  updated_at = some "2026-07-03";
}

abbrev orders : List RawOrder
orders =
    order "o1" "FILLED"
    ∷ order "o2" "partially_filled"
    ∷ order "" "filled"
    ∷ order "o4" "cancelled"
    ∷ []

three_filled : (reconcile_orders orders (some "o1" ∷ none ∷ [])).checked ≡ 3
unfolding reconcile_orders add_order in_ledger is_filled normalize_order trim to_upper to_lower
three_filled = refl

reconcile_orders-Accounts_example :
    Accounts orders (some "o1" ∷ none ∷ []) (reconcile_orders orders (some "o1" ∷ none ∷ []))
reconcile_orders-Accounts_example = reconcile_orders-Accounts orders (some "o1" ∷ none ∷ [])

abbrev failure : StatePatch
failure =
    ("status", text "ExecutionFailed" none)
    ∷ ("executionFailureReason", text "rejected" none)
    ∷ ("executionShares", number (some (whole 2)))
    ∷ []

abbrev approved : Option ProposalState
approved = some (record { status = "ApprovedForBrokerReview"; fulfilled_at = none })

accepted : validate_companion_proposal_state_patch failure approved ≡ ok failure
unfolding validate_companion_proposal_state_patch is_allowed field_of null_or_one_of null_or_text
    null_or_positive trim
accepted = refl

validate_companion_proposal_state_patch_iff_example :
    (validate_companion_proposal_state_patch failure approved ≡ ok failure)
    ↔ ((failure ≡ failure) × Reports failure approved)
validate_companion_proposal_state_patch_iff_example =
    validate_companion_proposal_state_patch_iff failure approved failure

-- A field that is no report of the executor.
refuses_amount :
    validate_companion_proposal_state_patch
      (("amountDollars", number (some (whole 2))) ∷ failure)
      approved
    ≡ thrown forbidden_field
unfolding validate_companion_proposal_state_patch is_allowed
refuses_amount = refl

-- Market capital as given; the bars are an hour old.
abbrev stock : Reading → Reading → GateInput
stock cap volume = record {
  price_value = reading (whole 10);
  trailing_eps_value = reading (whole 1);
  forward_eps_value = reading (whole 1);
  gross_margins = absent;
  profit_margins = reading (whole 1);
  rsi_value = reading (whole 50);
  last_bar = reading (pos 1_000_000);
  market_cap_value = cap;
  avg_dollar_volume_value = volume;
}

abbrev options : GateOptions
options = record { micro_cap_floor = none; now = pos 4_600_000; max_bar_age_days = 4 }

-- A micro-cap that trades four million, one that trades two, and a capital that is NaN.
gates_open :
    ((evaluate_data_gates
        (stock (reading (whole 200_000_000)) (reading (whole 4_000_000)))
        options).ok_to_trade
      ≡ true)
    × ((evaluate_data_gates
          (stock (reading (whole 200_000_000)) (reading (whole 2_000_000)))
          options).ok_to_trade
        ≡ false)
    × ((evaluate_data_gates (stock nan absent) options).ok_to_trade ≡ true)
unfolding evaluate_data_gates missing_fields require_present is_stale is_thin is_micro_cap
    volume_floor ◌-ℤ◌
gates_open = (refl, refl, refl)

abbrev micro_cap : GateInput
micro_cap = stock (reading (whole 200_000_000)) (reading (whole 4_000_000))

-- One of seven required fields is missing.
one_missing :
    (evaluate_data_gates (record micro_cap { rsi_value = nan }) options).available_data_score ≡ 86
unfolding evaluate_data_gates data_score required_count is_micro_cap is_thin volume_floor
    missing_fields require_present
one_missing = refl

micro_cap-NoNan : NoNan micro_cap
micro_cap-NoNan = record {
  gross = λ e. cc e;
  profit = λ e. cc e;
  bar = λ e. cc e;
  cap = λ e. cc e;
  volume = λ e. cc e;
}

evaluate_data_gates_iff_example :
    ((evaluate_data_gates micro_cap options).ok_to_trade ≡ true) ↔ Ready micro_cap options
evaluate_data_gates_iff_example = evaluate_data_gates_iff micro_cap options micro_cap-NoNan

-- The first holder's release is lost; the second gets the lock once the key has expired.
abbrev start_lock : Lock
start_lock = record { now = 0; key = none; holders = [] }

abbrev first_lock : Lock
first_lock = (acquire_workflow_lock "a" 900 start_lock).0

abbrev expired_lock : Lock
expired_lock = record first_lock { now = first_lock.now + 900_000 }

abbrev second_lock : Lock
second_lock = (acquire_workflow_lock "b" 900 expired_lock).0

second_lock-LockReached : LockReached second_lock
second_lock-LockReached =
    then_lock
      (then_lock (then_lock (at_start 0) (acquiring "a" 900 start_lock))
        (waiting 900_000 first_lock))
      (acquiring "b" 900 expired_lock)

two_holders : map (λ h. h.token) second_lock.holders ≡ "b" ∷ "a" ∷ []
unfolding acquire_workflow_lock
two_holders = refl

LockReached-Exclusive_example : Exclusive second_lock
LockReached-Exclusive_example = LockReached-Exclusive second_lock-LockReached
