-- ===== src/Tests/ClosureRuns.antt =====
-- Closing a lot on a snapshot of the broker: the cases of tests/lot-reconciliation.test.js.
use portfolio_manager.Base.{
  String, Option, none, some, [], ◌∷◌, ◌≡◌, refl, if◌then◌else◌, Outcome, ok, thrown,
}
use portfolio_manager.Base.Int.{◌-ℤ◌, ◌-ℤ◌, ◌-ℤ◌, ◌-ℤ◌, ℤ, pos}
use portfolio_manager.Base.Money.{finite, whole}
use portfolio_manager.Base.Text.{trim, to_upper, trim, to_upper, ◌=s=◌}
use portfolio_manager.Records.Cells.{
  number_in, cell_at, string_in, cell_at, string_in, text, number, Conversions,
}
use portfolio_manager.Lots.Lot.{Lot, closed, still_open}
use portfolio_manager.Lots.Closure.{
  assert_broker_zero_holding_snapshot, check_raw_rows, Holding, ClosureRequest, Closure,
  ClosureError, projection_empty, still_reported, residual_changed, quote_stale,
  plan_broker_zero_lot_closure,
}
use portfolio_manager.Lots.ClosureSafety.{Closes, plan_broker_zero_lot_closure-Closes}

-- Conversions that read no number in a text.
abbrev no_numbers : Conversions
no_numbers = record { number_of = λ s. none; text_of = λ n. "" }

abbrev noon : String
noon = "2026-08-04T12:00:00.000Z"

abbrev parse_noon : String → Option ℤ
parse_noon s = if s =s= noon then some (pos 1_785_844_800_000) else none

abbrev residual : Lot
residual = record {
  lot_id = "nvda-residual";
  ticker = "NVDA";
  open_date = "2026-07-01";
  agent_id = "agent-1";
  cost_per_share = whole 100;
  shares_original = whole 2;
  shares_open = pos 11_500_000_000;
  status = still_open;
}

abbrev holding : String → Holding
holding t = record { ticker = some t; shares = finite (whole 1) }

-- Five minutes after the snapshot.
abbrev request : ClosureRequest
request = record {
  lots = some (residual ∷ []);
  holdings = some (holding "AAPL" ∷ []);
  raw_rows = some ((text "AAPL" ∷ text "Apple" ∷ number (some (whole 1)) ∷ []) ∷ []);
  quote_snapshot = some (record { quote_timestamp = some noon });
  lot_id = "nvda-residual";
  expected_shares_open = some (pos 11_500_000_000);
  now = pos 1_785_845_100_000;
}

abbrev plan : ClosureRequest → Outcome ClosureError Closure
plan = plan_broker_zero_lot_closure no_numbers parse_noon

abbrev closure : Closure
closure = record {
  original_lot = residual;
  updated_lot = record residual { shares_open = pos 0; status = closed };
  broker_shares = pos 0;
}

closes_residual : plan request ≡ ok closure
unfolding plan_broker_zero_lot_closure assert_broker_zero_holding_snapshot ◌-ℤ◌ check_raw_rows
    to_upper trim string_in cell_at
closes_residual = refl

refuses_empty : plan (record request { holdings = some [] }) ≡ thrown projection_empty
unfolding plan_broker_zero_lot_closure assert_broker_zero_holding_snapshot ◌-ℤ◌
refuses_empty = refl

refuses_held :
    plan (record request { holdings = some (holding "NVDA" ∷ []) }) ≡ thrown still_reported
unfolding plan_broker_zero_lot_closure assert_broker_zero_holding_snapshot ◌-ℤ◌ check_raw_rows
    to_upper trim string_in cell_at
refuses_held = refl

refuses_other_residual :
    plan (record request { expected_shares_open = some (pos 11_500_000_001) })
    ≡ thrown residual_changed
unfolding plan_broker_zero_lot_closure
refuses_other_residual = refl

-- One millisecond more than twelve hours.
refuses_stale : plan (record request { now = pos 1_785_888_000_001 }) ≡ thrown quote_stale
unfolding plan_broker_zero_lot_closure assert_broker_zero_holding_snapshot ◌-ℤ◌
refuses_stale = refl

-- The ticker is compared after it is trimmed and put in capitals.
refuses_raw_row :
    plan (record request {
      raw_rows = some ((text " nvda " ∷ text "" ∷ number (some (whole 1)) ∷ []) ∷ []);
    })
    ≡ thrown still_reported
unfolding plan_broker_zero_lot_closure assert_broker_zero_holding_snapshot ◌-ℤ◌ check_raw_rows
    to_upper trim string_in cell_at number_in
refuses_raw_row = refl

plan_broker_zero_lot_closure-Closes_example : Closes no_numbers parse_noon request closure
plan_broker_zero_lot_closure-Closes_example =
    plan_broker_zero_lot_closure-Closes no_numbers parse_noon request closure closes_residual
