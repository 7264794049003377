-- ===== src/Tests/CommitRuns.antt =====
-- A withdrawal committed on a small store, and the theorems there.
use portfolio_manager.Base.{◌≡◌, refl, true, none, some, [], ◌∷◌, All, length, List, ok}
use portfolio_manager.Base.Int.{◌+ℤ◌, ◌-ℤ◌, ◌*ℤ◌}
use portfolio_manager.Base.Money.{whole, round_div, round2, round4, round2_product, round_shares}
use portfolio_manager.Base.Text.{lt_codes, trim, is_date, to_lower, to_upper}
use portfolio_manager.Lots.Lot.{still_open, apply_lot_updates, by_id}
use portfolio_manager.Lots.Fifo.{
  consume_lots_fifo, candidate_lots, is_candidate, sort_lots, insert_lot, sort_key, drain, reduced,
  consumption,
}
use portfolio_manager.Risk.Breaker.{PerformanceRow}
use portfolio_manager.Capital.Nav.{
  select_contribution_nav_snapshot, select_latest_contribution_nav, first_close, all_dates,
  dates_descending, insert_date, the_only_close, is_valid_close, has_source, slot_of,
}
use portfolio_manager.Capital.Signing.{
  Entry, normalize_email, default_investor_id, compute_investor_ledger_hmac, canonical,
  investor_ledger_entry_hmac_matches, hmac_matches,
}
use portfolio_manager.Capital.Ledger.{
  calculate_investor_ledger_entry, build_investor_ledger_entry, choose_nav, units_for,
  matched_entries, entry_matches_investor, resolved_id, is_conflicting,
}
use portfolio_manager.Capital.Plan.{
  Transition, build_withdrawal_commit_plan, validate_withdrawal_commit_plan, plan_sales,
  planned_trade, consume_for_plan, set_transitions, set_transition, normalized_sales,
  normalized_sale,
}
use portfolio_manager.Capital.Replay.{
  LotRow, reconcile_withdrawal_lot_transitions, settle_states, transition_states, transition_state,
  row_state, row_by_id, same_lot,
}
use portfolio_manager.Capital.Pricing.{
  prepare_signed_withdrawal_ledger_entry, select_signed_withdrawal_nav,
  withdrawal_commit_already_recorded,
}
use portfolio_manager.Capital.Writes.{Store, ◌then_run◌}
use portfolio_manager.Capital.Commit.{
  Services, CommitRequest, run_withdrawal_commit, choose_plan, fresh_plan, trades_stage, lots_stage,
  entry_stage, overdraw_check,
}
use portfolio_manager.Capital.LotReplay.{Settles, reconcile_withdrawal_lot_transitions-Settles}
use portfolio_manager.Capital.CommitOrder.{staged, run_withdrawal_commit_order}
use portfolio_manager.Capital.PlanFirst.{opens_with_plan, run_withdrawal_commit-plan_first}
use portfolio_manager.Capital.EntryOnce.{Guarded, run_withdrawal_commit-Guarded}

abbrev held : Entry
held = record {
  date = "2026-06-01";
  email = "ana@fund.org";
  name = "Ana";
  entry_type = "Contribution";
  amount = whole 100;
  nav_per_unit = some (whole 1);
  units = whole 100;
  investor_id = "ana";
  entry_id = some "e1";
  row_hmac = none;
}

abbrev close : PerformanceRow
close = record {
  date = "2026-07-02";
  source_invocation_id = some "2026-07-02/16:30";
  nav_per_unit = some (whole 2);
  portfolio_value = some (whole 200);
  units_outstanding = some (whole 100);
}

abbrev lot_row : LotRow
lot_row = record {
  lot = record {
    lot_id = "x";
    ticker = "AAA";
    open_date = "2026-02-01";
    agent_id = "agent-1";
    cost_per_share = whole 10;
    shares_original = whole 20;
    shares_open = whole 20;
    status = still_open;
  };
  row_index = 2;
}

abbrev store : Store
store = record {
  ledger = held ∷ [];
  history = close ∷ [];
  lots = lot_row ∷ [];
  operations = [];
  trades = [];
}

-- Sell three shares at eleven dollars, and pay thirty.
abbrev request : CommitRequest
request = record {
  idempotency_key = "w1";
  email = "ana@fund.org";
  investor_id = "ana";
  requested_amount = some (whole 30);
  sales = record { ticker = "aaa"; shares = some (whole 3); price = some (whole 11) } ∷ [];
  preview_realized_gain = whole 3;
  nav_snapshot = none;
  secret = some "k";
  trade_date = "2026-07-03";
  uuid = "";
  today = "2026-07-03";
  now = "2026-07-03T12:00:00Z";
}

-- The digest of everything is its secret, which decodes to one byte.
abbrev services : Services
services = record {
  print = λ plan. "plan";
  parse = λ text. none;
  crypto = record { digest = λ secret c. secret; decode_hex = λ s. 7 ∷ [] };
  trade_signed = λ trade. true;
}

five_writes : length (run_withdrawal_commit services store request).writes ≡ 5
unfolding run_withdrawal_commit choose_plan fresh_plan trades_stage lots_stage entry_stage
    overdraw_check ◌then_run◌ withdrawal_commit_already_recorded
    prepare_signed_withdrawal_ledger_entry select_signed_withdrawal_nav
    select_latest_contribution_nav first_close all_dates select_contribution_nav_snapshot
    dates_descending insert_date the_only_close is_valid_close has_source slot_of lt_codes trim
    is_date to_lower to_upper calculate_investor_ledger_entry build_investor_ledger_entry choose_nav
    units_for matched_entries entry_matches_investor resolved_id is_conflicting normalize_email
    default_investor_id compute_investor_ledger_hmac canonical investor_ledger_entry_hmac_matches
    hmac_matches ◌+ℤ◌ ◌-ℤ◌ ◌*ℤ◌ round_div round4 round2 round2_product round_shares
    build_withdrawal_commit_plan validate_withdrawal_commit_plan plan_sales planned_trade
    consume_for_plan set_transitions set_transition normalized_sales normalized_sale
    consume_lots_fifo candidate_lots is_candidate sort_lots insert_lot sort_key drain reduced
    consumption apply_lot_updates by_id reconcile_withdrawal_lot_transitions settle_states
    transition_states transition_state row_state row_by_id same_lot
five_writes = refl

run_withdrawal_commit_order_example :
    staged 0 5 (run_withdrawal_commit services store request).writes ≡ true
run_withdrawal_commit_order_example = run_withdrawal_commit_order services store request

run_withdrawal_commit-plan_first_example :
    opens_with_plan "w1" (run_withdrawal_commit services store request).writes ≡ true
run_withdrawal_commit-plan_first_example =
    run_withdrawal_commit-plan_first services store request refl

run_withdrawal_commit-Guarded_example :
    All (Guarded services store request) (run_withdrawal_commit services store request).writes
run_withdrawal_commit-Guarded_example = run_withdrawal_commit-Guarded services store request

abbrev sold : LotRow
sold = record lot_row { lot = record lot_row.lot { shares_open = whole 17 } }

abbrev selling : List Transition
selling = record { before = lot_row.lot; after = sold.lot } ∷ []

lots_updated : reconcile_withdrawal_lot_transitions (lot_row ∷ []) selling ≡ ok (sold ∷ [])
unfolding reconcile_withdrawal_lot_transitions settle_states transition_states transition_state
    row_state row_by_id same_lot
lots_updated = refl

lots_done : reconcile_withdrawal_lot_transitions (sold ∷ []) selling ≡ ok []
unfolding reconcile_withdrawal_lot_transitions settle_states transition_states transition_state
    row_state row_by_id same_lot
lots_done = refl

reconcile_withdrawal_lot_transitions-Settles_example : Settles (lot_row ∷ []) selling (sold ∷ [])
reconcile_withdrawal_lot_transitions-Settles_example =
    reconcile_withdrawal_lot_transitions-Settles (lot_row ∷ []) selling (sold ∷ []) lots_updated
