-- ===== src/Tests/LotRuns.antt =====
-- Lots, fills and attributions: the code on small inputs, and the theorems at them.
use portfolio_manager.Base.{
  ℕ, ◌≤◌, String, Bool, true, Option, some, List, [], ◌∷◌, ◌≡◌, refl, inl, inr, map, arith, eq_iff,
  Outcome, ok, thrown, if◌then◌else◌,
}
use Prim.Native.Nat.{min}
use portfolio_manager.Base.Int.{pos, ◌+ℤ◌, ◌-ℤ◌, ◌*ℤ◌}
use portfolio_manager.Base.Money.{finite, above_all, whole, round_shares}
use portfolio_manager.Base.Text.{lt_codes}
use portfolio_manager.Lots.Lot.{
  Lot, still_open, closed, LotError, short_of_shares, updated_or_same, apply_lot_updates, open_lot,
}
use portfolio_manager.Lots.Fifo.{
  Sale, consume_lots_fifo, candidate_lots, is_candidate, sort_lots, insert_lot, sort_key, sum_open,
  drain, reduced,
}
use portfolio_manager.Lots.Distinct.{Distinct}
use portfolio_manager.Lots.Conservation.{SharesOnGrid, consume_lots_fifo-conserves}
use portfolio_manager.Lots.FifoOrder.{TakenInOrder, drain_in_order}
use portfolio_manager.Lots.Owned.{
  consume_owned_lots_fifo, assert_agent_owns_shares, owned_open_shares, is_owned_candidate,
}
use portfolio_manager.Lots.Ownership.{consume_owned_lots_fifo-others}
use portfolio_manager.Lots.Attribution.{
  Proposal, unattributed, match_trade_to_approved_proposal, match_reference, match_by_ref,
  names_proposal, in_tolerance, verifies, over_max_price, amount_within,
}
use portfolio_manager.Lots.Matching.{Vouches, match_trade-Vouches}
use portfolio_manager.Lots.Fills.{
  Fill, FillPlan, TradeRow, Context, contains, is_seen, see, split_fresh, plan_fill_processing,
  process_fills, process_fill, buy_fill, trade_of,
}
use portfolio_manager.Lots.Booking.{count_order, split_fresh_once, plan_fill_processing_rows}
use portfolio_manager.Lots.Fulfilment.{uses, plan_fill_processing_fulfils_once}

abbrev lot : String → String → String → ℕ → ℕ → Lot
lot id date agent cost n = record {
  lot_id = id;
  ticker = "AAA";
  open_date = date;
  agent_id = agent;
  cost_per_share = whole cost;
  shares_original = whole n;
  shares_open = whole n;
  status = still_open;
}

-- The second lot is the older one.
abbrev book : List Lot
book = lot "x" "2026-02-01" "agent-1" 10 20 ∷ lot "y" "legacy" "agent-2" 5 10 ∷ []

abbrev sale_updates : Outcome LotError Sale → List Lot
sale_updates (ok sale) = sale.updated_lots
sale_updates (thrown e) = []

oldest_first :
    sale_updates (consume_lots_fifo book "AAA" (some (whole 15)) (some (whole 12)))
    ≡ record (lot "y" "legacy" "agent-2" 5 10) { shares_open = pos 0; status = closed }
      ∷ record (lot "x" "2026-02-01" "agent-1" 10 20) { shares_open = whole 15 }
      ∷ []
unfolding consume_lots_fifo candidate_lots is_candidate sort_lots insert_lot sort_key lt_codes drain
    reduced round_shares ◌+ℤ◌ ◌-ℤ◌
oldest_first = refl

oversell : consume_lots_fifo book "AAA" (some (whole 31)) (some (whole 12)) ≡ thrown short_of_shares
unfolding consume_lots_fifo candidate_lots is_candidate sort_lots insert_lot sort_key lt_codes ◌+ℤ◌
oversell = refl

book-Distinct : Distinct book
book-Distinct = (((ground (arith, eq_iff "y" "x")), tt), (tt, tt))

book_on_grid : SharesOnGrid book
book_on_grid = omega arith

consume_lots_fifo-conserves_example :
    sum_open (
        apply_lot_updates book
          (sale_updates (consume_lots_fifo book "AAA" (some (whole 15)) (some (whole 12)))))
      +ℤ whole 15
    ≡ sum_open book
unfolding consume_lots_fifo candidate_lots is_candidate sort_lots insert_lot sort_key lt_codes ◌+ℤ◌
consume_lots_fifo-conserves_example =
    consume_lots_fifo-conserves book "AAA" (whole 15) (whole 12) book-Distinct book_on_grid
      (omega arith) (omega arith) refl

drain_in_order_example : TakenInOrder book (drain "AAA" (whole 12) book (whole 25)).updated_lots
drain_in_order_example = drain_in_order "AAA" (whole 12) book (whole 25)

consume_owned_lots_fifo-others_example :
    updated_or_same
      (sale_updates
        (consume_owned_lots_fifo book "AAA" "agent-1" (some (whole 5)) (some (whole 12))))
      (lot "y" "legacy" "agent-2" 5 10)
    ≡ lot "y" "legacy" "agent-2" 5 10
unfolding consume_owned_lots_fifo assert_agent_owns_shares owned_open_shares is_owned_candidate
    consume_lots_fifo candidate_lots is_candidate sort_lots insert_lot sort_key lt_codes ◌+ℤ◌
consume_owned_lots_fifo-others_example =
    consume_owned_lots_fifo-others book "AAA" "agent-1" (whole 5) (whole 12)
      (lot "y" "legacy" "agent-2" 5 10) book-Distinct (inr (inl refl))
      (ground (arith, eq_iff "agent-2" "agent-1")) refl

abbrev proposal : Proposal
proposal = record {
  id = "p1";
  agent_id = "agent-1";
  ticker = "AAA";
  side = "BUY";
  amount_dollars = whole 100;
  max_price = some (whole 10);
  decision_hmac = some "sig";
}

abbrev fill : String → Fill
fill order = record {
  order_id = some order;
  ref_id = some "p1";
  ticker = "AAA";
  side = "BUY";
  shares = some (whole 10);
  price = finite (whole 10);
  amount = finite (whole 100);
  date = "2026-03-01";
  uuid = order;
}

abbrev accept : Option (Proposal → Bool)
accept = some (λ p. true)

match_trade-Vouches_example :
    (p : Proposal) × (p.id ≡ "p1")
    × (p.agent_id
        ≡ (match_trade_to_approved_proposal (trade_of (fill "o1")) (proposal ∷ []) accept).agent_id)
    × Vouches accept (trade_of (fill "o1")) (proposal ∷ []) p
unfolding match_trade_to_approved_proposal match_reference match_by_ref names_proposal in_tolerance
    verifies over_max_price amount_within ◌-ℤ◌ ◌*ℤ◌
match_trade-Vouches_example =
    match_trade-Vouches accept (trade_of (fill "o1")) (proposal ∷ []) "p1" refl

refuses_infinite_price :
    match_trade_to_approved_proposal
      (record (trade_of (fill "o1")) { price = above_all })
      (proposal ∷ [])
      accept
    ≡ unattributed
unfolding match_trade_to_approved_proposal match_reference match_by_ref names_proposal verifies
    in_tolerance over_max_price
refuses_infinite_price = refl

-- The same order twice, and one that is already in the Trade Ledger.
abbrev batch : List Fill
batch = fill "o1" ∷ fill "o1" ∷ fill "o9" ∷ []

split_fresh_once_example :
    count_order "o1" (split_fresh ("o9" ∷ []) batch).0
    ≡ (if contains "o1" ("o9" ∷ []) then 0 else min 1 (count_order "o1" batch))
split_fresh_once_example = split_fresh_once "o1" ("o9" ∷ []) batch refl

abbrev context : Context
context = record { enforce_ownership = true; verify_signature = accept }

abbrev plan_of : Outcome LotError FillPlan → FillPlan
plan_of (ok p) = p
plan_of (thrown e) = record {
  fresh_fills = [];
  skipped = [];
  trade_rows = [];
  new_lots = [];
  lot_updates = [];
  warnings = [];
}

abbrev planned : FillPlan
planned = plan_of (plan_fill_processing context batch ("o9" ∷ []) (proposal ∷ []) [])

plan_fill_processing_rows_example :
    (map (λ (r : TradeRow). r.order_id) planned.trade_rows
      ≡ map (λ (f : Fill). f.order_id) planned.fresh_fills)
    × (planned.fresh_fills ≡ (split_fresh ("o9" ∷ []) batch).0)
    × (planned.skipped ≡ (split_fresh ("o9" ∷ []) batch).1)
unfolding plan_fill_processing split_fresh is_seen see contains process_fills process_fill buy_fill
    open_lot
plan_fill_processing_rows_example =
    plan_fill_processing_rows context batch ("o9" ∷ []) (proposal ∷ []) [] refl

plan_fill_processing_fulfils_once_example : uses "p1" planned.trade_rows ≤ 1
unfolding plan_fill_processing split_fresh is_seen see contains process_fills process_fill buy_fill
    open_lot
plan_fill_processing_fulfils_once_example =
    plan_fill_processing_fulfils_once "p1" context batch ("o9" ∷ []) (proposal ∷ []) [] refl refl
