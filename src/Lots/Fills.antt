-- ===== src/Lots/Fills.antt =====
-- lib/fill-processing.js: what to write for the fills that the broker reports.
use portfolio_manager.Base.{
  String, Bool, true, false, not, ◌&&◌, ◌||◌, Option, none, some, List, [], ◌∷◌, ◌++◌, filter,
  if◌then◌else◌, Outcome, ok, thrown, ◌>>=◌,
}
use portfolio_manager.Base.Int.{ℤ}
use portfolio_manager.Base.Money.{Num, Number, finite_part}
use portfolio_manager.Base.Text.{◌=s=◌, is_empty}
use portfolio_manager.Lots.Lot.{Lot, LotError, lot_unattributed, open_lot, apply_lot_updates}
use portfolio_manager.Lots.Fifo.{Sale, consume_lots_fifo}
use portfolio_manager.Lots.Owned.{consume_owned_lots_fifo}
use portfolio_manager.Lots.Attribution.{
  Proposal, Trade, Attribution, match_trade_to_approved_proposal,
}

-- `uuid` is the lot id that `openLot` would draw for this fill.
pub record Fill : Type 0 where
  pub order_id : Option String
  pub ref_id : Option String
  pub ticker : String
  pub side : String
  pub shares : Num
  pub price : Number
  pub amount : Number
  pub date : String
  pub uuid : String

pub record TradeRow : Type 0 where
  pub date : String
  pub ticker : String
  pub side : String
  pub shares : Num
  pub price : Number
  pub amount : Number
  pub order_id : Option String
  pub agent_id : String
  pub proposal_id : Option String
  pub needs_reconciliation : Bool
  pub realized_gain : Option ℤ

-- The two warnings, with the ticker and the error that they print.
pub data Warning : Type 0 where
  needs_reconciliation fifo_not_applied : String → LotError → Warning

pub record Context : Type 0 where
  pub enforce_ownership : Bool
  pub verify_signature : Option (Proposal → Bool)

-- The variables of the loop over the fresh fills.
pub record Progress : Type 0 where
  pub working_lots : List Lot
  pub candidates : List Proposal
  pub new_lots : List Lot
  pub trade_rows : List TradeRow
  pub warnings : List Warning
  pub lot_updates : List Lot

-- `seenOrderIds.has(s)`
unfoldable pub contains : String → List String → Bool
contains s [] = false
contains s (t ∷ ts) = t =s= s || contains s ts

-- The filter that skips what the Trade Ledger, or this batch, has seen; the pair is
-- (freshFills, skipped).
unfoldable pub is_seen : List String → Option String → Bool
is_seen seen none = false
is_seen seen (some order_id) = if is_empty order_id then false else contains order_id seen

-- `if (f.orderId) seenOrderIds.add(f.orderId);`
unfoldable pub see : Option String → List String → List String
see none seen = seen
see (some order_id) seen = if is_empty order_id then seen else order_id ∷ seen

unfoldable pub split_fresh : List String → List Fill → List Fill × List Fill
split_fresh seen [] = ([], [])
split_fresh seen (f ∷ fs) =
    let skip = is_seen seen f.order_id in
    let rest = split_fresh (if skip then seen else see f.order_id seen) fs in
    if skip then (rest.0, f ∷ rest.1) else (f ∷ rest.0, rest.1)

-- `lotUpdatesById.set(updated.lotId, updated)`: a key keeps its place in the map.
unfoldable pub set_by_id : Lot → List Lot → List Lot
set_by_id u [] = u ∷ []
set_by_id u (m ∷ ms) = if m.lot_id =s= u.lot_id then u ∷ ms else m ∷ set_by_id u ms

unfoldable pub set_all_by_id : List Lot → List Lot → List Lot
set_all_by_id [] ms = ms
set_all_by_id (u ∷ us) ms = set_all_by_id us (set_by_id u ms)

abbrev pub trade_of : Fill → Trade
trade_of fill = record {
  ticker = fill.ticker;
  side = fill.side;
  shares = fill.shares;
  price = fill.price;
  amount = fill.amount;
  date = fill.date;
  ref_id = fill.ref_id;
}

abbrev pub trade_row : Fill → Attribution → Bool → Option ℤ → TradeRow
trade_row fill a needs gain = record {
  date = fill.date;
  ticker = fill.ticker;
  side = fill.side;
  shares = fill.shares;
  price = fill.price;
  amount = fill.amount;
  order_id = fill.order_id;
  agent_id = a.agent_id;
  proposal_id = a.proposal_id;
  needs_reconciliation = needs;
  realized_gain = gain;
}

-- `candidates.filter((p) => p.id !== proposalId)`, when there is one
unfoldable pub drop_matched : Option String → List Proposal → List Proposal
drop_matched none ps = ps
drop_matched (some id) ps = if is_empty id then ps else filter (λ p. not (p.id =s= id)) ps

-- What a SELL that was consumed, or was not, adds.
unfoldable pub after_sale : Fill → Attribution → Bool → Progress → Outcome LotError Sale → Progress
after_sale fill a owned p (ok sale) = record p {
  working_lots = apply_lot_updates p.working_lots sale.updated_lots;
  lot_updates = set_all_by_id sale.updated_lots p.lot_updates;
  trade_rows = p.trade_rows ++ (trade_row fill a false (some sale.realized_gain) ∷ []);
}
after_sale fill a true p (thrown e) = record p {
  warnings = p.warnings ++ (Warning.needs_reconciliation fill.ticker e ∷ []);
  trade_rows = p.trade_rows ++ (trade_row fill a true none ∷ []);
}
after_sale fill a false p (thrown e) = record p {
  warnings = p.warnings ++ (fifo_not_applied fill.ticker e ∷ []);
  trade_rows = p.trade_rows ++ (trade_row fill a false none ∷ []);
}

-- `enforceOwnership && agentId && agentId !== LOT_UNATTRIBUTED`
unfoldable pub is_owned_sale : Bool → String → Bool
is_owned_sale enforce agent_id =
    enforce && not (is_empty agent_id) && not (agent_id =s= lot_unattributed)

unfoldable pub sell_fill : Context → Fill → Attribution → Progress → Progress
sell_fill c fill a p =
    let owned = is_owned_sale c.enforce_ownership a.agent_id in
    after_sale fill a owned p (
      if owned
      then consume_owned_lots_fifo p.working_lots fill.ticker a.agent_id fill.shares
          (finite_part fill.price)
      else consume_lots_fifo p.working_lots fill.ticker fill.shares (finite_part fill.price))

unfoldable pub buy_fill : Fill → Attribution → Progress → Outcome LotError Progress
buy_fill fill a p = do
  lot ←
      open_lot fill.ticker fill.shares (finite_part fill.price) fill.date (some a.agent_id) none
        fill.uuid
  ok (record p {
    new_lots = p.new_lots ++ (lot ∷ []);
    working_lots = p.working_lots ++ (lot ∷ []);
    trade_rows = p.trade_rows ++ (trade_row fill a false none ∷ []);
  })

-- One round of the loop; an invalid BUY throws out of the whole plan.
unfoldable pub process_fill : Context → Fill → Progress → Outcome LotError Progress
process_fill c fill p =
    let a = match_trade_to_approved_proposal (trade_of fill) p.candidates c.verify_signature in
    let matched = record p { candidates = drop_matched a.proposal_id p.candidates } in
    if fill.side =s= "BUY"
    then buy_fill fill a matched
    else if fill.side =s= "SELL"
    then ok (sell_fill c fill a matched)
    else ok (record matched { trade_rows = p.trade_rows ++ (trade_row fill a false none ∷ []) })

unfoldable pub process_fills : Context → List Fill → Progress → Outcome LotError Progress
process_fills c [] p = ok p
process_fills c (fill ∷ fills) p = process_fill c fill p >>= process_fills c fills

pub record FillPlan : Type 0 where
  pub fresh_fills : List Fill
  pub skipped : List Fill
  pub trade_rows : List TradeRow
  pub new_lots : List Lot
  pub lot_updates : List Lot
  pub warnings : List Warning

unfoldable pub plan_fill_processing :
    Context → List Fill → List String → List Proposal → List Lot → Outcome LotError FillPlan
plan_fill_processing c fills existing_order_ids open_proposals lots = do
  let split = split_fresh existing_order_ids fills
  p ← process_fills c split.0 (record {
    working_lots = lots;
    candidates = open_proposals;
    new_lots = [];
    trade_rows = [];
    warnings = [];
    lot_updates = [];
  })
  ok (record {
    fresh_fills = split.0;
    skipped = split.1;
    trade_rows = p.trade_rows;
    new_lots = p.new_lots;
    lot_updates = p.lot_updates;
    warnings = p.warnings;
  })
