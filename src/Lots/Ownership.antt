-- ===== src/Lots/Ownership.antt =====
-- Which lots a sale of a strategy reaches (`consumeOwnedLotsFIFO`).
use portfolio_manager.Base.{
  String, some, List, ◌≡◌, ◌≢◌, filter, arith, eq_iff, ok, >>=-eq-ok, ap, ◌∙◌,
}
use portfolio_manager.Base.Int.{ℤ}
use portfolio_manager.Base.Money.{Num}
use portfolio_manager.Lots.Lot.{Lot, updated_or_same, lot_unattributed}
use portfolio_manager.Lots.Fifo.{Sale, candidate_lots, consume_lots_fifo, is_candidate}
use portfolio_manager.Lots.Distinct.{Distinct, In, sort_lots-All, dropped-Fresh, by_id-Fresh}
use portfolio_manager.Base.{All-filter}
use portfolio_manager.Lots.Conservation.{drain-Fresh, consume_lots_fifo_updates}
use portfolio_manager.Lots.Owned.{consume_owned_lots_fifo, assert_agent_owns_shares, owned_by}

-- A successful owned sale is a sale from the strategy's own lots.
owned_sale :
    (lots : List Lot) (ticker agent : String) (wanted price : Num) {sale : Sale}
    → consume_owned_lots_fifo lots ticker agent wanted price ≡ ok sale
    → consume_lots_fifo (filter (owned_by agent) lots) ticker wanted price ≡ ok sale
unfolding consume_owned_lots_fifo
owned_sale lots ticker agent wanted price e =
    (>>=-eq-ok (assert_agent_owns_shares lots ticker agent wanted) _ e).2

-- Where no lot id stands twice, a sale for a strategy leaves every lot of another owner, the
-- unattributed ones included, exactly as it was.
pub consume_owned_lots_fifo-others :
    (lots : List Lot) (ticker agent : String) (wanted price : ℤ) (other : Lot) {sale : Sale}
    → Distinct lots
    → In other lots
    → other.agent_id ≢ agent
    → consume_owned_lots_fifo lots ticker agent (some wanted) (some price) ≡ ok sale
    → updated_or_same sale.updated_lots other ≡ other
unfolding candidate_lots
consume_owned_lots_fifo-others lots ticker agent wanted price other d i ne e =
    let own = filter (owned_by agent) lots in
    let fresh =
      dropped-Fresh (owned_by agent) other lots d i (ground (arith, eq_iff other.agent_id agent)) in
    let untouched = drain-Fresh other.lot_id ticker price (candidate_lots own ticker) wanted (
      sort_lots-All (λ m. m.lot_id ≢ other.lot_id) _
        (All-filter (λ m. m.lot_id ≢ other.lot_id) (is_candidate ticker) own fresh)) in
    ap (λ us. updated_or_same us other)
      (consume_lots_fifo_updates own ticker wanted price
        (owned_sale lots ticker agent (some wanted) (some price) e))
    ∙ rw (by_id-Fresh other.lot_id _ untouched)

-- A strategy that is not named, or is the sentinel of unattributed lots, sells nothing.
pub consume_owned_lots_fifo_unnamed :
    (lots : List Lot) (ticker : String) (wanted price : Num) {sale : Sale}
    → consume_owned_lots_fifo lots ticker lot_unattributed wanted price ≢ ok sale
unfolding consume_owned_lots_fifo assert_agent_owns_shares
consume_owned_lots_fifo_unnamed lots ticker wanted price e = ground arith
