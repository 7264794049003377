-- ===== src/Lots/Owned.antt =====
-- lib/owned-lots.js: a strategy sells only from the lots that it opened.
use portfolio_manager.Base.{String, Bool, ◌&&◌, ◌||◌, List, filter, Outcome, ◌>>=◌, ◌>>◌, throw_if}
use portfolio_manager.Base.Int.{ℤ, pos, ◌+ℤ◌, ltb_ℤ}
use portfolio_manager.Base.Money.{Num, micro}
use portfolio_manager.Base.Text.{◌=s=◌, is_empty}
use portfolio_manager.Lots.Lot.{
  Lot, is_open, lot_unattributed, LotError, owner_not_named, owned_sell_not_positive, not_owned,
  require_positive,
}
use portfolio_manager.Lots.Fifo.{Sale, sum_open, consume_lots_fifo}

unfoldable pub is_owned_candidate : String → String → Lot → Bool
is_owned_candidate ticker agent_id lot =
    lot.ticker =s= ticker
    && is_open lot.status
    && ltb_ℤ (pos 0) lot.shares_open
    && lot.agent_id =s= agent_id

unfoldable pub owned_open_shares : List Lot → String → String → ℤ
owned_open_shares open_lots ticker agent_id =
    sum_open (filter (is_owned_candidate ticker agent_id) open_lots)

-- An empty text is JavaScript's `!agentId`.
unfoldable pub assert_agent_owns_shares :
    List Lot → String → String → Num → Outcome LotError (Unit {0})
assert_agent_owns_shares open_lots ticker agent_id shares_to_sell = do
  throw_if (is_empty agent_id || agent_id =s= lot_unattributed) owner_not_named
  wanted ← require_positive shares_to_sell owned_sell_not_positive
  throw_if (ltb_ℤ (owned_open_shares open_lots ticker agent_id +ℤ micro) wanted) not_owned

abbrev pub owned_by : String → Lot → Bool
owned_by agent_id lot = lot.agent_id =s= agent_id

unfoldable pub consume_owned_lots_fifo :
    List Lot → String → String → Num → Num → Outcome LotError Sale
consume_owned_lots_fifo open_lots ticker agent_id shares_to_sell sell_price = do
  assert_agent_owns_shares open_lots ticker agent_id shares_to_sell
  consume_lots_fifo (filter (owned_by agent_id) open_lots) ticker shares_to_sell sell_price
