-- ===== src/Lots/Fifo.antt =====
-- `consumeLotsFIFO` (lib/tax-lots.js). Sums and products are exact, and the gain is kept in
-- grains of grains until it is rounded.
use portfolio_manager.Base.{String, Bool, ◌&&◌, List, [], ◌∷◌, if◌then◌else◌, filter}
use portfolio_manager.Base.{Outcome, ok, ◌>>=◌, ◌>>◌, throw_if}
use portfolio_manager.Base.Int.{ℤ, pos, leb_ℤ, ltb_ℤ, min_ℤ, sum_by, ◌+ℤ◌, ◌-ℤ◌, ◌*ℤ◌}
use portfolio_manager.Base.Money.{Num, round_shares, round2_product, micro, nano}
use portfolio_manager.Base.Text.{◌=s=◌, ltb_str}
use portfolio_manager.Lots.Lot.{
  Lot, still_open, closed, is_open, LotError, sell_not_positive, sell_price_negative,
  short_of_shares, require_positive, require_nonneg,
}

abbrev legacy_sort_date : String
legacy_sort_date = "0000-00-00"

unfoldable pub sort_key : Lot → String
sort_key lot = if lot.open_date =s= "legacy" then legacy_sort_date else lot.open_date

-- The stable sort by `sortKey`, as insertion: equal keys keep their order.
unfoldable pub insert_lot : Lot → List Lot → List Lot
insert_lot lot [] = lot ∷ []
insert_lot lot (m ∷ ms) =
    if ltb_str (sort_key m) (sort_key lot) then m ∷ insert_lot lot ms else lot ∷ (m ∷ ms)

unfoldable pub sort_lots : List Lot → List Lot
sort_lots [] = []
sort_lots (lot ∷ lots) = insert_lot lot (sort_lots lots)

unfoldable pub is_candidate : String → Lot → Bool
is_candidate ticker lot =
    lot.ticker =s= ticker && is_open lot.status && ltb_ℤ (pos 0) lot.shares_open

unfoldable pub candidate_lots : List Lot → String → List Lot
candidate_lots open_lots ticker = sort_lots (filter (is_candidate ticker) open_lots)

abbrev pub sum_open : List Lot → ℤ
sum_open = sum_by (λ lot. lot.shares_open)

pub record Consumption : Type 0 where
  pub lot_id : String
  pub ticker : String
  pub shares_consumed : ℤ
  pub cost_per_share : ℤ
  pub proceeds_per_share : ℤ
  pub gain : ℤ
  pub agent_id : String

-- What the loop has built when it ends; `gain` is the exact sum.
pub record Drained : Type 0 where
  pub lots_consumed : List Consumption
  pub gain : ℤ
  pub remaining : ℤ
  pub updated_lots : List Lot

unfoldable pub consumption : String → ℤ → Lot → ℤ → Consumption
consumption ticker price lot from_lot = record {
  lot_id = lot.lot_id;
  ticker = ticker;
  shares_consumed = round_shares from_lot;
  cost_per_share = lot.cost_per_share;
  proceeds_per_share = price;
  gain = round2_product (from_lot *ℤ (price -ℤ lot.cost_per_share));
  agent_id = lot.agent_id;
}

-- `{ ...lot, sharesOpen, status }`
unfoldable pub reduced : Lot → ℤ → Lot
reduced lot from_lot =
    let open_after = round_shares (lot.shares_open -ℤ from_lot) in
    record lot {
      shares_open = open_after;
      status = if leb_ℤ open_after micro then closed else still_open;
    }

-- The loop over the candidates, with its `break`.
unfoldable pub drain : String → ℤ → List Lot → ℤ → Drained
drain ticker price [] remaining = record {
  lots_consumed = [];
  gain = pos 0;
  remaining = remaining;
  updated_lots = [];
}
drain ticker price (lot ∷ lots) remaining =
    let from_lot = min_ℤ lot.shares_open remaining in
    let rest = drain ticker price lots (remaining -ℤ from_lot) in
    let next : Drained = record {
      lots_consumed = consumption ticker price lot from_lot ∷ rest.lots_consumed;
      gain = from_lot *ℤ (price -ℤ lot.cost_per_share) +ℤ rest.gain;
      remaining = rest.remaining;
      updated_lots = reduced lot from_lot ∷ rest.updated_lots;
    } in
    let stop : Drained = record {
      lots_consumed = [];
      gain = pos 0;
      remaining = remaining;
      updated_lots = [];
    } in
    if leb_ℤ remaining nano then stop else next

pub record Sale : Type 0 where
  pub lots_consumed : List Consumption
  pub realized_gain : ℤ
  pub updated_lots : List Lot

unfoldable pub consume_lots_fifo : List Lot → String → Num → Num → Outcome LotError Sale
consume_lots_fifo open_lots ticker shares_to_sell sell_price = do
  wanted ← require_positive shares_to_sell sell_not_positive
  price ← require_nonneg sell_price sell_price_negative
  let candidates = candidate_lots open_lots ticker
  throw_if (ltb_ℤ (sum_open candidates +ℤ micro) wanted) short_of_shares
  let drained = drain ticker price candidates wanted
  ok (record {
    lots_consumed = drained.lots_consumed;
    realized_gain = round2_product drained.gain;
    updated_lots = drained.updated_lots;
  })
