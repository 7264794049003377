-- ===== src/Lots/Lot.antt =====
-- A lot, `openLot` and `applyLotUpdates` (lib/tax-lots.js, contracts/lot.js).
use portfolio_manager.Base.{
  String, Bool, true, false, Option, none, some, List, [], ◌∷◌, map, if◌then◌else◌, or_else,
}
use portfolio_manager.Base.{Outcome, ok, thrown, ◌>>=◌}
use portfolio_manager.Base.Int.{ℤ, pos, leb_ℤ, ltb_ℤ}
use portfolio_manager.Base.Money.{Num, round4, round_shares}
use portfolio_manager.Base.Text.{◌=s=◌, is_empty}

-- `"OPEN"` and `"CLOSED"`
pub data LotStatus : Type 0 where
  still_open closed : LotStatus

abbrev pub is_open : LotStatus → Bool
is_open still_open = true
is_open closed = false

abbrev pub lot_unattributed : String
lot_unattributed = "unattributed"

pub record Lot : Type 0 where
  pub lot_id : String
  pub ticker : String
  pub open_date : String
  pub agent_id : String
  pub cost_per_share : ℤ
  pub shares_original : ℤ
  pub shares_open : ℤ
  pub status : LotStatus

-- The `throw`s of the lot functions.
pub data LotError : Type 0 where
  shares_not_positive cost_negative : LotError
  sell_not_positive sell_price_negative short_of_shares : LotError
  owner_not_named owned_sell_not_positive not_owned : LotError

-- `if (!Number.isFinite(x) || x <= 0) throw e;`, and the number that is left.
abbrev pub require_positive {ℓ} : {E : Type ℓ} → Num → E → Outcome E ℤ
require_positive none e = thrown e
require_positive (some x) e = if leb_ℤ x (pos 0) then thrown e else ok x

-- `if (!Number.isFinite(x) || x < 0) throw e;`
abbrev pub require_nonneg {ℓ} : {E : Type ℓ} → Num → E → Outcome E ℤ
require_nonneg none e = thrown e
require_nonneg (some x) e = if ltb_ℤ x (pos 0) then thrown e else ok x

-- `s || d` for a string that may be missing
abbrev pub text_or : Option String → String → String
text_or none d = d
text_or (some s) d = if is_empty s then d else s

-- `uuid` is what `randomUUID()` returns.
unfoldable pub open_lot :
    (ticker : String) (shares cost_per_share : Num) (date : String)
    (agent_id lot_id : Option String) (uuid : String)
    → Outcome LotError Lot
open_lot ticker shares cost_per_share date agent_id lot_id uuid = do
  n ← require_positive shares shares_not_positive
  cost ← require_nonneg cost_per_share cost_negative
  ok (record {
    lot_id = text_or lot_id uuid;
    ticker = ticker;
    open_date = date;
    agent_id = text_or agent_id lot_unattributed;
    cost_per_share = round4 cost;
    shares_original = round_shares n;
    shares_open = round_shares n;
    status = still_open;
  })

-- `new Map(updatedLots.map((lot) => [lot.lotId, lot])).get(id)`: the last entry of an id counts.
unfoldable pub by_id : List Lot → String → Option Lot
by_id [] id = none
by_id (u ∷ us) id = elim (by_id us id) [
  | some later ↦ some later
  | none ↦ if u.lot_id =s= id then some u else none
]

abbrev pub updated_or_same : List Lot → Lot → Lot
updated_or_same updated lot = or_else (by_id updated lot.lot_id) lot

unfoldable pub apply_lot_updates : List Lot → List Lot → List Lot
apply_lot_updates lots updated = map (updated_or_same updated) lots
