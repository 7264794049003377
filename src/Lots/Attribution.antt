-- ===== src/Lots/Attribution.antt =====
-- lib/agent-attribution.js: which signed proposal a broker fill fulfils.
use portfolio_manager.Base.{
  String, Bool, true, false, not, ◌&&◌, Option, none, some, List, [], ◌∷◌, filter, if◌then◌else◌,
}
use portfolio_manager.Base.Int.{ℤ, pos, ◌*ℤ◌, ◌-ℤ◌, ltb_ℤ, leb_ℤ, eqb_ℤ, abs_ℤ}
use portfolio_manager.Base.Money.{Num, Number, not_a_number, below_all, above_all, finite}
use portfolio_manager.Base.Text.{◌=s=◌, is_empty}
use portfolio_manager.Lots.Lot.{lot_unattributed}

pub record Proposal : Type 0 where
  pub id : String
  pub agent_id : String
  pub ticker : String
  pub side : String
  pub amount_dollars : ℤ
  pub max_price : Option ℤ
  pub decision_hmac : Option String

pub record Trade : Type 0 where
  pub ticker : String
  pub side : String
  pub shares : Num
  pub price : Number
  pub amount : Number
  pub date : String
  pub ref_id : Option String

pub record Attribution : Type 0 where
  pub agent_id : String
  pub proposal_id : Option String

abbrev pub unattributed : Attribution
unattributed = record { agent_id = lot_unattributed; proposal_id = none }

-- JavaScript's truth of a string that may be missing
abbrev pub is_given : Option String → Bool
is_given none = false
is_given (some s) = not (is_empty s)

-- `trade.price > p.maxPrice * (1 + PRICE_TOLERANCE_PCT)`, as 100 price > 105 maxPrice.
unfoldable pub over_max_price : Number → Option ℤ → Bool
over_max_price price none = false
over_max_price not_a_number (some limit) = false
over_max_price below_all (some limit) = false
over_max_price above_all (some limit) = true
over_max_price (finite price) (some limit) = ltb_ℤ (pos 105 *ℤ limit) (pos 100 *ℤ price)

-- `Math.abs(amount - dollars) / dollars <= AMOUNT_TOLERANCE_PCT`, multiplied out: a zero divisor
-- gives an infinity or NaN, and a negative one a quotient that is not positive; an infinite amount
-- gives an infinity of the divisor's sign.
unfoldable pub amount_within : Number → ℤ → Bool
amount_within not_a_number dollars = false
amount_within below_all dollars = ltb_ℤ dollars (pos 0)
amount_within above_all dollars = ltb_ℤ dollars (pos 0)
amount_within (finite amount) dollars =
    if eqb_ℤ dollars (pos 0)
    then false
    else if ltb_ℤ dollars (pos 0)
    then true
    else leb_ℤ (pos 100 *ℤ abs_ℤ (amount -ℤ dollars)) (pos 15 *ℤ dollars)

-- `verify` is the `verifySignature` option, of which a missing one refuses everything.
unfoldable pub verifies : Option (Proposal → Bool) → Proposal → Bool
verifies none p = false
verifies (some verify) p = verify p

unfoldable pub names_proposal : Option (Proposal → Bool) → Trade → String → Proposal → Bool
names_proposal verify trade ref_id p =
    p.id =s= ref_id
    && is_given p.decision_hmac
    && verifies verify p
    && p.ticker =s= trade.ticker
    && p.side =s= trade.side

unfoldable pub in_tolerance : Trade → Proposal → Bool
in_tolerance trade p =
    if over_max_price trade.price p.max_price
    then false
    else amount_within trade.amount p.amount_dollars

-- `exact.length !== 1`, and the one proposal otherwise
abbrev pub only_one : List Proposal → Attribution
only_one [] = unattributed
only_one (p ∷ []) = record { agent_id = p.agent_id; proposal_id = some p.id }
only_one (p ∷ (q ∷ ps)) = unattributed

unfoldable pub match_by_ref :
    Option (Proposal → Bool) → Trade → String → List Proposal → Attribution
match_by_ref verify trade ref_id open_proposals =
    only_one
      (filter (in_tolerance trade) (filter (names_proposal verify trade ref_id) open_proposals))

-- `if (!trade.refId) return`
unfoldable pub match_reference :
    Option (Proposal → Bool) → Trade → List Proposal → Option String → Attribution
match_reference verify trade open_proposals none = unattributed
match_reference verify trade open_proposals (some ref_id) =
    if is_empty ref_id then unattributed else match_by_ref verify trade ref_id open_proposals

unfoldable pub match_trade_to_approved_proposal :
    Trade → List Proposal → Option (Proposal → Bool) → Attribution
match_trade_to_approved_proposal trade open_proposals verify =
    match_reference verify trade open_proposals trade.ref_id
