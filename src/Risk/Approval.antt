-- ===== src/Risk/Approval.antt =====
-- lib/approval-validity.js: an approval still applies to the state at execution.
use portfolio_manager.Base.{String, Bool, false, ◌&&◌, Option, none, some, if◌then◌else◌}
use portfolio_manager.Base.Int.{ℤ, pos, ◌+ℤ◌, ◌*ℤ◌, ltb_ℤ}
use portfolio_manager.Base.Money.{Num, micro, nano, whole}
use portfolio_manager.Base.Text.{◌=s=◌}

pub record Approved : Type 0 where
  pub side : String
  pub amount_dollars : ℤ
  pub max_price : Option ℤ

-- A missing reading, and one that is not finite, is `none`.
pub record Current : Type 0 where
  pub cash_available : Num
  pub owned_shares : Num
  pub quote : Num

pub data Verdict : Type 0 where
  still_valid : Verdict
  cash_spent price_ran shares_gone price_fell unknown_side : Verdict

-- 0.005 dollars
abbrev pub half_cent : ℤ
half_cent = pos 500_000_000_000

unfoldable pub cash_short : Num → ℤ → Bool
cash_short none amount = false
cash_short (some cash) amount = ltb_ℤ (cash +ℤ half_cent) amount

unfoldable pub above_limit : Num → Option ℤ → Bool
above_limit quote none = false
above_limit none (some limit) = false
above_limit (some quote) (some limit) = ltb_ℤ (limit +ℤ nano) quote

-- `shares + 1e-6 < amountDollars / maxPrice`, for a positive price, multiplied out; a price of
-- zero or less implies no number of shares.
unfoldable pub shares_short : Num → ℤ → Option ℤ → Bool
shares_short shares amount none = false
shares_short none amount (some price) = false
shares_short (some shares) amount (some price) =
    ltb_ℤ (pos 0) price && ltb_ℤ ((shares +ℤ micro) *ℤ price) (amount *ℤ whole 1)

unfoldable pub below_floor : Num → Option ℤ → Bool
below_floor quote none = false
below_floor none (some floor) = false
below_floor (some quote) (some floor) = ltb_ℤ (quote +ℤ nano) floor

unfoldable pub check_approval_still_valid : Approved → Current → Verdict
check_approval_still_valid p current =
    if p.side =s= "BUY"
    then (if cash_short current.cash_available p.amount_dollars
        then cash_spent
        else if above_limit current.quote p.max_price
        then price_ran
        else still_valid)
    else if p.side =s= "SELL"
    then (if shares_short current.owned_shares p.amount_dollars p.max_price
        then shares_gone
        else if below_floor current.quote p.max_price
        then price_fell
        else still_valid)
    else unknown_side
