-- ===== src/Risk/Validity.antt =====
-- When an approval still applies (`checkApprovalStillValid`).
use portfolio_manager.Base.{
  true, false, Option, none, some, ◌≡◌, refl, ◌⊎◌, inl, inr, ◌↔◌, arith, eq_iff,
}
use portfolio_manager.Base.Int.{ℤ, pos, ◌+ℤ◌, ◌*ℤ◌, ◌≤ℤ◌, ◌<ℤ◌}
use portfolio_manager.Base.Money.{Num, micro, nano, whole}
use portfolio_manager.Base.Text.{◌=s=◌}
use portfolio_manager.Risk.Approval.{
  Approved, Current, still_valid, half_cent, cash_short, above_limit, shares_short, below_floor,
  check_approval_still_valid,
}

-- A reading, if there is one, is within a bound, if there is one.
abbrev Within {ℓ} : (ℤ → ℤ → Type ℓ) → Num → Option ℤ → Type ℓ
Within R none b = Unit
Within R (some a) none = Unit
Within R (some a) (some b) = R a b

-- The cash that a BUY reserved is there, to half a cent, and the quote is not above its limit.
pub record BuyApplies (p : Approved) (c : Current) : Type 0 where
  pub funded :
      Within (λ cash amount. amount ≤ℤ cash +ℤ half_cent) c.cash_available (some p.amount_dollars)
  pub priced : Within (λ quote limit. quote ≤ℤ limit +ℤ nano) c.quote p.max_price

-- The shares held, at a positive floor price, are worth the amount, and the quote is not below it.
pub record SellApplies (p : Approved) (c : Current) : Type 0 where
  pub held :
      Within
        (λ shares floor. pos 0 <ℤ floor → p.amount_dollars *ℤ whole 1 ≤ℤ (shares +ℤ micro) *ℤ floor)
        c.owned_shares
        p.max_price
  pub priced : Within (λ quote floor. floor ≤ℤ quote +ℤ nano) c.quote p.max_price

cash_short_iff :
    (cash : Num) (amount : ℤ)
    → (cash_short cash amount ≡ false) ↔ Within (λ c a. a ≤ℤ c +ℤ half_cent) cash (some amount)
unfolding cash_short
cash_short_iff none amount = (λ _. tt, λ _. refl)
cash_short_iff (some cash) amount = (λ h. ground arith, λ h. ground arith)

above_limit_iff :
    (quote : Num) (limit : Option ℤ)
    → (above_limit quote limit ≡ false) ↔ Within (λ q l. q ≤ℤ l +ℤ nano) quote limit
unfolding above_limit
above_limit_iff none none = (λ _. tt, λ _. refl)
above_limit_iff none (some l) = (λ _. tt, λ _. refl)
above_limit_iff (some q) none = (λ _. tt, λ _. refl)
above_limit_iff (some q) (some l) = (λ h. ground arith, λ h. ground arith)

shares_short_iff :
    (shares : Num) (amount : ℤ) (floor : Option ℤ)
    → (shares_short shares amount floor ≡ false)
      ↔ Within (λ s f. pos 0 <ℤ f → amount *ℤ whole 1 ≤ℤ (s +ℤ micro) *ℤ f) shares floor
unfolding shares_short
shares_short_iff none amount none = (λ _. tt, λ _. refl)
shares_short_iff none amount (some f) = (λ _. tt, λ _. refl)
shares_short_iff (some s) amount none = (λ _. tt, λ _. refl)
shares_short_iff (some s) amount (some f) = (λ h k. ground arith, λ h. ground arith)

below_floor_iff :
    (quote : Num) (floor : Option ℤ)
    → (below_floor quote floor ≡ false) ↔ Within (λ q f. f ≤ℤ q +ℤ nano) quote floor
unfolding below_floor
below_floor_iff none none = (λ _. tt, λ _. refl)
below_floor_iff none (some l) = (λ _. tt, λ _. refl)
below_floor_iff (some q) none = (λ _. tt, λ _. refl)
below_floor_iff (some q) (some l) = (λ h. ground arith, λ h. ground arith)

valid_flags :
    (p : Approved) (c : Current)
    → check_approval_still_valid p c ≡ still_valid
    → (p.side =s= "BUY" ≡ true)
        × (cash_short c.cash_available p.amount_dollars ≡ false)
        × (above_limit c.quote p.max_price ≡ false)
      ⊎ (p.side =s= "SELL" ≡ true)
        × (shares_short c.owned_shares p.amount_dollars p.max_price ≡ false)
        × (below_floor c.quote p.max_price ≡ false)
unfolding check_approval_still_valid
valid_flags p c h = ground arith

-- An approval is still valid exactly when it is a BUY that the cash and the quote allow, or a
-- SELL that the shares and the quote allow; a reading that is missing allows, and any other side
-- does not.
pub check_approval_still_valid_iff :
    (p : Approved) (c : Current)
    → (check_approval_still_valid p c ≡ still_valid)
      ↔ ((p.side ≡ "BUY") × BuyApplies p c ⊎ (p.side ≡ "SELL") × SellApplies p c)
unfolding check_approval_still_valid
check_approval_still_valid_iff p c = (
  λ h. elim (valid_flags p c h) [
    | inl (side, funded, priced) ↦ inl (
      (eq_iff p.side "BUY").0 side,
      record {
        funded = (cash_short_iff c.cash_available p.amount_dollars).0 funded;
        priced = (above_limit_iff c.quote p.max_price).0 priced;
      },
    )
    | inr (side, held, priced) ↦ inr (
      (eq_iff p.side "SELL").0 side,
      record {
        held = (shares_short_iff c.owned_shares p.amount_dollars p.max_price).0 held;
        priced = (below_floor_iff c.quote p.max_price).0 priced;
      },
    )
  ],
  λ h. elim h [
    | inl (side, b) ↦ rw side (
        rw (
          (cash_short_iff c.cash_available p.amount_dollars).1 b.funded,
          (above_limit_iff c.quote p.max_price).1 b.priced,
        ))
    | inr (side, b) ↦ rw side (
        rw (
          (shares_short_iff c.owned_shares p.amount_dollars p.max_price).1 b.held,
          (below_floor_iff c.quote p.max_price).1 b.priced,
        ))
  ],
)
