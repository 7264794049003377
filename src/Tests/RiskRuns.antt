-- ===== src/Tests/RiskRuns.antt =====
-- The breaker, approvals and the risk engine: the code on small inputs, and the theorems at them.
use portfolio_manager.Base.{
  ◌≤◌, true, false, none, some, List, [], ◌∷◌, ◌≡◌, refl, ◌↔◌, ◌⊎◌, arith, All,
}
use portfolio_manager.Base.Int.{pos, ◌+ℤ◌, ◌*ℤ◌, ◌≤ℤ◌}
use portfolio_manager.Base.Money.{Num, whole, nano}
use portfolio_manager.Risk.Breaker.{
  halt, reduce, exits_only, tier_of, drawdown_reaches, apply_breaker_to_proposal, StoredMark,
  reconcile_nav_high_water_mark, positive?,
}
use portfolio_manager.Risk.Restriction.{apply_breaker_restricts, deeper_drawdown_buys_less}
use portfolio_manager.Risk.Ratchet.{
  AtMost, AtMostRows, mark_after, mark_after_ratchets, kept_value, kept_rows, reconcile_ratchets,
  reconcile_issues_iff,
}
use portfolio_manager.Risk.Approval.{Approved, Current, still_valid, check_approval_still_valid}
use portfolio_manager.Risk.Validity.{BuyApplies, SellApplies, check_approval_still_valid_iff}
use portfolio_manager.Risk.Sizing.{buy, sell, hold}
use portfolio_manager.Risk.MandateClamp.{SizingGate, apply_mandate_score_clamp}
use portfolio_manager.Risk.ClampSafety.{Gated, apply_mandate_score_clamp-Gated}
use portfolio_manager.Risk.Engine.{Recommendation, RiskContext, RiskLimits, apply_risk_checks}
use portfolio_manager.Risk.Admission.{
  IsAdmissible, apply_risk_checks_downgrades, apply_risk_checks_buy_iff,
}

drawdown_of_a_fifth :
    (tier_of (pos 20) (pos 100) ≡ halt) × (tier_of (pos 19) (pos 100) ≡ exits_only)
unfolding tier_of drawdown_reaches ◌*ℤ◌
drawdown_of_a_fifth = (refl, refl)

apply_breaker_restricts_example :
    ((apply_breaker_to_proposal reduce "BUY" (pos 500)).amount_dollars ≤ℤ pos 500)
    × (pos 0 ≤ℤ (apply_breaker_to_proposal reduce "BUY" (pos 500)).amount_dollars)
    × ((apply_breaker_to_proposal reduce "BUY" (pos 500)).allowed ≡ false
        → (apply_breaker_to_proposal reduce "BUY" (pos 500)).amount_dollars ≡ pos 0)
apply_breaker_restricts_example = apply_breaker_restricts reduce "BUY" 500

deeper_drawdown_buys_less_example :
    (apply_breaker_to_proposal (tier_of (pos 13) (pos 100)) "BUY" (pos 500)).amount_dollars
    ≤ℤ (apply_breaker_to_proposal (tier_of (pos 9) (pos 100)) "BUY" (pos 500)).amount_dollars
deeper_drawdown_buys_less_example = deeper_drawdown_buys_less 9 13 100 500 (omega arith)

abbrev observations : List Num
observations = some (pos 5) ∷ none ∷ some (pos 9) ∷ some (pos 7) ∷ []

mark_after_ratchets_example :
    AtMost (some (pos 6)) (mark_after observations (some (pos 6)))
    × All (λ c. AtMost (positive? c) (mark_after observations (some (pos 6)))) observations
mark_after_ratchets_example = mark_after_ratchets observations (some (pos 6))

abbrev stored : StoredMark
stored = record { value = some (whole 2); daily_rows = some 7 }

reconcile_ratchets_example :
    AtMost
      (kept_value (some stored))
      (reconcile_nav_high_water_mark (some (whole 1)) (some 9) (some stored)).high_water_mark
    × AtMost
        (positive? (some (whole 1)))
        (reconcile_nav_high_water_mark (some (whole 1)) (some 9) (some stored)).high_water_mark
    × AtMostRows
        (kept_rows (some stored))
        (reconcile_nav_high_water_mark (some (whole 1)) (some 9) (some stored)).daily_rows
    × AtMostRows
        (some 9)
        (reconcile_nav_high_water_mark (some (whole 1)) (some 9) (some stored)).daily_rows
reconcile_ratchets_example = reconcile_ratchets (some (whole 1)) (some 9) (some stored)

reconcile_issues_iff_example :
    ((reconcile_nav_high_water_mark (some (whole 1)) (some 9) (some stored)).issues ≡ [])
    ↔ ((whole 2 ≤ℤ whole 1 +ℤ nano) × (7 ≤ 9))
reconcile_issues_iff_example =
    reconcile_issues_iff (some (whole 1)) (some 9) stored (whole 2) (whole 1) 7 9 refl refl refl
      refl

abbrev approved : Approved
approved = record { side = "SELL"; amount_dollars = whole 100; max_price = some (whole 10) }

abbrev current : Current
current = record { cash_available = none; owned_shares = some (whole 10); quote = some (whole 11) }

check_approval_still_valid_iff_example :
    (check_approval_still_valid approved current ≡ still_valid) ↔ (
      (approved.side ≡ "BUY") × BuyApplies approved current
      ⊎ (approved.side ≡ "SELL") × SellApplies approved current)
check_approval_still_valid_iff_example = check_approval_still_valid_iff approved current

abbrev idea : Recommendation
idea = record {
  action = buy;
  target_weight = some (whole 8);
  risk_count = 1;
  kill_criteria_count = 2;
  confidence = some (whole 1);
}

abbrev situation : RiskContext
situation = record {
  has_sector = true;
  current_sector_weight_pct = whole 20;
  current_position_weight_pct = whole 2;
  is_held_at_loss = false;
  data_stale = false;
  market_cap = some (whole 500);
  avg_dollar_volume = some (whole 500);
  fabricated = false;
}

abbrev limits : RiskLimits
limits = record {
  block_on_stale_data = true;
  prohibit_averaging_down = true;
  require_bear_case = true;
  min_confidence = pos 50_000_000_000_000;
  min_market_cap = some (whole 300);
  min_avg_dollar_volume = none;
  max_position_pct = whole 5;
  max_sub_vertical_pct = none;
  max_sector_pct = whole 25;
}

apply_risk_checks_downgrades_example :
    (((apply_risk_checks idea situation limits).action ≡ buy)
      ⊎ ((apply_risk_checks idea situation limits).action ≡ hold))
    × (((apply_risk_checks idea situation limits).overridden ≡ false)
        ↔ ((apply_risk_checks idea situation limits).action ≡ buy))
    × ((apply_risk_checks idea situation limits).action ≡ sell
        → (apply_risk_checks idea situation limits).target_weight ≡ pos 0)
apply_risk_checks_downgrades_example = apply_risk_checks_downgrades idea situation limits

apply_risk_checks_buy_iff_example :
    ((apply_risk_checks idea situation limits).action ≡ buy) ↔ IsAdmissible idea situation limits
apply_risk_checks_buy_iff_example = apply_risk_checks_buy_iff idea situation limits

-- A tier that ends at two percent of the portfolio.
abbrev small_tier : SizingGate
small_tier = record { eligible = true; ceiling = some (whole 2) }

clamped_idea :
    (apply_mandate_score_clamp true true (some small_tier) idea).0.target_weight ≡ some (whole 2)
unfolding apply_mandate_score_clamp
clamped_idea = refl

apply_mandate_score_clamp-Gated_example :
    Gated true true
      (some small_tier)
      idea
      (apply_mandate_score_clamp true true (some small_tier) idea).0
apply_mandate_score_clamp-Gated_example =
    apply_mandate_score_clamp-Gated true true (some small_tier) idea
