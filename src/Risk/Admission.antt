-- ===== src/Risk/Admission.antt =====
-- What the risk engine admits (`applyRiskChecks`).
use portfolio_manager.Base.{
  ◌<◌, true, false, ◌&&◌, ◌≡◌, ◌≢◌, refl, ◌⊎◌, inl, inr, ◌↔◌, Bool-cases, arith, or_else,
}
use portfolio_manager.Base.Int.{ℤ, pos, ◌+ℤ◌, ◌-ℤ◌, ◌≤ℤ◌, min_ℤ}
use portfolio_manager.Risk.Sizing.{Action, buy, sell, hold}
use portfolio_manager.Risk.Engine.{
  Recommendation, RiskContext, RiskLimits, Stage, stage_checks, same_action, all_ok,
  check_averaging_down, check_bear_case, check_evidence, confidence_fails, check_confidence,
  below_minimum, check_buy, finish_checks, apply_risk_checks,
}

abbrev Downgrades : Stage → Stage → Type 0
Downgrades s t = (t.action ≡ s.action) ⊎ (t.action ≡ hold)

averaging_down-Downgrades :
    (c : RiskContext) (l : RiskLimits) (s : Stage) → Downgrades s (check_averaging_down c l s)
unfolding check_averaging_down
averaging_down-Downgrades c l s = ground arith

bear_case-Downgrades :
    (r : Recommendation) (l : RiskLimits) (s : Stage) → Downgrades s (check_bear_case r l s)
unfolding check_bear_case
bear_case-Downgrades r l s = ground arith

evidence-Downgrades : (c : RiskContext) (s : Stage) → Downgrades s (check_evidence c s)
unfolding check_evidence
evidence-Downgrades c s = ground arith

confidence-Downgrades :
    (r : Recommendation) (l : RiskLimits) (s : Stage) → Downgrades s (check_confidence r l s)
unfolding check_confidence
confidence-Downgrades r l s = ground arith

finish-Downgrades :
    (c : RiskContext) (l : RiskLimits) (w : ℤ) (s : Stage) → Downgrades s (finish_checks c l w s).0
unfolding finish_checks check_buy
finish-Downgrades c l w s = ground arith

Downgrades-trans : (s t u : Stage) → Downgrades s t → Downgrades t u → Downgrades s u
Downgrades-trans s t u h k = ground arith

stage_downgrades :
    (r : Recommendation) (c : RiskContext) (l : RiskLimits)
    → ((stage_checks r c l).action ≡ r.action) ⊎ ((stage_checks r c l).action ≡ hold)
unfolding stage_checks
stage_downgrades r c l =
    let s₀ : Stage = record { action = r.action; checks = all_ok } in
    let s₁ = check_averaging_down c l s₀ in
    let s₂ = check_bear_case r l s₁ in
    let s₃ = check_evidence c s₂ in
    let s₄ = check_confidence r l s₃ in
    Downgrades-trans s₀ s₃ s₄
      (Downgrades-trans s₀ s₂ s₃
        (Downgrades-trans s₀ s₁ s₂ (averaging_down-Downgrades c l s₀) (bear_case-Downgrades r l s₁))
        (evidence-Downgrades c s₂))
      (confidence-Downgrades r l s₃)

same_action_iff : (a b : Action) → (same_action a b ≡ true) ↔ (a ≡ b)
same_action_iff a b = (λ h. ground arith, λ h. ground arith)

finish_weight :
    (c : RiskContext) (l : RiskLimits) (w : ℤ) (s : Stage)
    → s.action ≢ buy
    → (finish_checks c l w s).1 ≡ pos 0
unfolding finish_checks
finish_weight c l w s h = ground arith

-- The engine never upgrades: its action is the agent's, or HOLD, and `overridden` tells which;
-- and a SELL has weight zero.
pub apply_risk_checks_downgrades :
    (r : Recommendation) (c : RiskContext) (l : RiskLimits)
    → let v = apply_risk_checks r c l in
      ((v.action ≡ r.action) ⊎ (v.action ≡ hold))
      × ((v.overridden ≡ false) ↔ (v.action ≡ r.action))
      × (v.action ≡ sell → v.target_weight ≡ pos 0)
unfolding apply_risk_checks
apply_risk_checks_downgrades r c l =
    let w = or_else r.target_weight (pos 0) in
    let s = stage_checks r c l in
    let staged = stage_downgrades r c l in
    let finished = finish-Downgrades c l w s in
    let same = same_action_iff (finish_checks c l w s).0.action r.action in
    let weight = finish_weight c l w s in
    elim (Bool-cases (l.block_on_stale_data && c.data_stale)) [
      | inl e ↦ rw e (inr refl, (λ h. ground arith, λ h. ground arith), λ h. refl)
      | inr e ↦ rw e (
        ground (arith, staged, finished),
        (λ h. ground (arith, same.0), λ h. ground (arith, same.1)),
        λ h. ground (arith, staged, finished, weight),
      )
    ]

-- What a BUY has to satisfy, rule by rule.
pub record IsAdmissible (r : Recommendation) (c : RiskContext) (l : RiskLimits) : Type 0 where
  pub is_buy : r.action ≡ buy
  pub fresh : (l.block_on_stale_data ≡ false) ⊎ (c.data_stale ≡ false)
  pub no_averaging_down :
      (l.prohibit_averaging_down ≡ false)
      ⊎ ((c.current_position_weight_pct ≤ℤ pos 0) ⊎ (c.is_held_at_loss ≡ false))
  pub bear_case : (l.require_bear_case ≡ false) ⊎ (0 < r.risk_count) × (0 < r.kill_criteria_count)
  pub grounded : c.fabricated ≡ false
  pub confident : confidence_fails r.confidence l.min_confidence ≡ false
  pub large_enough : below_minimum l.min_market_cap c.market_cap ≡ false
  pub liquid_enough : below_minimum l.min_avg_dollar_volume c.avg_dollar_volume ≡ false
  pub room_in_sector :
      (c.has_sector ≡ false)
      ⊎ (c.current_sector_weight_pct
            -ℤ c.current_position_weight_pct
            +ℤ min_ℤ (or_else r.target_weight (pos 0)) l.max_position_pct
          ≤ℤ or_else l.max_sub_vertical_pct l.max_sector_pct)

abbrev ThenBuy {ℓ} : Stage → Stage → Type ℓ → Type ℓ
ThenBuy s t P = (t.action ≡ buy) ↔ ((s.action ≡ buy) × P)

averaging_down_iff :
    (c : RiskContext) (l : RiskLimits) (s : Stage)
    → ThenBuy s (check_averaging_down c l s) (
        (l.prohibit_averaging_down ≡ false)
        ⊎ ((c.current_position_weight_pct ≤ℤ pos 0) ⊎ (c.is_held_at_loss ≡ false)))
unfolding check_averaging_down
averaging_down_iff c l s = (λ h. ground arith, λ h. ground arith)

bear_case_iff :
    (r : Recommendation) (l : RiskLimits) (s : Stage)
    → ThenBuy s
        (check_bear_case r l s)
        ((l.require_bear_case ≡ false) ⊎ (0 < r.risk_count) × (0 < r.kill_criteria_count))
unfolding check_bear_case
bear_case_iff r l s = (λ h. ground arith, λ h. ground arith)

evidence_iff : (c : RiskContext) (s : Stage) → ThenBuy s (check_evidence c s) (c.fabricated ≡ false)
unfolding check_evidence
evidence_iff c s = (λ h. ground arith, λ h. ground arith)

confidence_iff :
    (r : Recommendation) (l : RiskLimits) (s : Stage)
    → ThenBuy s (check_confidence r l s) (confidence_fails r.confidence l.min_confidence ≡ false)
unfolding check_confidence
confidence_iff r l s = (λ h. ground arith, λ h. ground arith)

abbrev RoomInSector : RiskContext → RiskLimits → ℤ → Type 0
RoomInSector c l w =
    (c.has_sector ≡ false)
    ⊎ (c.current_sector_weight_pct -ℤ c.current_position_weight_pct +ℤ min_ℤ w l.max_position_pct
        ≤ℤ or_else l.max_sub_vertical_pct l.max_sector_pct)

finish_iff :
    (c : RiskContext) (l : RiskLimits) (w : ℤ) (s : Stage)
    → ThenBuy s (finish_checks c l w s).0 (
        (below_minimum l.min_market_cap c.market_cap ≡ false)
        × (below_minimum l.min_avg_dollar_volume c.avg_dollar_volume ≡ false)
        × RoomInSector c l w)
unfolding finish_checks check_buy
finish_iff c l w s = (λ h. ground arith, λ h. ground arith)

stage_iff :
    (r : Recommendation) (c : RiskContext) (l : RiskLimits)
    → ((stage_checks r c l).action ≡ buy) ↔ (
        (r.action ≡ buy)
        × ((l.prohibit_averaging_down ≡ false)
            ⊎ ((c.current_position_weight_pct ≤ℤ pos 0) ⊎ (c.is_held_at_loss ≡ false)))
        × ((l.require_bear_case ≡ false) ⊎ (0 < r.risk_count) × (0 < r.kill_criteria_count))
        × (c.fabricated ≡ false)
        × (confidence_fails r.confidence l.min_confidence ≡ false))
unfolding stage_checks
stage_iff r c l =
    let s₀ : Stage = record { action = r.action; checks = all_ok } in
    let s₁ = check_averaging_down c l s₀ in
    let s₂ = check_bear_case r l s₁ in
    let s₃ = check_evidence c s₂ in
    let a = averaging_down_iff c l s₀ in
    let b = bear_case_iff r l s₁ in
    let e = evidence_iff c s₂ in
    let f = confidence_iff r l s₃ in
    (
      λ h.
          let (h₃, sure) = f.0 h in
          let (h₂, sound) = e.0 h₃ in
          let (h₁, bear) = b.0 h₂ in let (h₀, down) = a.0 h₁ in (h₀, down, bear, sound, sure),
      λ h. f.1 (e.1 (b.1 (a.1 (h.0, h.1), h.2), h.3), h.4),
    )

-- A BUY comes out of the engine exactly when every rule is met.
pub apply_risk_checks_buy_iff :
    (r : Recommendation) (c : RiskContext) (l : RiskLimits)
    → ((apply_risk_checks r c l).action ≡ buy) ↔ IsAdmissible r c l
unfolding apply_risk_checks
apply_risk_checks_buy_iff r c l =
    let w = or_else r.target_weight (pos 0) in
    let staged = stage_iff r c l in
    let finished = finish_iff c l w (stage_checks r c l) in
    (
      λ h.
          let fresh : l.block_on_stale_data && c.data_stale ≡ false = ground arith in
          let (h₁, (large, liquid, room)) = finished.0 (ground (arith, fresh)) in
          let (is, down, bear, sound, sure) = staged.0 h₁ in
          record {
            is_buy = is;
            fresh = ground (arith, fresh);
            no_averaging_down = down;
            bear_case = bear;
            grounded = sound;
            confident = sure;
            large_enough = large;
            liquid_enough = liquid;
            room_in_sector = room;
          },
      λ a.
          let h₁ = staged.1 (a.is_buy, a.no_averaging_down, a.bear_case, a.grounded, a.confident) in
          let h₂ = finished.1 (h₁, (a.large_enough, a.liquid_enough, a.room_in_sector)) in
          let fresh : l.block_on_stale_data && c.data_stale ≡ false = ground (arith, a.fresh) in
          rw fresh h₂,
    )
