-- ===== src/Risk/Engine.antt =====
-- lib/risk-engine.js, `applyRiskChecks`. The notes are texts for the log and are left out; of
-- `findFabricatedMetricClaims`, which is a search by regular expressions, the engine uses only
-- whether it found anything, and that is the parameter `fabricated`.
use portfolio_manager.Base.{
  ℕ, zero, suc, Bool, true, false, not, ◌&&◌, ◌||◌, Option, none, some, if◌then◌else◌, or_else,
}
use portfolio_manager.Base.Int.{ℤ, pos, ◌+ℤ◌, ◌-ℤ◌, ltb_ℤ, min_ℤ, max_ℤ}
use portfolio_manager.Base.Money.{Num, whole}
use portfolio_manager.Risk.Sizing.{Action, buy, sell, hold}

pub record Recommendation : Type 0 where
  pub action : Action
  pub target_weight : Option ℤ
  pub risk_count : ℕ
  pub kill_criteria_count : ℕ
  pub confidence : Num

pub record RiskContext : Type 0 where
  pub has_sector : Bool
  pub current_sector_weight_pct : ℤ
  pub current_position_weight_pct : ℤ
  pub is_held_at_loss : Bool
  pub data_stale : Bool
  pub market_cap : Num
  pub avg_dollar_volume : Num
  pub fabricated : Bool

pub record RiskLimits : Type 0 where
  pub block_on_stale_data : Bool
  pub prohibit_averaging_down : Bool
  pub require_bear_case : Bool
  pub min_confidence : ℤ
  pub min_market_cap : Num
  pub min_avg_dollar_volume : Num
  pub max_position_pct : ℤ
  pub max_sub_vertical_pct : Option ℤ
  pub max_sector_pct : ℤ

pub record RuleChecks : Type 0 where
  pub within_universe : Bool
  pub has_bear_case : Bool
  pub confidence_ok : Bool
  pub sector_ok : Bool
  pub data_fresh : Bool
  pub no_averaging_down : Bool
  pub market_cap_ok : Bool
  pub liquidity_ok : Bool
  pub evidence_grounded : Bool

pub record RiskVerdict : Type 0 where
  pub action : Action
  pub target_weight : ℤ
  pub rule_checks : RuleChecks
  pub overridden : Bool

abbrev pub all_ok : RuleChecks
all_ok = record {
  within_universe = true;
  has_bear_case = true;
  confidence_ok = true;
  sector_ok = true;
  data_fresh = true;
  no_averaging_down = true;
  market_cap_ok = true;
  liquidity_ok = true;
  evidence_grounded = true;
}

abbrev pub is_hold : Action → Bool
is_hold hold = true
is_hold _ = false

abbrev pub is_buy : Action → Bool
is_buy buy = true
is_buy _ = false

abbrev pub same_action : Action → Action → Bool
same_action buy b = is_buy b
same_action hold b = is_hold b
same_action sell sell = true
same_action sell _ = false

-- `action` and `checks`, the two variables that the checks before the last one change.
pub record Stage : Type 0 where
  pub action : Action
  pub checks : RuleChecks

unfoldable pub check_averaging_down : RiskContext → RiskLimits → Stage → Stage
check_averaging_down c l s =
    if is_buy s.action
      && l.prohibit_averaging_down
      && ltb_ℤ (pos 0) c.current_position_weight_pct
      && c.is_held_at_loss
    then record { action = hold; checks = record (s.checks) { no_averaging_down = false } }
    else s

abbrev pub positive_count : ℕ → Bool
positive_count zero = false
positive_count (suc n) = true

unfoldable pub check_bear_case : Recommendation → RiskLimits → Stage → Stage
check_bear_case r l s =
    let has = positive_count r.risk_count && positive_count r.kill_criteria_count in
    if l.require_bear_case && not (is_hold s.action)
    then record {
      action = if has then s.action else hold;
      checks = record (s.checks) { has_bear_case = has };
    }
    else s

unfoldable pub check_evidence : RiskContext → Stage → Stage
check_evidence c s =
    if not (is_hold s.action) && c.fabricated
    then record { action = hold; checks = record (s.checks) { evidence_grounded = false } }
    else s

-- The confidence clamped to [0, 1] is below the floor, or there is none.
unfoldable pub confidence_fails : Num → ℤ → Bool
confidence_fails none floor = true
confidence_fails (some x) floor = ltb_ℤ (min_ℤ (whole 1) (max_ℤ (pos 0) x)) floor

unfoldable pub check_confidence : Recommendation → RiskLimits → Stage → Stage
check_confidence r l s =
    if not (is_hold s.action) && confidence_fails r.confidence l.min_confidence
    then record { action = hold; checks = record (s.checks) { confidence_ok = false } }
    else s

-- `Number.isFinite(min) && (!Number.isFinite(value) || value < min)`
unfoldable pub below_minimum : Num → Num → Bool
below_minimum none value = false
below_minimum (some min) none = true
below_minimum (some min) (some value) = ltb_ℤ value min

-- The block under `if (action === "BUY")`: an action that one of its checks has turned to HOLD
-- still goes through the others.
unfoldable pub check_buy : RiskContext → RiskLimits → ℤ → RuleChecks → Stage × ℤ
check_buy c l weight checks =
    let cap = below_minimum l.min_market_cap c.market_cap in
    let thin = below_minimum l.min_avg_dollar_volume c.avg_dollar_volume in
    let clamped = if ltb_ℤ l.max_position_pct weight then l.max_position_pct else weight in
    let projected = c.current_sector_weight_pct -ℤ c.current_position_weight_pct +ℤ clamped in
    let crowded =
      c.has_sector && ltb_ℤ (or_else l.max_sub_vertical_pct l.max_sector_pct) projected in
    (
      record {
        action = if cap || thin || crowded then hold else buy;
        checks = record checks {
          market_cap_ok = not cap;
          liquidity_ok = not thin;
          sector_ok = not crowded;
        };
      },
      clamped,
    )

unfoldable pub finish_checks : RiskContext → RiskLimits → ℤ → Stage → Stage × ℤ
finish_checks c l weight s = if is_buy s.action then check_buy c l weight s.checks else (s, pos 0)

-- The four checks that every action goes through, in their order.
unfoldable pub stage_checks : Recommendation → RiskContext → RiskLimits → Stage
stage_checks r c l = check_confidence r l (
    check_evidence c (
      check_bear_case r l
        (check_averaging_down c l (record { action = r.action; checks = all_ok }))))

unfoldable pub apply_risk_checks : Recommendation → RiskContext → RiskLimits → RiskVerdict
apply_risk_checks r c l =
    let (done, weight) = finish_checks c l (or_else r.target_weight (pos 0)) (stage_checks r c l) in
    if l.block_on_stale_data && c.data_stale
    then record {
      action = hold;
      target_weight = pos 0;
      rule_checks = record all_ok { data_fresh = false };
      overridden = not (is_hold r.action);
    }
    else record {
      action = done.action;
      target_weight = weight;
      rule_checks = done.checks;
      overridden = not (same_action done.action r.action);
    }
