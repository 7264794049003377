-- ===== src/Risk/MandateClamp.antt =====
-- lib/mandate-proposal-clamp.js: the mandate's conviction score as a ceiling on an entry. The sizing policy
-- (lib/mandate-policy.js) enters by its outcome, which is none where it throws; notes are left out.
use portfolio_manager.Base.{Bool, true, false, not, Option, none, some, if◌then◌else◌}
use portfolio_manager.Base.Int.{ℤ, pos, ltb_ℤ}
use portfolio_manager.Risk.Sizing.{Action, buy, sell, hold}
use portfolio_manager.Risk.Engine.{Recommendation}

-- Of the answer of `evaluateMandateSizing`: whether it allows the entry, and the upper end of the tier.
pub record SizingGate : Type 0 where
  pub eligible : Bool
  pub ceiling : Option ℤ

abbrev pub is_buy : Action → Bool
is_buy buy = true
is_buy sell = false
is_buy hold = false

-- `toHold`
abbrev pub to_hold : Recommendation → Recommendation
to_hold rec = record rec { action = hold; target_weight = some (pos 0) }

-- `rec.targetWeight > ceiling ? ceiling : rec.targetWeight`, where both are numbers
unfoldable pub clamped_weight : Option ℤ → Option ℤ → Option ℤ
clamped_weight none weight = weight
clamped_weight (some ceiling) none = none
clamped_weight (some ceiling) (some weight) =
    if ltb_ℤ ceiling weight then some ceiling else some weight

-- The recommendation under the answer of the policy.
unfoldable pub under_gate : Option SizingGate → Recommendation → Recommendation
unfolding clamped_weight
under_gate none rec = to_hold rec
under_gate (some gate) rec =
    if not gate.eligible
    then to_hold rec
    else record rec { target_weight = clamped_weight gate.ceiling rec.target_weight }

-- `applyMandateScoreClamp`: the recommendation, and whether the gate was applied.
unfoldable pub apply_mandate_score_clamp :
    Bool → Bool → Option SizingGate → Recommendation → Recommendation × Bool
unfolding under_gate
apply_mandate_score_clamp enabled has_score gate rec =
    if not enabled
    then (rec, false)
    else if not (is_buy rec.action)
    then (rec, false)
    else if not has_score
    then (to_hold rec, true)
    else (under_gate gate rec, true)
