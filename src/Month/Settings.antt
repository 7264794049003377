-- ===== src/Month/Settings.antt =====
-- lib/anthropic-monthly-budget.js: what the environment configures, and the conversions of amounts. An
-- amount of dollars that the code holds is not negative, and counts grains.
use portfolio_manager.Base.{
  ℕ, ◌+◌, ◌-◌, ◌*◌, ◌/◌, Bool, Option, none, some, if◌then◌else◌, or_else, ltb, String,
}
use portfolio_manager.Base.Int.{ℤ, pos, negsuc, pos_part}
use portfolio_manager.Base.Money.{Num, unit_grains}
use portfolio_manager.Base.Text.{◌=s=◌, trim, to_lower}
use portfolio_manager.Budget.Reservations.{positive}
use portfolio_manager.Risk.Breaker.{positive?}

-- A setting that is blank after trimming, or the number that its text is.
abbrev pub Setting : Type 0
Setting = Option Num

pub record MonthEnv : Type 0 where
  pub monthly_max_usd : Setting
  pub protected_reserve_usd : Setting
  pub call_lease_seconds : Setting
  pub warn_pct : Setting
  pub evaluator_reserve_usd : Setting
  pub weekly_review_reserve_usd : Setting
  pub generator_reserve_usd : Setting
  pub max_request_bytes : Setting
  pub budget_required : String
  pub pricing_version : String

pub data CapConfig : Type 0 where
  not_configured : CapConfig
  invalid_config : CapConfig
  configured : ℕ → ℕ → CapConfig

unfoldable pub nonnegative? : Num → Option ℕ
nonnegative? none = none
nonnegative? (some (pos n)) = some n
nonnegative? (some (negsuc n)) = none

-- `optionalNonnegative`
unfoldable pub optional_nonnegative : Setting → Option ℕ
unfolding nonnegative?
optional_nonnegative none = some 0
optional_nonnegative (some n) = nonnegative? n

-- The protected reserve is within the ceiling.
unfoldable pub with_protected : ℕ → Option ℕ → CapConfig
with_protected ceiling none = invalid_config
with_protected ceiling (some protected) =
    if ltb ceiling protected then invalid_config else configured ceiling protected

unfoldable pub with_ceiling : Option ℤ → Setting → CapConfig
unfolding with_protected optional_nonnegative
with_ceiling none protected = invalid_config
with_ceiling (some value) protected =
    with_protected (pos_part value) (optional_nonnegative protected)

-- `configuredCeiling`
unfoldable pub configured_ceiling : MonthEnv → CapConfig
unfolding with_ceiling
configured_ceiling env = elim env.monthly_max_usd [
  | none ↦ not_configured
  | some value ↦ with_ceiling (positive? value) env.protected_reserve_usd
]

-- `positive(value, fallback)`; a blank text is the number 0.
abbrev pub positive_setting : Setting → ℕ → ℕ
positive_setting value fallback = positive (or_else value none) fallback

-- `roleReserveUsd`
unfoldable pub role_reserve : String → MonthEnv → ℕ
role_reserve role env =
    if role =s= "evaluator"
    then positive_setting env.evaluator_reserve_usd 10_000_000_000_000
    else if role =s= "weekly_review"
    then positive_setting env.weekly_review_reserve_usd 3_000_000_000_000
    else positive_setting env.generator_reserve_usd 3_000_000_000_000

unfoldable pub lease_seconds : MonthEnv → ℕ
lease_seconds env =
    (positive_setting env.call_lease_seconds (1_800 * unit_grains) + (unit_grains - 1))
    / unit_grains

unfoldable pub max_request_bytes_of : MonthEnv → ℕ
max_request_bytes_of env =
    positive_setting env.max_request_bytes (1_000_000 * unit_grains) / unit_grains

abbrev pub budget_required_of : MonthEnv → Bool
budget_required_of env = to_lower (trim env.budget_required) =s= "true"

-- EPSILON in grains, and the grains of a millionth of a dollar.
abbrev pub epsilon : ℕ
epsilon = 100_000

abbrev pub micro_grains : ℕ
micro_grains = 100_000_000

-- `toMicroUsd`: up
unfoldable pub to_micro_usd : ℕ → ℕ
to_micro_usd value = (value - epsilon + 99_999_999) / micro_grains

-- `capMicroUsd`: down
unfoldable pub cap_micro_usd : ℕ → ℕ
cap_micro_usd value = (value + epsilon) / micro_grains

-- `fromMicroUsd`; a millionth has no more than 12 places.
abbrev pub from_micro_usd : ℕ → ℕ
from_micro_usd value = value * micro_grains
