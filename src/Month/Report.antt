-- ===== src/Month/Report.antt =====
-- lib/anthropic-monthly-budget.js: the spend report and the readiness of a month.
use portfolio_manager.Base.{
  ℕ, ◌+◌, ◌-◌, ◌*◌, ◌/◌, Bool, true, false, not, ◌&&◌, ◌||◌, Option, none, some, is_some,
  if◌then◌else◌, or_else, leb, String,
}
use Prim.Native.Nat.{max, min}
use portfolio_manager.Base.Money.{unit_grains}
use portfolio_manager.Base.Text.{◌=s=◌, is_empty}
use portfolio_manager.Budget.Reservations.{round_usd}
use portfolio_manager.Month.Settings.{
  MonthEnv, CapConfig, not_configured, invalid_config, configured, configured_ceiling,
  positive_setting, epsilon, from_micro_usd,
}
use portfolio_manager.Month.Store.{MonthState}

-- The month's telemetry, from the usage records: its status and the cost of the priced records.
pub record MonthUsage : Type 0 where
  pub telemetry_status : String
  pub estimated_cost : Option ℕ

-- What the read of the state hash gives.
pub data StatusRead : Type 0 where
  unavailable unreadable : StatusRead
  complete : MonthState → StatusRead

-- `value.poisonedReason ? String(value.poisonedReason) : null`
unfoldable pub poison_text : StatusRead → Option String
poison_text (complete s) = elim s.poisoned_reason [
  | none ↦ none
  | some reason ↦ if is_empty reason then none else some reason
]
poison_text unavailable = none
poison_text unreadable = none

unfoldable pub settled_spent : StatusRead → ℕ
settled_spent (complete s) = from_micro_usd s.spent
settled_spent unavailable = 0
settled_spent unreadable = 0

unfoldable pub reserved_usd : StatusRead → ℕ
reserved_usd (complete s) = from_micro_usd s.reserved
reserved_usd unavailable = 0
reserved_usd unreadable = 0

abbrev pub is_unreadable : StatusRead → Bool
is_unreadable unreadable = true
is_unreadable _ = false

pub record SpendReport : Type 0 where
  pub cap : CapConfig
  pub pricing_version : Option String
  pub telemetry_status : String
  pub estimated_cost : Option ℕ
  pub reserved : ℕ
  pub remaining : Option ℕ

unfoldable pub telemetry_of : MonthUsage → StatusRead → String
telemetry_of usage read = if is_unreadable read then "UNREADABLE" else usage.telemetry_status

unfoldable pub accounted_of : MonthUsage → StatusRead → Option ℕ
unfolding settled_spent round_usd
accounted_of usage read = elim usage.estimated_cost [
  | none ↦ none
  | some cost ↦ some (round_usd (max cost (settled_spent read)))
]

unfoldable pub remaining_of : CapConfig → Option String → Bool → ℕ → ℕ → Option ℕ
unfolding round_usd
remaining_of (configured ceiling protected) version telemetry_complete accounted reserved =
    if telemetry_complete && is_some version
    then some (round_usd (ceiling - accounted - reserved))
    else none
remaining_of not_configured version telemetry_complete accounted reserved = none
remaining_of invalid_config version telemetry_complete accounted reserved = none

-- `getAnthropicSpendReport`; the version is `none` where the prices of the date are not known.
unfoldable pub spend_report : MonthEnv → Option String → MonthUsage → StatusRead → SpendReport
unfolding configured_ceiling poison_text reserved_usd telemetry_of accounted_of remaining_of
spend_report env version usage read =
    let poisoned = is_some (poison_text read) in
    let telemetry_complete = telemetry_of usage read =s= "COMPLETE" && not poisoned in
    record {
      cap = configured_ceiling env;
      pricing_version = version;
      telemetry_status = if poisoned then "INCOMPLETE" else telemetry_of usage read;
      estimated_cost = accounted_of usage read;
      reserved = reserved_usd read;
      remaining =
          remaining_of (configured_ceiling env) version telemetry_complete
            (or_else (accounted_of usage read) 0) (reserved_usd read);
    }

pub data Readiness : Type 0 where
  without_cap unready exhausted warning ready : Readiness

-- `money(ceilingUsd * warnPct)`
unfoldable pub warning_at : ℕ → ℕ → ℕ
warning_at ceiling pct = (2 * (ceiling * pct) + 100 * unit_grains) / (200 * unit_grains) * 100

unfoldable pub readiness_under : CapConfig → ℕ → SpendReport → Readiness
unfolding warning_at round_usd
readiness_under not_configured pct r = without_cap
readiness_under invalid_config pct r = unready
readiness_under (configured ceiling protected) pct r =
    if not (r.telemetry_status =s= "COMPLETE") || not (is_some r.pricing_version)
    then unready
    else if leb (or_else r.remaining 0) epsilon
    then exhausted
    else if leb (warning_at ceiling pct)
        (round_usd (or_else r.estimated_cost 0 + r.reserved) + epsilon)
    then warning
    else ready

-- The status of `getAnthropicBudgetReadiness`.
unfoldable pub readiness : MonthEnv → SpendReport → Readiness
unfolding readiness_under
readiness env r =
    readiness_under r.cap (min unit_grains (positive_setting env.warn_pct 80_000_000_000_000)) r
