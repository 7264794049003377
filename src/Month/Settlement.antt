-- ===== src/Month/Settlement.antt =====
-- lib/anthropic-monthly-budget.js: `settleCall`, `settleProviderFailure` and what they call.
use portfolio_manager.Base.{
  ℕ, ◌+◌, ◌-◌, Bool, true, false, not, ◌&&◌, ◌||◌, ◌==◌, Option, none, some, find?, filter,
  if◌then◌else◌, leb, ltb, String, ok, thrown,
}
use portfolio_manager.Base.Text.{◌=s=◌}
use portfolio_manager.Budget.Reservations.{round_usd}
use portfolio_manager.Month.Settings.{
  CapConfig, configured, not_configured, invalid_config, to_micro_usd, from_micro_usd, epsilon,
}
use portfolio_manager.Month.Store.{
  MonthState, SettleKind, success, ambiguous_failure, provider_rejection, settle, poison,
}
use portfolio_manager.Month.Client.{
  CallError, telemetry_unavailable, overshoot, Authorization, Client, Delivery, answered,
  lost_before, lost_after, Left, refuse, refuse_poisoned,
}

pub record UsageRecord : Type 0 where
  pub role : String
  pub pricing_version : String
  pub created_at : ℕ
  pub model : String
  pub requested_model : String
  pub usage_complete : Bool
  pub estimated_cost : ℕ

pub record TelemetryResult : Type 0 where
  pub persisted : Bool
  pub usage : UsageRecord

-- `poison(active, reason)`; where the answer fails the object keeps another text.
unfoldable pub poison_month : Delivery → String → Client → MonthState → Client × MonthState
poison_month answered reason c s = (record c { poisoned_reason = some reason }, poison reason s)
poison_month lost_before reason c s = (record c { poisoned_reason = some reason }, s)
poison_month lost_after reason c s = (record c { poisoned_reason = some reason }, poison reason s)

abbrev pub has_id : String → Authorization → Bool
has_id id a = a.id =s= id

unfoldable pub settled_client : Authorization → ℕ → Client → Client
unfolding round_usd
settled_client active spent c = record c {
  reservations = filter (λ a. not (has_id active.id a)) c.reservations;
  local_outstanding = round_usd (c.local_outstanding - active.reserve_usd);
  local_spent = from_micro_usd spent;
}

-- By the answer of the script: the spent sum, or nothing for a missing lease.
unfoldable pub after_settle : Authorization → Client → MonthState × Option ℕ → Left ℕ
unfolding settled_client
after_settle active c (t, none) =
    refuse_poisoned "monthly Anthropic reservation lease was missing during settlement" c t
after_settle active c (t, some spent) = record {
  client = settled_client active spent c;
  month = t;
  outcome = ok spent;
}

-- `atomicSettle`
unfoldable pub atomic_settle :
    Delivery → Authorization → SettleKind → ℕ → Client → MonthState → Left ℕ
unfolding after_settle
atomic_settle delivery active kind actual c s = elim delivery [
  | answered ↦ after_settle active c (settle active.id kind (to_micro_usd actual) s)
  | lost_before ↦ refuse_poisoned "monthly Anthropic reservation settlement failed" c s
  | lost_after ↦
      refuse_poisoned "monthly Anthropic reservation settlement failed" c
        (settle active.id kind (to_micro_usd actual) s).0
]

abbrev pub ceiling_of : CapConfig → ℕ
ceiling_of (configured ceiling protected) = ceiling
ceiling_of not_configured = 0
ceiling_of invalid_config = 0

-- `poison(active, reason)`, then the throw.
abbrev pub poison_and_throw :
    {A : Type 0} → Delivery → String → CallError → Client → MonthState → Left A
poison_and_throw delivery reason e c s =
    refuse (poison_month delivery reason c s).0 (poison_month delivery reason c s).1 e

-- After `atomicSettle`: the test of the ceiling.
unfoldable pub check_ceiling :
    CapConfig → Delivery → UsageRecord → Left ℕ → Left (Option UsageRecord)
check_ceiling cap delivery u l = elim l.outcome [
  | thrown e ↦ refuse l.client l.month e
  | ok spent ↦
      if ltb (ceiling_of cap + epsilon) l.client.local_spent
      then poison_and_throw delivery "monthly Anthropic ceiling was exceeded after settlement"
          overshoot l.client l.month
      else record { client = l.client; month = l.month; outcome = ok (some u) }
]

-- The record is of the authorization.
abbrev pub matches : UsageRecord → Authorization → Bool
matches u a =
    u.role =s= a.role
    && u.pricing_version =s= a.pricing_version
    && u.created_at == a.authorized_at
    && (u.model =s= a.model || u.requested_model =s= a.model)

-- The settlement by whether the usage is complete: a call without token counts is charged its reservation.
unfoldable pub settle_usage :
    Bool
    → CapConfig
    → Delivery
    → Delivery
    → Authorization
    → UsageRecord
    → Client
    → MonthState
    → Left (Option UsageRecord)
unfolding check_ceiling atomic_settle
settle_usage false cap delivery poison_delivery active u c s =
    check_ceiling cap poison_delivery u (atomic_settle delivery active ambiguous_failure 0 c s)
settle_usage true cap delivery poison_delivery active u c s =
    check_ceiling cap poison_delivery u (atomic_settle delivery active success u.estimated_cost c s)

unfoldable pub settle_active :
    CapConfig
    → Delivery
    → Delivery
    → Authorization
    → TelemetryResult
    → Client
    → MonthState
    → Left (Option UsageRecord)
unfolding settle_usage
settle_active cap delivery poison_delivery active t c s =
    if not t.persisted
    then poison_and_throw poison_delivery "Anthropic usage telemetry write failed after a paid call"
        telemetry_unavailable c s
    else if not (matches t.usage active)
    then poison_and_throw poison_delivery
        "Anthropic usage record did not match its monthly budget authorization"
        telemetry_unavailable c s
    else settle_usage t.usage.usage_complete cap delivery poison_delivery active t.usage c s

-- `settleCall` for an authorization; without a ceiling it returns the record.
unfoldable pub settle_call :
    CapConfig
    → Delivery
    → Delivery
    → Authorization
    → TelemetryResult
    → Client
    → MonthState
    → Left (Option UsageRecord)
unfolding settle_active
settle_call cap delivery poison_delivery a t c s =
    if not a.is_configured
    then record { client = c; month = s; outcome = ok (some t.usage) }
    else elim (find? (has_id a.id) c.reservations) [
      | none ↦ refuse c s telemetry_unavailable
      | some active ↦ settle_active cap delivery poison_delivery active t c s
    ]

-- `anthropicProviderFailureDisposition`, for the status where that is a whole number
unfoldable pub failure_disposition : Option ℕ → SettleKind
failure_disposition none = ambiguous_failure
failure_disposition (some status) =
    if leb 400 status && leb status 599 then provider_rejection else ambiguous_failure

abbrev pub disposed : SettleKind → Left ℕ → Left (Option SettleKind)
disposed kind l = elim l.outcome [
  | thrown e ↦ refuse l.client l.month e
  | ok spent ↦ record { client = l.client; month = l.month; outcome = ok (some kind) }
]

-- `settleProviderFailure`; `none` is the code's `false`.
unfoldable pub settle_provider_failure :
    Delivery → Authorization → Option ℕ → Client → MonthState → Left (Option SettleKind)
unfolding failure_disposition atomic_settle
settle_provider_failure delivery a status c s =
    if not a.is_configured
    then record { client = c; month = s; outcome = ok none }
    else elim (find? (has_id a.id) c.reservations) [
      | none ↦ record { client = c; month = s; outcome = ok none }
      | some active ↦
          disposed (failure_disposition status)
            (atomic_settle delivery active (failure_disposition status) 0 c s)
    ]
