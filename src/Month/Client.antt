-- ===== src/Month/Client.antt =====
-- lib/anthropic-monthly-budget.js: the object that `createAnthropicMonthlyBudget` returns, and its
-- `authorizeCall`. An instant and an id are arguments, and so is what becomes of each call of Redis. The text of
-- a reason stops where the code puts in a value. All calls are of one month.
use portfolio_manager.Base.{
  ℕ, ◌+◌, ◌*◌, Bool, true, false, not, ◌||◌, Option, none, some, is_some, List, [], ◌∷◌, ◌++◌,
  if◌then◌else◌, or_else, ltb, String, Outcome, ok, thrown,
}
use Prim.Native.Nat.{max}
use portfolio_manager.Base.Text.{◌=s=◌}
use portfolio_manager.Budget.Reservations.{round_usd, positive}
use portfolio_manager.Base.Money.{Num}
use portfolio_manager.Month.Settings.{
  MonthEnv, CapConfig, not_configured, invalid_config, configured, configured_ceiling, role_reserve,
  lease_seconds, max_request_bytes_of, budget_required_of, to_micro_usd, cap_micro_usd,
  from_micro_usd,
}
use portfolio_manager.Month.Report.{SpendReport, MonthUsage, StatusRead, spend_report}
use portfolio_manager.Month.Pricing.{
  Request, Bound, resolve_pricing_version, resolve_model_pricing, request_upper_bound,
}
use portfolio_manager.Month.Store.{
  MonthState, AuthorizeArgs, Decision, authorized, exhausted, protected_pool, poisoned, authorize,
}

pub data CallError : Type 0 where
  pricing_unknown config_invalid telemetry_unavailable request_unbounded budget_exhausted
        overshoot :
      CallError

pub record Authorization : Type 0 where
  pub id : String
  pub is_configured : Bool
  pub role : String
  pub model : String
  pub pricing_version : String
  pub reserve_usd : ℕ
  pub protected_capacity : Bool
  pub authorized_at : ℕ
  pub expires_at : ℕ

-- What the object closes over.
pub record Client : Type 0 where
  pub loaded_report : Option SpendReport
  pub poisoned_reason : Option String
  pub local_outstanding : ℕ
  pub local_spent : ℕ
  pub reservations : List Authorization

abbrev pub new_client : Client
new_client = record {
  loaded_report = none;
  poisoned_reason = none;
  local_outstanding = 0;
  local_spent = 0;
  reservations = [];
}

-- A script that answers, one that fails before it runs, and one whose answer is lost after it ran.
pub data Delivery : Type 0 where
  answered lost_before lost_after : Delivery

-- The outside of one call: the environment, the clock in milliseconds and its date, a fresh id, the month's telemetry, the read of the
-- state, and the fate of the script.
pub record Outside : Type 0 where
  pub env : MonthEnv
  pub at : ℕ
  pub date : String
  pub fresh_id : String
  pub usage : MonthUsage
  pub status_read : StatusRead
  pub delivery : Delivery

pub record CallRequest : Type 0 where
  pub role : String
  pub model : String
  pub request : Option Request
  pub reserve_usd : Num
  pub protected_capacity : Bool

-- What a call leaves: the object, the month and what is returned or thrown.
pub record Left (A : Type 0) : Type 0 where
  pub client : Client
  pub month : MonthState
  pub outcome : Outcome CallError A

abbrev pub refuse : {A : Type 0} → Client → MonthState → CallError → Left A
refuse c s e = record { client = c; month = s; outcome = thrown e }

-- `poisonedReason = reason; throw ...`
abbrev pub refuse_poisoned : {A : Type 0} → String → Client → MonthState → Left A
refuse_poisoned reason c s =
    refuse (record c { poisoned_reason = some reason }) s telemetry_unavailable

-- The version that the report names, or none where it is not known.
unfoldable pub report_version : Outside → Option String
report_version v = elim (resolve_pricing_version v.env.pricing_version v.date) [
  | ok version ↦ some version
  | thrown e ↦ none
]

-- `loadConfiguredReport` by the report that is there or is read.
unfoldable pub use_report : Bool → SpendReport → Client → Client × Outcome CallError SpendReport
use_report true r c = (c, ok r)
use_report false r c =
    if not (r.telemetry_status =s= "COMPLETE") || not (is_some r.pricing_version)
    then (
      record c {
        loaded_report = some r;
        poisoned_reason =
            some "monthly Anthropic telemetry is not complete; remaining budget cannot be trusted";
      },
      thrown telemetry_unavailable,
    )
    else (record c { loaded_report = some r; local_spent = or_else r.estimated_cost 0 }, ok r)

-- `loadConfiguredReport`, where the ceiling is configured.
unfoldable pub load_configured_report : Outside → Client → Client × Outcome CallError SpendReport
unfolding use_report report_version
load_configured_report v c = elim c.loaded_report [
  | some r ↦ use_report true r c
  | none ↦ use_report false (spend_report v.env (report_version v) v.usage v.status_read) c
]

unfoldable pub script_args : Outside → CallRequest → ℕ → ℕ → ℕ → SpendReport → AuthorizeArgs
script_args v q ceiling protected reservation r = record {
  at = v.at;
  id = v.fresh_id;
  expires_at = v.at + lease_seconds v.env * 1_000;
  reserve = to_micro_usd reservation;
  observed = to_micro_usd (or_else r.estimated_cost 0);
  cap = cap_micro_usd ceiling;
  protected = to_micro_usd protected;
  is_protected = q.protected_capacity;
  role = q.role;
}

-- The object after the answer of the script.
unfoldable pub after_decision :
    Outside → CallRequest → String → ℕ → Client → MonthState → Decision → Left Authorization
unfolding round_usd
after_decision v q version reservation c t (poisoned reserved reason) = refuse_poisoned reason c t
after_decision v q version reservation c t (exhausted spent reserved) = refuse c t budget_exhausted
after_decision v q version reservation c t (protected_pool spent reserved) =
    refuse c t budget_exhausted
after_decision v q version reservation c t (authorized spent reserved end) =
    let authorization : Authorization = record {
      id = v.fresh_id;
      is_configured = true;
      role = q.role;
      model = q.model;
      pricing_version = version;
      reserve_usd = reservation;
      protected_capacity = q.protected_capacity;
      authorized_at = v.at;
      expires_at = end;
    } in
    record {
      client = record c {
        reservations = c.reservations ++ (authorization ∷ []);
        local_outstanding = round_usd (c.local_outstanding + reservation);
        local_spent = from_micro_usd spent;
      };
      month = t;
      outcome = ok authorization;
    }

unfoldable pub send_authorization :
    Outside → CallRequest → String → ℕ → AuthorizeArgs → Client → MonthState → Left Authorization
unfolding after_decision
send_authorization v q version reservation a c s = elim v.delivery [
  | answered ↦ after_decision v q version reservation c (authorize a s).0 (authorize a s).1
  | lost_before ↦ refuse_poisoned "monthly Anthropic atomic authorization failed" c s
  | lost_after ↦ refuse_poisoned "monthly Anthropic atomic authorization failed" c (authorize a s).0
]

-- The reservation is the reserve that was asked for or that of the role, and the bound at least.
abbrev pub reservation_of : Outside → CallRequest → Bound → ℕ
reservation_of v q b = max (positive q.reserve_usd (role_reserve q.role v.env)) b.upper_bound

unfoldable pub authorize_bounded :
    Outside → CallRequest → String → ℕ → ℕ → SpendReport → Client → MonthState → Left Authorization
unfolding send_authorization script_args
authorize_bounded v q version ceiling protected r c s =
    elim (request_upper_bound q.model version q.request) [
      | thrown e ↦ refuse c s request_unbounded
      | ok b ↦
          if ltb (max_request_bytes_of v.env) b.request_bytes
          then refuse c s request_unbounded
          else send_authorization v q version (reservation_of v q b)
              (script_args v q ceiling protected (reservation_of v q b) r) c s
    ]

unfoldable pub authorize_reported :
    Outside
    → CallRequest
    → String
    → ℕ
    → ℕ
    → Client × Outcome CallError SpendReport
    → MonthState
    → Left Authorization
unfolding authorize_bounded
authorize_reported v q version ceiling protected (c, thrown e) s = refuse c s e
authorize_reported v q version ceiling protected (c, ok r) s =
    authorize_bounded v q version ceiling protected r c s

unconfigured : Outside → CallRequest → String → Authorization
unconfigured v q version = record {
  id = "";
  is_configured = false;
  role = q.role;
  model = q.model;
  pricing_version = version;
  reserve_usd = 0;
  protected_capacity = false;
  authorized_at = v.at;
  expires_at = v.at;
}

unfoldable pub authorize_configured :
    Outside → CallRequest → String → CapConfig → Client → MonthState → Left Authorization
unfolding authorize_reported load_configured_report unconfigured
authorize_configured v q version invalid_config c s = refuse c s config_invalid
authorize_configured v q version not_configured c s =
    if budget_required_of v.env
    then refuse c s config_invalid
    else record { client = c; month = s; outcome = ok (unconfigured v q version) }
authorize_configured v q version (configured ceiling protected) c s =
    if is_some c.poisoned_reason
    then refuse c s telemetry_unavailable
    else authorize_reported v q version ceiling protected (load_configured_report v c) s

-- `authorizeCall`. An authorization without a ceiling has no id and no end.
unfoldable pub authorize_call : Outside → CallRequest → Client → MonthState → Left Authorization
unfolding authorize_configured
authorize_call v q c s = elim (resolve_pricing_version v.env.pricing_version v.date) [
  | thrown e ↦ refuse c s pricing_unknown
  | ok version ↦ elim (resolve_model_pricing q.model version) [
    | thrown e ↦ refuse c s pricing_unknown
    | ok priced ↦ authorize_configured v q version (configured_ceiling v.env) c s
  ]
]
