-- ===== src/Tests/MonthRuns.antt =====
-- A month with a ceiling of ten dollars, two of them protected: an authorization, its settlement, and a month that is poisoned.
use portfolio_manager.Base.{
  ◌+◌, ◌≤◌, ◌≡◌, refl, true, false, none, some, [], ok, thrown, ok-injective, arith, or_else,
  String, find?,
}
use mathlib.Core.Path.{subst}
use portfolio_manager.Base.Money.{whole}
use portfolio_manager.Base.Text.{trim, lt_codes}
use portfolio_manager.Budget.Reservations.{positive}
use portfolio_manager.Month.Hash.{set, del, set, del, set, set, total, get?, amount_of}
use portfolio_manager.Month.Settings.{
  MonthEnv, max_request_bytes_of, role_reserve, lease_seconds, configured, configured_ceiling,
  to_micro_usd, cap_micro_usd,
}
use portfolio_manager.Month.Report.{complete, spend_report}
use portfolio_manager.Month.Pricing.{
  Request, Bound, Usage, resolve_pricing_version, resolve_model_pricing, request_upper_bound,
  estimate_usage_cost,
}
use portfolio_manager.Month.Bound.{FitsRequest}
use portfolio_manager.Month.Store.{MonthState, AuthorizeArgs, authorize, poison, empty_month}
use portfolio_manager.Month.Client.{
  Authorization, Client, new_client, Outside, CallRequest, answered, authorize_call,
  load_configured_report, telemetry_unavailable,
}
use portfolio_manager.Month.Settlement.{TelemetryResult, settle_call, has_id, ceiling_of}
use portfolio_manager.Month.Books.{
  Reachable, at_start, then_step, authorizing, Booked, Reachable-Booked,
}
use portfolio_manager.Month.Ceiling.{Means, authorize-Means}
use portfolio_manager.Month.Within.{Within}
use portfolio_manager.Month.Poison.{no_step, and_then, is_poisoned, poison-stays}
use portfolio_manager.Month.AuthorizeSteps.{Lagging}
use portfolio_manager.Month.Refines.{
  MonthCalls, no_call, then_call, authorize_calls, settle_calls, calls-Within,
}
use portfolio_manager.Month.Covered.{authorize_call-covers_cost}
use portfolio_manager.Month.FailClosed.{FailsClosed, Trustworthy, settle_call-FailsClosed}

abbrev ten_dollars : MonthEnv
ten_dollars = record {
  monthly_max_usd = some (some (whole 10));
  protected_reserve_usd = some (some (whole 2));
  call_lease_seconds = none;
  warn_pct = none;
  evaluator_reserve_usd = none;
  weekly_review_reserve_usd = none;
  generator_reserve_usd = none;
  max_request_bytes = none;
  budget_required = "true";
  pricing_version = "";
}

abbrev request_one : Request
request_one = record {
  model = "claude-haiku-4-5";
  max_tokens = some 500;
  request_bytes = some 1_000;
}

abbrev question : CallRequest
question = record {
  role = "generator";
  model = "claude-haiku-4-5";
  request = some request_one;
  reserve_usd = none;
  protected_capacity = false;
}

abbrev outside : Outside
outside = record {
  env = ten_dollars;
  at = 1_000;
  date = "2026-07-20";
  fresh_id = "a";
  usage = record { telemetry_status = "COMPLETE"; estimated_cost = some 0 };
  status_read = complete empty_month;
  delivery = answered;
}

-- The bound of the request is below the role's reserve of three cents.
abbrev given : Authorization
given = record {
  id = "a";
  is_configured = true;
  role = "generator";
  model = "claude-haiku-4-5";
  pricing_version = "anthropic-global-standard-2026-07-14";
  reserve_usd = 3_000_000_000_000;
  protected_capacity = false;
  authorized_at = 1_000;
  expires_at = 1_801_000;
}

given-authorize_call : (authorize_call outside question new_client empty_month).outcome ≡ ok given
unfolding authorize_call resolve_pricing_version trim lt_codes resolve_model_pricing
    configured_ceiling spend_report request_upper_bound max_request_bytes_of positive authorize
    cap_micro_usd to_micro_usd role_reserve lease_seconds
given-authorize_call = refl

abbrev after_question : MonthState
after_question = (authorize_call outside question new_client empty_month).month

-- The arguments of the script for that call.
abbrev first_args : AuthorizeArgs
first_args = record {
  at = 1_000;
  id = "a";
  expires_at = 1_801_000;
  reserve = 30_000;
  observed = 0;
  cap = 10_000_000;
  protected = 2_000_000;
  is_protected = false;
  role = "generator";
}

-- A call that comes later than the end of the first lease.
abbrev later_args : AuthorizeArgs
later_args = record first_args {
  at = 1_801_000;
  id = "b";
  expires_at = 3_601_000;
  is_protected = true;
}

abbrev one_lease : MonthState
one_lease = (authorize first_args empty_month).0

abbrev two_calls : MonthState
two_calls = (authorize later_args one_lease).0

later_id : get? "b" one_lease.lease_data ≡ none
unfolding authorize get? set
later_id = refl

-- The amount of the expired lease is spent, and the new one is reserved.
two_calls_sums :
    (two_calls.spent ≡ 30_000)
    × (two_calls.reserved ≡ 30_000)
    × (total two_calls.lease_data ≡ 30_000)
unfolding authorize set get? del
two_calls_sums = (refl, refl, refl)

no_leases : (id : String) → get? id empty_month.lease_data ≡ none
unfolding get?
no_leases id = refl

two_calls-Reachable : Reachable two_calls
two_calls-Reachable =
    then_step (then_step at_start (authorizing empty_month first_args (no_leases "a")))
      (authorizing one_lease later_args later_id)

Reachable-Booked_example : Booked two_calls
Reachable-Booked_example = Reachable-Booked two_calls-Reachable

covered_start : total empty_month.lease_data ≤ empty_month.reserved
covered_start = omega arith

authorize-Means_example :
    Means first_args empty_month one_lease (authorize first_args empty_month).1
authorize-Means_example = authorize-Means first_args empty_month covered_start

-- After a poison an expired lease goes without being counted: its amount stays reserved, and is not spent.
poisoned_recovery :
    let t = (authorize later_args (poison "telemetry" one_lease)).0 in
    (t.lease_data ≡ []) × (t.spent ≡ 0) × (t.reserved ≡ 30_000)
unfolding authorize poison set del
poisoned_recovery = (refl, refl, refl)

no_poisoned_lease : get? "a" (poison "telemetry" empty_month).lease_data ≡ none
unfolding get? poison
no_poisoned_lease = refl

poison-stays_example :
    is_poisoned (authorize later_args (authorize first_args (poison "telemetry" empty_month)).0).1
    ≡ true
poison-stays_example =
    poison-stays "telemetry" empty_month (authorize first_args (poison "telemetry" empty_month)).0
      (and_then (no_step (poison "telemetry" empty_month))
        (authorizing (poison "telemetry" empty_month) first_args no_poisoned_lease))
      later_args

start-Lagging : Lagging outside new_client empty_month
unfolding load_configured_report spend_report resolve_pricing_version to_micro_usd trim lt_codes
start-Lagging r e =
    subst (λ o. to_micro_usd (or_else o.estimated_cost 0) ≤ 0) (ok-injective e) (omega arith)

abbrev answer : TelemetryResult
answer = record {
  persisted = true;
  usage = record {
    role = "generator";
    pricing_version = "anthropic-global-standard-2026-07-14";
    created_at = 1_000;
    model = "claude-haiku-4-5";
    requested_model = "claude-haiku-4-5";
    usage_complete = true;
    estimated_cost = 600_000_000_000;
  };
}

abbrev holder : Client
holder = (authorize_call outside question new_client empty_month).client

abbrev after_answer : MonthState
after_answer =
    (settle_call (configured 1_000_000_000_000_000 200_000_000_000_000) answered answered given
      answer holder after_question).month

cap_ten : cap_micro_usd (ceiling_of (configured_ceiling ten_dollars)) ≡ 10_000_000
unfolding cap_micro_usd configured_ceiling
cap_ten = refl

cost_leased : to_micro_usd answer.usage.estimated_cost ≤ amount_of "a" after_question.lease_data
unfolding get? authorize_call resolve_pricing_version trim lt_codes resolve_model_pricing
    configured_ceiling spend_report request_upper_bound max_request_bytes_of positive authorize
    cap_micro_usd to_micro_usd role_reserve lease_seconds set
cost_leased = omega arith

question_calls : MonthCalls 10_000_000 empty_month after_answer
question_calls =
    then_call
      (then_call (no_call empty_month)
        (authorize_calls outside question new_client empty_month start-Lagging cap_ten))
      (settle_calls (configured 1_000_000_000_000_000 200_000_000_000_000) answered answered given
        answer holder after_question cost_leased)

within_start : Within 10_000_000 empty_month
within_start = record { held = omega arith; ceiling = omega arith }

calls-Within_example : Within 10_000_000 after_answer
calls-Within_example = calls-Within 10_000_000 question_calls within_start

abbrev tokens : Usage
tokens = record {
  input_tokens = 900;
  output_tokens = 400;
  cache_creation_5m = 0;
  cache_creation_1h = 0;
  cache_read = 100;
}

tokens_fit :
    (b : Bound)
    → request_upper_bound "claude-haiku-4-5" given.pricing_version (some request_one) ≡ ok b
    → FitsRequest tokens b.request_bytes 500
unfolding request_upper_bound resolve_model_pricing trim
tokens_fit b e =
    subst (λ o. FitsRequest tokens o.request_bytes 500) (ok-injective e)
      (record { inputs = omega arith; outputs = omega arith })

tokens_cost :
    estimate_usage_cost "claude-haiku-4-5" given.pricing_version tokens
    ≡ ok ("claude-haiku-4-5", 291_000_000_000)
unfolding estimate_usage_cost resolve_model_pricing trim
tokens_cost = refl

authorize_call-covers_cost_example :
    (after_question.spent + after_question.reserved
      ≤ cap_micro_usd (ceiling_of (configured_ceiling ten_dollars)))
    × (to_micro_usd 291_000_000_000 ≤ amount_of "a" after_question.lease_data)
authorize_call-covers_cost_example =
    authorize_call-covers_cost outside question new_client empty_month given request_one 500 tokens
      "claude-haiku-4-5" 291_000_000_000 covered_start refl given-authorize_call refl refl
      tokens_fit tokens_cost

abbrev lost_answer : TelemetryResult
lost_answer = record answer { persisted = false }

lost_answer-not_Trustworthy : ¬ Trustworthy lost_answer given
lost_answer-not_Trustworthy trusted = cc trusted.persisted

held_by : find? (has_id "a") holder.reservations ≡ some given
unfolding authorize_call resolve_pricing_version trim lt_codes resolve_model_pricing
    configured_ceiling spend_report request_upper_bound max_request_bytes_of positive authorize
    cap_micro_usd to_micro_usd role_reserve lease_seconds
held_by = refl

settle_call-FailsClosed_example :
    let l =
      settle_call
        (configured 1_000_000_000_000_000 200_000_000_000_000)
        answered
        answered
        given
        lost_answer
        holder
        after_question in
    (l.outcome ≡ thrown telemetry_unavailable)
    × FailsClosed answered after_question l.client l.month
settle_call-FailsClosed_example =
    settle_call-FailsClosed (configured 1_000_000_000_000_000 200_000_000_000_000) answered answered
      given given lost_answer holder after_question refl held_by lost_answer-not_Trustworthy
