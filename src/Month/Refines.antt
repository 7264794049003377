-- ===== src/Month/Refines.antt =====
-- The calls of the processes on a month, and the scripts that they run.
use portfolio_manager.Base.{ℕ, ◌≤◌, ◌≡◌, Option}
use mathlib.Core.Path.{subst}
use portfolio_manager.Month.Hash.{amount_of}
use portfolio_manager.Month.Settings.{CapConfig, configured_ceiling, to_micro_usd, cap_micro_usd}
use portfolio_manager.Month.Store.{MonthState}
use portfolio_manager.Month.Client.{
  Authorization, Client, Delivery, Outside, CallRequest, authorize_call,
}
use portfolio_manager.Month.Settlement.{
  TelemetryResult, settle_call, settle_provider_failure, ceiling_of,
}
use portfolio_manager.Month.Within.{BoundedSteps, no_step, and_then, Within, BoundedSteps-Within}
use portfolio_manager.Month.AuthorizeSteps.{Lagging, authorize_call-Steps}
use portfolio_manager.Month.SettleSteps.{settle_call-Steps, failure-Steps}

-- One call of a process, by whatever object and with whatever fate of its scripts: the cap is that of the environment,
-- the report lags the month, and a settled cost is no more than the lease.
pub data MonthCall (cap : ℕ) : MonthState → MonthState → Type 0 where
  authorize_calls :
      (v : Outside) (q : CallRequest) (c : Client) (s : MonthState)
      → Lagging v c s
      → cap_micro_usd (ceiling_of (configured_ceiling v.env)) ≡ cap
      → MonthCall cap s (authorize_call v q c s).month
  settle_calls :
      (k : CapConfig) (d e : Delivery) (a : Authorization) (t : TelemetryResult) (c : Client)
      (s : MonthState)
      → to_micro_usd t.usage.estimated_cost ≤ amount_of a.id s.lease_data
      → MonthCall cap s (settle_call k d e a t c s).month
  failure_calls :
      (d : Delivery) (a : Authorization) (status : Option ℕ) (c : Client) (s : MonthState)
      → MonthCall cap s (settle_provider_failure d a status c s).month

-- The calls of all the processes on a month, in their order.
pub data MonthCalls (cap : ℕ) : MonthState → MonthState → Type 0 where
  no_call : (s : MonthState) → MonthCalls cap s s
  then_call : {s t u : MonthState} → MonthCalls cap s t → MonthCall cap t u → MonthCalls cap s u

joined :
    {cap : ℕ} {s t u : MonthState}
    → BoundedSteps cap s t
    → BoundedSteps cap t u
    → BoundedSteps cap s u
joined xs (no_step _) = xs
joined xs (and_then ys st) = and_then (joined xs ys) st

call-Steps : (cap : ℕ) {s t : MonthState} → MonthCall cap s t → BoundedSteps cap s t
call-Steps cap (authorize_calls v q c s o e) =
    subst (λ k. BoundedSteps k s (authorize_call v q c s).month) e (authorize_call-Steps v q c s o)
call-Steps cap (settle_calls k d e a t c s h) = settle_call-Steps k d e a t c s cap h
call-Steps cap (failure_calls d a status c s) = failure-Steps d a status c s cap

-- The calls of all the processes do to the month what some sequence of scripts does, each of them bounded as the
-- calls are: with reports that lag the month and settled costs within their leases.
calls-BoundedSteps : (cap : ℕ) {s t : MonthState} → MonthCalls cap s t → BoundedSteps cap s t
calls-BoundedSteps cap (no_call s) = no_step s
calls-BoundedSteps cap (then_call calls one) =
    joined (calls-BoundedSteps cap calls) (call-Steps cap one)

-- Whatever the calls of all the processes and the fate of their scripts, a month whose leases are covered and whose spent and
-- reserved sums are within the ceiling stays so, when the reports lag the month, the ceiling is the same and settled
-- costs are within their leases.
pub calls-Within : (cap : ℕ) {s t : MonthState} → MonthCalls cap s t → Within cap s → Within cap t
calls-Within cap calls w = BoundedSteps-Within cap (calls-BoundedSteps cap calls) w
