-- ===== src/Month/AuthorizeSteps.antt =====
-- The scripts that an authorization of a process runs.
use portfolio_manager.Base.{
  ℕ, ◌≤◌, ◌≡◌, refl, sym, is_some, Bool-cases, inl, inr, or_else, ltb, String, Outcome, ok, thrown,
  Outcome-cases,
}
use mathlib.Core.Path.{subst}
use portfolio_manager.Month.Settings.{
  CapConfig, not_configured, invalid_config, configured, configured_ceiling, to_micro_usd,
  cap_micro_usd, max_request_bytes_of, budget_required_of,
}
use portfolio_manager.Month.Report.{SpendReport}
use portfolio_manager.Month.Pricing.{
  resolve_pricing_version, resolve_model_pricing, request_upper_bound,
}
use portfolio_manager.Month.Store.{
  MonthState, AuthorizeArgs, Decision, authorized, exhausted, protected_pool, poisoned, authorize,
}
use portfolio_manager.Month.Client.{
  CallError, Client, Delivery, answered, lost_before, lost_after, Outside, CallRequest,
  load_configured_report, script_args, after_decision, send_authorization, authorize_bounded,
  authorize_reported, authorize_configured, authorize_call, reservation_of,
}
use portfolio_manager.Month.Settlement.{ceiling_of}
use portfolio_manager.Month.Within.{BoundedStep, BoundedSteps, authorizing, no_step, and_then}

-- The report that a client goes by has no more cost than the month has counted.
abbrev pub Lagging : Outside → Client → MonthState → Type 0
Lagging v c s =
    (r : SpendReport)
    → (load_configured_report v c).1 ≡ ok r
    → to_micro_usd (or_else r.estimated_cost 0) ≤ s.spent

pub one_step : {cap : ℕ} {s t : MonthState} → BoundedStep cap s t → BoundedSteps cap s t
one_step st = and_then (no_step _) st

pub after_decision-month :
    (v : Outside) (q : CallRequest) (version : String) (n : ℕ) (c : Client) (t : MonthState)
    (d : Decision)
    → (after_decision v q version n c t d).month ≡ t
unfolding after_decision
after_decision-month v q version n c t (poisoned r reason) = refl
after_decision-month v q version n c t (exhausted a b) = refl
after_decision-month v q version n c t (protected_pool a b) = refl
after_decision-month v q version n c t (authorized a b e) = refl

send-Steps :
    (d : Delivery) (v : Outside) (q : CallRequest) (version : String) (n : ℕ) (a : AuthorizeArgs)
    (c : Client) (s : MonthState) (cap : ℕ)
    → v.delivery ≡ d
    → a.cap ≡ cap
    → a.observed ≤ s.spent
    → BoundedSteps cap s (send_authorization v q version n a c s).month
unfolding send_authorization
send-Steps answered v q version n a c s cap e k o = rw e (
    subst (λ t. BoundedSteps cap s t)
      (sym (after_decision-month v q version n c (authorize a s).0 (authorize a s).1))
      (one_step (authorizing s a k o)))
send-Steps lost_before v q version n a c s cap e k o = rw e (no_step s)
send-Steps lost_after v q version n a c s cap e k o = rw e (one_step (authorizing s a k o))

bounded-Steps :
    (v : Outside) (q : CallRequest) (version : String) (ceiling protected : ℕ) (r : SpendReport)
    (c : Client) (s : MonthState)
    → to_micro_usd (or_else r.estimated_cost 0) ≤ s.spent
    → BoundedSteps
        (cap_micro_usd ceiling)
        s
        (authorize_bounded v q version ceiling protected r c s).month
unfolding authorize_bounded script_args
bounded-Steps v q version ceiling protected r c s o =
    elim (Outcome-cases (request_upper_bound q.model version q.request)) [
      | inr e ↦ rw (e.1, authorize_bounded) (no_step s)
      | inl e ↦ elim (Bool-cases (ltb (max_request_bytes_of v.env) e.0.request_bytes)) [
        | inl b ↦ rw (e.1, authorize_bounded, b) (no_step s)
        | inr b ↦
            rw (e.1, authorize_bounded, b)
              (send-Steps v.delivery v q version (reservation_of v q e.0)
                (script_args v q ceiling protected (reservation_of v q e.0) r) c s
                (cap_micro_usd ceiling) refl refl o)
      ]
    ]

reported-Steps :
    (v : Outside) (q : CallRequest) (version : String) (ceiling protected : ℕ)
    (l : Client × Outcome CallError SpendReport) (s : MonthState)
    → ((r : SpendReport) → l.1 ≡ ok r → to_micro_usd (or_else r.estimated_cost 0) ≤ s.spent)
    → BoundedSteps
        (cap_micro_usd ceiling)
        s
        (authorize_reported v q version ceiling protected l s).month
unfolding authorize_reported
reported-Steps v q version ceiling protected (c, thrown e) s o = no_step s
reported-Steps v q version ceiling protected (c, ok r) s o =
    bounded-Steps v q version ceiling protected r c s (o r refl)

configured-Steps :
    (v : Outside) (q : CallRequest) (version : String) (k : CapConfig) (c : Client) (s : MonthState)
    → Lagging v c s
    → BoundedSteps (cap_micro_usd (ceiling_of k)) s (authorize_configured v q version k c s).month
unfolding authorize_configured
configured-Steps v q version invalid_config c s o = no_step s
configured-Steps v q version not_configured c s o = elim (Bool-cases (budget_required_of v.env)) [
  | inl e ↦ rw e (no_step s)
  | inr e ↦ rw e (no_step s)
]
configured-Steps v q version (configured ceiling protected) c s o =
    elim (Bool-cases (is_some c.poisoned_reason)) [
      | inl e ↦ rw e (no_step s)
      | inr e ↦ rw e (reported-Steps v q version ceiling protected (load_configured_report v c) s o)
    ]

pub authorize_call-Steps :
    (v : Outside) (q : CallRequest) (c : Client) (s : MonthState)
    → Lagging v c s
    → BoundedSteps
        (cap_micro_usd (ceiling_of (configured_ceiling v.env)))
        s
        (authorize_call v q c s).month
unfolding authorize_call
authorize_call-Steps v q c s o =
    elim (Outcome-cases (resolve_pricing_version v.env.pricing_version v.date)) [
      | inr e ↦ rw (e.1, authorize_call) (no_step s)
      | inl e ↦ elim (Outcome-cases (resolve_model_pricing q.model e.0)) [
        | inr p ↦ rw (e.1, authorize_call, p.1) (no_step s)
        | inl p ↦
            rw (e.1, authorize_call, p.1)
              (configured-Steps v q e.0 (configured_ceiling v.env) c s o)
      ]
    ]
