-- ===== src/Month/Covered.antt =====
-- The lease of an authorization and the cost of its call.
use mathlib.Core.Path.{subst}
use portfolio_manager.Month.AuthorizeSteps.{after_decision-month}
use portfolio_manager.Base.{
  ℕ, ◌+◌, ◌≤◌, ◌≡◌, refl, sym, ap, true, some, is_some, ltb, arith, String, Outcome, ok, thrown,
  Outcome-cases, Bool-cases, inl, inr, ok-injective,
}
use portfolio_manager.Month.Hash.{total, get?, amount_of}
use portfolio_manager.Month.Settings.{
  CapConfig, configured, not_configured, invalid_config, configured_ceiling, to_micro_usd,
  cap_micro_usd, max_request_bytes_of, budget_required_of,
}
use portfolio_manager.Month.Report.{SpendReport}
use portfolio_manager.Month.Pricing.{
  Request, Bound, Usage, resolve_pricing_version, resolve_model_pricing, request_upper_bound,
  estimate_usage_cost,
}
use portfolio_manager.Month.Bound.{FitsRequest, usage_cost-le-bound}
use portfolio_manager.Month.Store.{
  MonthState, AuthorizeArgs, Decision, authorized, exhausted, protected_pool, poisoned, authorize,
  limit_of,
}
use portfolio_manager.Month.Ceiling.{Means, authorize-Means}
use portfolio_manager.Month.Settlement.{ceiling_of}
use portfolio_manager.Month.Client.{
  CallError, Authorization, Client, Delivery, answered, lost_before, lost_after, Outside,
  CallRequest, load_configured_report, script_args, after_decision, send_authorization,
  authorize_bounded, authorize_reported, authorize_configured, authorize_call, reservation_of,
}

-- The lease of an authorization in the month `t`, under the cap `cap`.
pub record Leased (q : CallRequest) (cap : ℕ) (a : Authorization) (t : MonthState) : Type 0 where
  pub b : Bound
  pub bounded : request_upper_bound q.model a.pricing_version q.request ≡ ok b
  pub enough : b.upper_bound ≤ a.reserve_usd
  pub leased : get? a.id t.lease_data ≡ some (to_micro_usd a.reserve_usd)
  pub within : t.spent + t.reserved ≤ cap

limit_le_cap : (a : AuthorizeArgs) → limit_of a ≤ a.cap
limit_le_cap a = ground arith

decision-Leased :
    (v : Outside) (q : CallRequest) (version : String) (ceiling protected : ℕ) (r : SpendReport)
    (b : Bound) (c : Client) (s t : MonthState) (d : Decision) (o : Authorization)
    → request_upper_bound q.model version q.request ≡ ok b
    → Means (script_args v q ceiling protected (reservation_of v q b) r) s t d
    → (after_decision v q version (reservation_of v q b) c t d).outcome ≡ ok o
    → Leased q (cap_micro_usd ceiling) o t
unfolding after_decision script_args
decision-Leased v q version ceiling protected r b c s t (poisoned n reason) o e m h = cc
decision-Leased v q version ceiling protected r b c s t (exhausted n k) o e m h = cc
decision-Leased v q version ceiling protected r b c s t (protected_pool n k) o e m h = cc
decision-Leased v q version ceiling protected r b c s t (authorized n k end) o e m h =
    rw (sym (ok-injective h)) (record {
      b = b;
      bounded = e;
      enough = omega arith;
      leased = m.leased;
      within = omega (
        arith,
        m.within,
        limit_le_cap (script_args v q ceiling protected (reservation_of v q b) r),
      );
    })

send-Leased :
    (f : Delivery) (v : Outside) (q : CallRequest) (version : String) (ceiling protected : ℕ)
    (r : SpendReport) (b : Bound) (c : Client) (s : MonthState) (o : Authorization)
    → v.delivery ≡ f
    → total s.lease_data ≤ s.reserved
    → request_upper_bound q.model version q.request ≡ ok b
    → (send_authorization v q version
        (reservation_of v q b)
        (script_args v q ceiling protected (reservation_of v q b) r)
        c
        s).outcome
      ≡ ok o
    → Leased q
        (cap_micro_usd ceiling)
        o
        (send_authorization v q version
          (reservation_of v q b)
          (script_args v q ceiling protected (reservation_of v q b) r)
          c
          s).month
unfolding send_authorization script_args
send-Leased lost_before v q version ceiling protected r b c s o f w e h = cc (rw f at h)
send-Leased lost_after v q version ceiling protected r b c s o f w e h = cc (rw f at h)
send-Leased answered v q version ceiling protected r b c s o f w e h =
    let a = script_args v q ceiling protected (reservation_of v q b) r in
    let m = authorize-Means a s w in
    let k = rw f at h in
    rw f (
      subst (λ t. Leased q (cap_micro_usd ceiling) o t)
        (sym (
          after_decision-month v q version (reservation_of v q b) c (authorize a s).0
            (authorize a s).1))
        (decision-Leased v q version ceiling protected r b c s (authorize a s).0 (authorize a s).1 o
          e m k))

bounded-Leased :
    (v : Outside) (q : CallRequest) (version : String) (ceiling protected : ℕ) (r : SpendReport)
    (c : Client) (s : MonthState) (o : Authorization)
    → total s.lease_data ≤ s.reserved
    → (authorize_bounded v q version ceiling protected r c s).outcome ≡ ok o
    → Leased q
        (cap_micro_usd ceiling)
        o
        (authorize_bounded v q version ceiling protected r c s).month
unfolding authorize_bounded
bounded-Leased v q version ceiling protected r c s o w h =
    elim (Outcome-cases (request_upper_bound q.model version q.request)) [
      | inr e ↦ let k = rw (e.1, authorize_bounded) at h in cc k
      | inl e ↦ elim (Bool-cases (ltb (max_request_bytes_of v.env) e.0.request_bytes)) [
        | inl b ↦ let k = rw (e.1, authorize_bounded, b) at h in cc k
        | inr b ↦
            let k = rw (e.1, authorize_bounded, b) at h in
            rw (e.1, authorize_bounded, b)
              (send-Leased v.delivery v q version ceiling protected r e.0 c s o refl w e.1 k)
      ]
    ]

reported-Leased :
    (v : Outside) (q : CallRequest) (version : String) (ceiling protected : ℕ)
    (l : Client × Outcome CallError SpendReport) (s : MonthState) (o : Authorization)
    → total s.lease_data ≤ s.reserved
    → (authorize_reported v q version ceiling protected l s).outcome ≡ ok o
    → Leased q
        (cap_micro_usd ceiling)
        o
        (authorize_reported v q version ceiling protected l s).month
unfolding authorize_reported
reported-Leased v q version ceiling protected (c, thrown e) s o w h = cc h
reported-Leased v q version ceiling protected (c, ok r) s o w h =
    bounded-Leased v q version ceiling protected r c s o w h

configured-Leased :
    (v : Outside) (q : CallRequest) (version : String) (k : CapConfig) (c : Client) (s : MonthState)
    (o : Authorization)
    → total s.lease_data ≤ s.reserved
    → o.is_configured ≡ true
    → (authorize_configured v q version k c s).outcome ≡ ok o
    → Leased q (cap_micro_usd (ceiling_of k)) o (authorize_configured v q version k c s).month
unfolding authorize_configured
configured-Leased v q version invalid_config c s o w t h = cc h
configured-Leased v q version not_configured c s o w t h =
    elim (Bool-cases (budget_required_of v.env)) [
      | inl e ↦ let k = rw e at h in cc k
      | inr e ↦ let k = rw e at h in let u = ap (λ a. a.is_configured) (ok-injective k) in cc (u, t)
    ]
configured-Leased v q version (configured ceiling protected) c s o w t h =
    elim (Bool-cases (is_some c.poisoned_reason)) [
      | inl e ↦ let k = rw e at h in cc k
      | inr e ↦ rw e (
          reported-Leased v q version ceiling protected (load_configured_report v c) s o w
            (rw e at h))
    ]

-- An authorization under a ceiling that a process gets, of a month whose reserved sum covers its leases, has a bound that
-- its reservation covers, a lease of the reservation in the month, and leaves all that is
-- spent and reserved within the ceiling.
authorize_call-Leased :
    (v : Outside) (q : CallRequest) (c : Client) (s : MonthState) (o : Authorization)
    → total s.lease_data ≤ s.reserved
    → o.is_configured ≡ true
    → (authorize_call v q c s).outcome ≡ ok o
    → Leased q
        (cap_micro_usd (ceiling_of (configured_ceiling v.env)))
        o
        (authorize_call v q c s).month
unfolding authorize_call
authorize_call-Leased v q c s o w t h =
    elim (Outcome-cases (resolve_pricing_version v.env.pricing_version v.date)) [
      | inr e ↦ let k = rw (e.1, authorize_call) at h in cc k
      | inl e ↦ elim (Outcome-cases (resolve_model_pricing q.model e.0)) [
        | inr p ↦ let k = rw (e.1, authorize_call, p.1) at h in cc k
        | inl p ↦
            let k = rw (e.1, authorize_call, p.1) at h in
            rw (e.1, authorize_call, p.1)
              (configured-Leased v q e.0 (configured_ceiling v.env) c s o w t k)
      ]
    ]

micro_le : (a b : ℕ) → a ≤ b → to_micro_usd a ≤ to_micro_usd b
unfolding to_micro_usd
micro_le a b h = omega (arith, h)

-- Where a process gets an authorization under a ceiling, from a month whose reserved sum covers its leases, all that is spent and
-- reserved is within the ceiling, and an answer that stays within the request, as its bytes and `max_tokens` limit it, has
-- a cost in millionths no more than the amount of the lease.
pub authorize_call-covers_cost :
    (v : Outside) (q : CallRequest) (c : Client) (s : MonthState) (o : Authorization) (r : Request)
    (max_output : ℕ) (u : Usage) (name : String) (cost : ℕ)
    → total s.lease_data ≤ s.reserved
    → o.is_configured ≡ true
    → (authorize_call v q c s).outcome ≡ ok o
    → q.request ≡ some r
    → r.max_tokens ≡ some max_output
    → ((b : Bound)
        → request_upper_bound q.model o.pricing_version q.request ≡ ok b
        → FitsRequest u b.request_bytes max_output)
    → estimate_usage_cost q.model o.pricing_version u ≡ ok (name, cost)
    → let t = (authorize_call v q c s).month in
      (t.spent + t.reserved ≤ cap_micro_usd (ceiling_of (configured_ceiling v.env)))
      × (to_micro_usd cost ≤ amount_of o.id t.lease_data)
authorize_call-covers_cost v q c s o r max_output u name cost w t h e m fits price =
    let l = authorize_call-Leased v q c s o w t h in
    let le =
      usage_cost-le-bound q.model o.pricing_version r l.b u max_output name cost (rw e at l.bounded)
        m (fits l.b l.bounded) price in
    (l.within, rw l.leased (micro_le cost o.reserve_usd (omega (arith, le, l.enough))))
