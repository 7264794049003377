-- ===== src/Month/SettleSteps.antt =====
-- The scripts that a settlement of a process runs.
use portfolio_manager.Base.{
  ℕ, ◌+◌, ◌≤◌, ◌≡◌, refl, sym, ap, ◌∙◌, Bool, true, false, Option, none, some, find?, List, [], ◌∷◌,
  arith, Bool-cases, Option-cases, inl, inr, or_else, ltb, String, Outcome-cases, eq_iff,
}
use mathlib.Core.Path.{subst}
use portfolio_manager.Month.Hash.{amount_of}
use portfolio_manager.Month.Settings.{CapConfig, to_micro_usd, epsilon}
use portfolio_manager.Month.Store.{MonthState, SettleKind, success, ambiguous_failure, settle}
use portfolio_manager.Month.Client.{
  Authorization, Client, Delivery, answered, lost_before, lost_after, Left,
}
use portfolio_manager.Month.Settlement.{
  UsageRecord, TelemetryResult, poison_month, has_id, after_settle, atomic_settle, check_ceiling,
  matches, settle_active, settle_usage, settle_call, failure_disposition, settle_provider_failure,
  ceiling_of, disposed,
}
use portfolio_manager.Month.Within.{BoundedSteps, settling, poisoning, no_step, and_then}
use portfolio_manager.Month.AuthorizeSteps.{one_step}

poison-Steps :
    (d : Delivery) (reason : String) (c : Client) (s t : MonthState) (cap : ℕ)
    → BoundedSteps cap s t
    → BoundedSteps cap s (poison_month d reason c t).1
unfolding poison_month
poison-Steps answered reason c s t cap h = and_then h (poisoning t reason)
poison-Steps lost_before reason c s t cap h = h
poison-Steps lost_after reason c s t cap h = and_then h (poisoning t reason)

after_settle-month :
    (a : Authorization) (c : Client) (r : MonthState × Option ℕ) → (after_settle a c r).month ≡ r.0
unfolding after_settle
after_settle-month a c (t, none) = refl
after_settle-month a c (t, some n) = refl

atomic-Steps :
    (d : Delivery) (a : Authorization) (kind : SettleKind) (actual : ℕ) (c : Client)
    (s : MonthState) (cap : ℕ)
    → to_micro_usd actual ≤ amount_of a.id s.lease_data
    → BoundedSteps cap s (atomic_settle d a kind actual c s).month
unfolding atomic_settle
atomic-Steps answered a kind actual c s cap h =
    subst (λ t. BoundedSteps cap s t)
      (sym (after_settle-month a c (settle a.id kind (to_micro_usd actual) s)))
      (one_step (settling s a.id kind (to_micro_usd actual) h))
atomic-Steps lost_before a kind actual c s cap h = no_step s
atomic-Steps lost_after a kind actual c s cap h =
    one_step (settling s a.id kind (to_micro_usd actual) h)

check-Steps :
    (k : CapConfig) (d : Delivery) (u : UsageRecord) (l : Left ℕ) (s : MonthState) (cap : ℕ)
    → BoundedSteps cap s l.month
    → BoundedSteps cap s (check_ceiling k d u l).month
unfolding check_ceiling
check-Steps k d u l s cap h = elim (Outcome-cases l.outcome) [
  | inr e ↦ rw (e.1, check_ceiling) h
  | inl e ↦ elim (Bool-cases (ltb (ceiling_of k + epsilon) l.client.local_spent)) [
    | inl b ↦
        rw (e.1, check_ceiling, b)
          (poison-Steps d "monthly Anthropic ceiling was exceeded after settlement" l.client s
            l.month cap h)
    | inr b ↦ rw (e.1, check_ceiling, b) h
  ]
]

nothing_le : (n : ℕ) → to_micro_usd 0 ≤ n
unfolding to_micro_usd
nothing_le n = omega arith

usage-Steps :
    (b : Bool) (k : CapConfig) (d e : Delivery) (a : Authorization) (u : UsageRecord) (c : Client)
    (s : MonthState) (cap : ℕ)
    → to_micro_usd u.estimated_cost ≤ amount_of a.id s.lease_data
    → BoundedSteps cap s (settle_usage b k d e a u c s).month
unfolding settle_usage
usage-Steps false k d e a u c s cap h =
    check-Steps k e u (atomic_settle d a ambiguous_failure 0 c s) s cap
      (atomic-Steps d a ambiguous_failure 0 c s cap (nothing_le (amount_of a.id s.lease_data)))
usage-Steps true k d e a u c s cap h =
    check-Steps k e u (atomic_settle d a success u.estimated_cost c s) s cap
      (atomic-Steps d a success u.estimated_cost c s cap h)

active-Steps :
    (k : CapConfig) (d e : Delivery) (a : Authorization) (t : TelemetryResult) (c : Client)
    (s : MonthState) (cap : ℕ)
    → to_micro_usd t.usage.estimated_cost ≤ amount_of a.id s.lease_data
    → BoundedSteps cap s (settle_active k d e a t c s).month
unfolding settle_active
active-Steps k d e a t c s cap h = elim (Bool-cases t.persisted) [
  | inr p ↦
      rw (p, settle_active)
        (poison-Steps e "Anthropic usage telemetry write failed after a paid call" c s s cap
          (no_step s))
  | inl p ↦ elim (Bool-cases (matches t.usage a)) [
    | inr m ↦
        rw (p, settle_active, m)
          (poison-Steps e "Anthropic usage record did not match its monthly budget authorization" c
            s s cap (no_step s))
    | inl m ↦
        rw (p, settle_active, m) (usage-Steps t.usage.usage_complete k d e a t.usage c s cap h)
  ]
]

find-has_id :
    (id : String) (xs : List Authorization) {a : Authorization}
    → find? (has_id id) xs ≡ some a
    → a.id ≡ id
find-has_id id [] h = cc
find-has_id id (x ∷ xs) h = elim (Bool-cases (has_id id x)) [
  | inl e ↦ ap (λ o. (or_else o x).id) (sym (rw e at h)) ∙ (eq_iff x.id id).0 e
  | inr e ↦ find-has_id id xs (rw e at h)
]

pub settle_call-Steps :
    (k : CapConfig) (d e : Delivery) (a : Authorization) (t : TelemetryResult) (c : Client)
    (s : MonthState) (cap : ℕ)
    → to_micro_usd t.usage.estimated_cost ≤ amount_of a.id s.lease_data
    → BoundedSteps cap s (settle_call k d e a t c s).month
unfolding settle_call
settle_call-Steps k d e a t c s cap h = elim (Bool-cases a.is_configured) [
  | inr f ↦ rw (f, settle_call) (no_step s)
  | inl f ↦ elim (Option-cases (find? (has_id a.id) c.reservations)) [
    | inl n ↦ rw (f, settle_call, n) (no_step s)
    | inr (active, n) ↦
        rw (f, settle_call, n)
          (active-Steps k d e active t c s cap (
            subst (λ i. to_micro_usd t.usage.estimated_cost ≤ amount_of i s.lease_data)
              (sym (find-has_id a.id c.reservations n)) h))
  ]
]

disposed-month : (kind : SettleKind) (l : Left ℕ) → (disposed kind l).month ≡ l.month
disposed-month kind l = elim (Outcome-cases l.outcome) [ inl e ↦ rw e.1 refl | inr e ↦ rw e.1 refl ]

pub failure-Steps :
    (d : Delivery) (a : Authorization) (status : Option ℕ) (c : Client) (s : MonthState) (cap : ℕ)
    → BoundedSteps cap s (settle_provider_failure d a status c s).month
unfolding settle_provider_failure
failure-Steps d a status c s cap = elim (Bool-cases a.is_configured) [
  | inr f ↦ rw (f, settle_provider_failure) (no_step s)
  | inl f ↦ elim (Option-cases (find? (has_id a.id) c.reservations)) [
    | inl n ↦ rw (f, settle_provider_failure, n) (no_step s)
    | inr (active, n) ↦
        rw (f, settle_provider_failure, n)
          (subst (λ t. BoundedSteps cap s t)
            (sym (
              disposed-month (failure_disposition status)
                (atomic_settle d active (failure_disposition status) 0 c s)))
            (atomic-Steps d active (failure_disposition status) 0 c s cap
              (nothing_le (amount_of active.id s.lease_data))))
  ]
]
