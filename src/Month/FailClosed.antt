-- ===== src/Month/FailClosed.antt =====
-- The settlement of a paid call without trustworthy telemetry (`settleCall`).
use portfolio_manager.Base.{
  ◌||◌, Bool, ℕ, ◌≡◌, refl, true, false, ◌&&◌, some, is_some, find?, String, and_split, eq_iff, ◌⊎◌,
  ◌==◌, arith, thrown, Bool-cases, inl, inr,
}
use portfolio_manager.Base.Text.{◌=s=◌}
use portfolio_manager.Month.Settings.{CapConfig}
use portfolio_manager.Month.Store.{MonthState, poison}
use portfolio_manager.Month.Client.{
  telemetry_unavailable, Authorization, Client, Delivery, answered, lost_before, lost_after,
}
use portfolio_manager.Month.Settlement.{
  TelemetryResult, has_id, matches, settle_active, settle_call, poison_month,
}

-- An object that is poisoned.
abbrev pub Refuses : Client → Type 0
Refuses c = is_some c.poisoned_reason ≡ true

-- A record that was persisted and is of the authorization.
pub record Trustworthy (t : TelemetryResult) (a : Authorization) : Type 0 where
  pub persisted : t.persisted ≡ true
  pub same_role : t.usage.role ≡ a.role
  pub same_prices : t.usage.pricing_version ≡ a.pricing_version
  pub same_time : t.usage.created_at ≡ a.authorized_at
  pub same_model : (t.usage.model ≡ a.model) ⊎ (t.usage.requested_model ≡ a.model)

-- The month where the script that poisons it was lost before it ran, and where it ran.
abbrev pub MonthAfter : Delivery → MonthState → MonthState → Type 0
MonthAfter lost_before s t = t ≡ s
MonthAfter answered s t = is_some t.poisoned_reason ≡ true
MonthAfter lost_after s t = is_some t.poisoned_reason ≡ true

-- What a settlement without trustworthy telemetry does.
pub record FailsClosed (d : Delivery) (s : MonthState) (c' : Client) (t : MonthState) : Type 0 where
  pub client_poisoned : Refuses c'
  pub month_after : MonthAfter d s t
  pub no_settlement : t.lease_data ≡ s.lease_data
  pub same_sums : (t.spent ≡ s.spent) × (t.reserved ≡ s.reserved)

poison_month-FailsClosed :
    (d : Delivery) (reason : String) (c : Client) (s : MonthState)
    → FailsClosed d s (poison_month d reason c s).0 (poison_month d reason c s).1
unfolding poison_month poison
poison_month-FailsClosed answered reason c s = record {
  client_poisoned = refl;
  month_after = refl;
  no_settlement = refl;
  same_sums = (refl, refl);
}
poison_month-FailsClosed lost_before reason c s = record {
  client_poisoned = refl;
  month_after = refl;
  no_settlement = refl;
  same_sums = (refl, refl);
}
poison_month-FailsClosed lost_after reason c s = record {
  client_poisoned = refl;
  month_after = refl;
  no_settlement = refl;
  same_sums = (refl, refl);
}

active-FailsClosed :
    (k : CapConfig) (d e : Delivery) (active : Authorization) (t : TelemetryResult) (c : Client)
    (s : MonthState)
    → t.persisted && matches t.usage active ≡ false
    → let l = settle_active k d e active t c s in
      (l.outcome ≡ thrown telemetry_unavailable) × FailsClosed e s l.client l.month
unfolding settle_active
active-FailsClosed k d e active t c s bad = elim (Bool-cases t.persisted) [
  | inr p ↦
      rw (p, settle_active)
        (
          refl,
          poison_month-FailsClosed e "Anthropic usage telemetry write failed after a paid call" c s,
        )
  | inl p ↦
      let m : matches t.usage active ≡ false = rw p at bad in
      rw (p, settle_active, m)
        (
          refl,
          poison_month-FailsClosed e
              "Anthropic usage record did not match its monthly budget authorization" c s,
        )
]

same_number : (m n : ℕ) → (m == n) ≡ true → m ≡ n
same_number m n h = ground arith

or_second : {a b : Bool} → a ≡ false → a || b ≡ true → b ≡ true
or_second {a = true} e h = cc e
or_second {a = false} e h = h

one_of : (s u name : String) → (s =s= name || u =s= name) ≡ true → (s ≡ name) ⊎ (u ≡ name)
one_of s u name h = elim (Bool-cases (s =s= name)) [
  | inl e ↦ inl ((eq_iff s name).0 e)
  | inr e ↦ inr ((eq_iff u name).0 (or_second e h))
]

matches-Trustworthy :
    (t : TelemetryResult) (a : Authorization)
    → t.persisted && matches t.usage a ≡ true
    → Trustworthy t a
matches-Trustworthy t a h =
    let p = and_split {a = t.persisted} h in
    let model = and_split p.1 in
    let time = and_split model.0 in
    let role = and_split time.0 in
    record {
      persisted = p.0;
      same_role = (eq_iff t.usage.role a.role).0 role.0;
      same_prices = (eq_iff t.usage.pricing_version a.pricing_version).0 role.1;
      same_time = same_number t.usage.created_at a.authorized_at time.1;
      same_model = one_of t.usage.model t.usage.requested_model a.model model.1;
    }

-- When the telemetry of an active authorization was not persisted, or is not of its role, price
-- version, time and model, the settlement throws, poisons the object, and leaves the lease and
-- the two sums of the month as they were, whatever the fate of the scripts; it poisons the month
-- if the script for that ran, and else leaves the month as it was.
pub settle_call-FailsClosed :
    (k : CapConfig) (d e : Delivery) (a active : Authorization) (t : TelemetryResult) (c : Client)
    (s : MonthState)
    → a.is_configured ≡ true
    → find? (has_id a.id) c.reservations ≡ some active
    → ¬ Trustworthy t active
    → let l = settle_call k d e a t c s in
      (l.outcome ≡ thrown telemetry_unavailable) × FailsClosed e s l.client l.month
unfolding settle_call
settle_call-FailsClosed k d e a active t c s f n bad =
    elim (Bool-cases (t.persisted && matches t.usage active)) [
      | inl good ↦ absurd (bad (matches-Trustworthy t active good))
      | inr not_so ↦ rw (f, settle_call, n) (active-FailsClosed k d e active t c s not_so)
    ]
