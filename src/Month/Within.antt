-- ===== src/Month/Within.antt =====
-- A month under interleaved scripts of processes that share one ceiling.
use portfolio_manager.Base.{
  ℕ, ◌+◌, ◌-◌, ◌≤◌, ◌≡◌, refl, sym, Option, none, some, Bool-cases, inl, inr, arith, String, ltb,
}
use mathlib.Core.Path.{subst}
use portfolio_manager.Month.Hash.{total, total-del, total-set, del, get?, amount_of}
use portfolio_manager.Month.Store.{
  MonthState, AuthorizeArgs, SettleKind, success, ambiguous_failure, provider_rejection, charge,
  count_settlement, authorize, authorize_under, settle, settle_lease, poison, decide, deny, grant,
  recovered, drop_expired, raised_to, limit_of, count_denial,
}
use portfolio_manager.Month.Recovery.{recovered-Moved}

-- A script of a process that observes no more cost than the month has, and whose calls cost no more than
-- their leases.
pub data BoundedStep (cap : ℕ) : MonthState → MonthState → Type 0 where
  authorizing :
      (s : MonthState) (a : AuthorizeArgs)
      → a.cap ≡ cap
      → a.observed ≤ s.spent
      → BoundedStep cap s (authorize a s).0
  settling :
      (s : MonthState) (id : String) (kind : SettleKind) (actual : ℕ)
      → actual ≤ amount_of id s.lease_data
      → BoundedStep cap s (settle id kind actual s).0
  poisoning : (s : MonthState) (reason : String) → BoundedStep cap s (poison reason s)

pub data BoundedSteps (cap : ℕ) : MonthState → MonthState → Type 0 where
  no_step : (s : MonthState) → BoundedSteps cap s s
  and_then :
      {s t u : MonthState} → BoundedSteps cap s t → BoundedStep cap t u → BoundedSteps cap s u

-- The leases are covered, and all is within the ceiling.
pub record Within (cap : ℕ) (s : MonthState) : Type 0 where
  pub held : total s.lease_data ≤ s.reserved
  pub ceiling : s.spent + s.reserved ≤ cap

count_denial-same :
    (a : AuthorizeArgs) (s : MonthState) → (count_denial a s).lease_data ≡ s.lease_data
unfolding count_denial
count_denial-same a s = ground arith

decide-Within :
    (a : AuthorizeArgs) (spent reserved : ℕ) (s : MonthState)
    → total s.lease_data ≤ reserved
    → spent + reserved ≤ a.cap
    → Within a.cap (decide a spent reserved s).0
unfolding decide deny grant
decide-Within a spent reserved s h c =
    elim (Bool-cases (ltb (limit_of a) (spent + reserved + a.reserve))) [
      | inl over ↦ rw over (record {
        held = rw (count_denial-same a (record s { denied_total = s.denied_total + 1 })) h;
        ceiling = c;
      })
      | inr fits ↦ rw fits (record {
        held = omega (arith, total-set a.id a.reserve s.lease_data);
        ceiling = ground arith;
      })
    ]

authorize_under-Within :
    (p : Option String) (a : AuthorizeArgs) (s : MonthState)
    → a.observed ≤ s.spent
    → Within a.cap s
    → Within a.cap (authorize_under p a s).0
unfolding authorize_under drop_expired
authorize_under-Within (some reason) a s o w =
    let m = recovered-Moved a.at s w.held in
    record { held = omega (arith, m.slack, w.held); ceiling = w.ceiling }
authorize_under-Within none a s o w =
    let m = recovered-Moved a.at s w.held in
    decide-Within a (raised_to a.observed (recovered a.at s).spent) (recovered a.at s).reserved
      (drop_expired a.at s) m.held (ground (arith, m.whole, m.grows, w.ceiling))

authorize-Within :
    (a : AuthorizeArgs) (s : MonthState)
    → a.observed ≤ s.spent
    → Within a.cap s
    → Within a.cap (authorize a s).0
unfolding authorize
authorize-Within a s o w = authorize_under-Within s.poisoned_reason a s o w

count_settlement-Within :
    (cap : ℕ) (kind : SettleKind) (s : MonthState)
    → Within cap s
    → Within cap (count_settlement kind s)
count_settlement-Within cap success s w = record { held = w.held; ceiling = w.ceiling }
count_settlement-Within cap ambiguous_failure s w = record { held = w.held; ceiling = w.ceiling }
count_settlement-Within cap provider_rejection s w = record { held = w.held; ceiling = w.ceiling }

charge_le :
    (kind : SettleKind) (amount actual : ℕ) → actual ≤ amount → charge kind amount actual ≤ amount
charge_le success amount actual h = h
charge_le ambiguous_failure amount actual h = omega arith
charge_le provider_rejection amount actual h = omega arith

settle_lease-Within :
    (o : Option ℕ) (cap : ℕ) (id : String) (kind : SettleKind) (actual : ℕ) (s : MonthState)
    → get? id s.lease_data ≡ o
    → actual ≤ amount_of id s.lease_data
    → Within cap s
    → Within cap (settle_lease o id kind actual s).0
unfolding settle_lease
settle_lease-Within none cap id kind actual s e c w = w
settle_lease-Within (some amount) cap id kind actual s e c w =
    let left = rw e at (total-del id s.lease_data) in
    let h : total (del id s.lease_data) ≤ s.reserved - amount = omega (arith, left, w.held) in
    let k : charge kind amount actual ≤ amount = charge_le kind amount actual (rw e at c) in
    count_settlement-Within cap kind _
      (record { held = h; ceiling = omega (arith, k, left, w.held, w.ceiling) })

settle-Within :
    (cap : ℕ) (id : String) (kind : SettleKind) (actual : ℕ) (s : MonthState)
    → actual ≤ amount_of id s.lease_data
    → Within cap s
    → Within cap (settle id kind actual s).0
unfolding settle
settle-Within cap id kind actual s c w =
    settle_lease-Within (get? id s.lease_data) cap id kind actual s refl c w

BoundedStep-Within :
    (cap : ℕ) {s t : MonthState} → BoundedStep cap s t → Within cap s → Within cap t
unfolding poison
BoundedStep-Within cap (authorizing s a e o) w =
    subst (λ k. Within k (authorize a s).0) e
      (authorize-Within a s o (subst (λ k. Within k s) (sym e) w))
BoundedStep-Within cap (settling s id kind actual c) w = settle-Within cap id kind actual s c w
BoundedStep-Within cap (poisoning s reason) w = record { held = w.held; ceiling = w.ceiling }

-- Whatever the order of the scripts, a month that starts with its leases covered and all that is spent and
-- reserved within the ceiling stays so, when no process observes more cost than the month has counted, all have
-- that ceiling, and no settled cost is above its lease.
pub BoundedSteps-Within :
    (cap : ℕ) {s t : MonthState} → BoundedSteps cap s t → Within cap s → Within cap t
BoundedSteps-Within cap (no_step s) w = w
BoundedSteps-Within cap (and_then steps one) w =
    BoundedStep-Within cap one (BoundedSteps-Within cap steps w)
