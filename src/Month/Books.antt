-- ===== src/Month/Books.antt =====
-- The books of a month under any interleaving of the scripts.
use portfolio_manager.Base.{
  ℕ, ◌+◌, ◌-◌, ◌≤◌, ◌≡◌, refl, sym, ◌∙◌, Bool, Option, none, some, Bool-cases, inl, inr, arith,
  String, ltb,
}
use portfolio_manager.Base.Text.{◌=s=◌}
use portfolio_manager.Month.Hash.{total, total-del, total-set, amount_of, get?, del}
use portfolio_manager.Month.Store.{
  MonthState, AuthorizeArgs, SettleKind, success, ambiguous_failure, provider_rejection,
  count_settlement, authorize, authorize_under, settle, settle_lease, poison, decide, deny, grant,
  count_denial, recovered, drop_expired, raised_to, limit_of, for_pool, empty_month,
}
use portfolio_manager.Month.Recovery.{recovered-Moved, recovered-get?}

-- One script of one process. A new lease has an id that no lease has.
pub data Step : MonthState → MonthState → Type 0 where
  authorizing :
      (s : MonthState) (a : AuthorizeArgs)
      → get? a.id s.lease_data ≡ none
      → Step s (authorize a s).0
  settling :
      (s : MonthState) (id : String) (kind : SettleKind) (actual : ℕ)
      → Step s (settle id kind actual s).0
  poisoning : (s : MonthState) (reason : String) → Step s (poison reason s)

-- What the scripts of all the processes have made of an empty month.
pub data Reachable : MonthState → Type 0 where
  at_start : Reachable empty_month
  then_step : {s t : MonthState} → Reachable s → Step s t → Reachable t

pub record Booked (s : MonthState) : Type 0 where
  pub held : total s.lease_data ≤ s.reserved
  pub exact : s.poisoned_reason ≡ none → s.reserved ≡ total s.lease_data
  pub denials :
      s.denied_total
      ≡ s.denied_evaluator + s.denied_weekly_review + s.denied_protected_holding + s.denied_other

record Counted (s t : MonthState) : Type 0 where
  one :
      t.denied_evaluator + t.denied_weekly_review + t.denied_protected_holding + t.denied_other
      ≡ s.denied_evaluator + s.denied_weekly_review + s.denied_protected_holding + s.denied_other
        + 1
  same_total : t.denied_total ≡ s.denied_total
  same_data : t.lease_data ≡ s.lease_data
  same_poison : t.poisoned_reason ≡ s.poisoned_reason

count_denial-Counted : (a : AuthorizeArgs) (s : MonthState) → Counted s (count_denial a s)
unfolding count_denial
count_denial-Counted a s = elim (Bool-cases (a.role =s= "evaluator")) [
  | inl e ↦
      rw e (record { one = omega arith; same_total = refl; same_data = refl; same_poison = refl })
  | inr e ↦ elim (Bool-cases (a.role =s= "weekly_review")) [
    | inl r ↦
        rw (e, r)
          (record { one = omega arith; same_total = refl; same_data = refl; same_poison = refl })
    | inr r ↦ elim (Bool-cases a.is_protected) [
      | inl p ↦
          rw (e, r, p)
            (record { one = omega arith; same_total = refl; same_data = refl; same_poison = refl })
      | inr p ↦
          rw (e, r, p)
            (record { one = omega arith; same_total = refl; same_data = refl; same_poison = refl })
    ]
  ]
]

deny-Booked :
    (a : AuthorizeArgs) (pool : Bool) (spent reserved : ℕ) (s : MonthState)
    → total s.lease_data ≤ reserved
    → (s.poisoned_reason ≡ none → reserved ≡ total s.lease_data)
    → s.denied_total
      ≡ s.denied_evaluator + s.denied_weekly_review + s.denied_protected_holding + s.denied_other
    → Booked (deny a pool spent reserved s)
unfolding deny
deny-Booked a pool spent reserved s h e d =
    let c = count_denial-Counted a (record s { denied_total = s.denied_total + 1 }) in
    record {
      held = rw c.same_data h;
      exact = λ p. rw c.same_data (e (sym c.same_poison ∙ p));
      denials = omega (arith, c.one, c.same_total, d);
    }

grant-Booked :
    (a : AuthorizeArgs) (spent reserved : ℕ) (s : MonthState)
    → total s.lease_data ≤ reserved
    → (s.poisoned_reason ≡ none → reserved ≡ total s.lease_data)
    → amount_of a.id s.lease_data ≡ 0
    → s.denied_total
      ≡ s.denied_evaluator + s.denied_weekly_review + s.denied_protected_holding + s.denied_other
    → Booked (grant a spent (reserved + a.reserve) s)
unfolding grant
grant-Booked a spent reserved s h e fresh d = record {
  held = omega (arith, total-set a.id a.reserve s.lease_data);
  exact = λ p. omega (arith, total-set a.id a.reserve s.lease_data, e p);
  denials = d;
}

decide-Booked :
    (a : AuthorizeArgs) (spent reserved : ℕ) (s : MonthState)
    → total s.lease_data ≤ reserved
    → (s.poisoned_reason ≡ none → reserved ≡ total s.lease_data)
    → amount_of a.id s.lease_data ≡ 0
    → s.denied_total
      ≡ s.denied_evaluator + s.denied_weekly_review + s.denied_protected_holding + s.denied_other
    → Booked (decide a spent reserved s).0
unfolding decide
decide-Booked a spent reserved s h e fresh d =
    elim (Bool-cases (ltb (limit_of a) (spent + reserved + a.reserve))) [
      | inl over ↦
          rw over (deny-Booked a (for_pool a (spent + reserved + a.reserve)) spent reserved s h e d)
      | inr fits ↦ rw fits (grant-Booked a spent reserved s h e fresh d)
    ]

amount_of-none :
    (id : String) (s : MonthState) → get? id s.lease_data ≡ none → amount_of id s.lease_data ≡ 0
amount_of-none id s h = rw h refl

authorize_under-Booked :
    (p : Option String) (a : AuthorizeArgs) (s : MonthState)
    → s.poisoned_reason ≡ p
    → get? a.id s.lease_data ≡ none
    → Booked s
    → Booked (authorize_under p a s).0
unfolding authorize_under drop_expired
authorize_under-Booked (some reason) a s e fresh b =
    let m = recovered-Moved a.at s b.held in
    record { held = omega (arith, m.slack, b.held); exact = λ p. cc (p, e); denials = b.denials }
authorize_under-Booked none a s e fresh b =
    let m = recovered-Moved a.at s b.held in
    decide-Booked a (raised_to a.observed (recovered a.at s).spent) (recovered a.at s).reserved
      (drop_expired a.at s) m.held (λ p. omega (arith, m.slack, b.exact e))
      (rw (recovered-get? a.at a.id s fresh) refl) b.denials

authorize-Booked :
    (a : AuthorizeArgs) (s : MonthState)
    → get? a.id s.lease_data ≡ none
    → Booked s
    → Booked (authorize a s).0
unfolding authorize
authorize-Booked a s fresh b = authorize_under-Booked s.poisoned_reason a s refl fresh b

count_settlement-Booked :
    (kind : SettleKind) (s : MonthState) → Booked s → Booked (count_settlement kind s)
count_settlement-Booked success s b = record { held = b.held; exact = b.exact; denials = b.denials }
count_settlement-Booked ambiguous_failure s b = record {
  held = b.held;
  exact = b.exact;
  denials = b.denials;
}
count_settlement-Booked provider_rejection s b = record {
  held = b.held;
  exact = b.exact;
  denials = b.denials;
}

settle_lease-Booked :
    (o : Option ℕ) (id : String) (kind : SettleKind) (actual : ℕ) (s : MonthState)
    → get? id s.lease_data ≡ o
    → Booked s
    → Booked (settle_lease o id kind actual s).0
unfolding settle_lease
settle_lease-Booked none id kind actual s e b = b
settle_lease-Booked (some amount) id kind actual s e b =
    let left = rw e at (total-del id s.lease_data) in
    let h : total (del id s.lease_data) ≤ s.reserved - amount = omega (arith, left, b.held) in
    let x : s.poisoned_reason ≡ none → s.reserved - amount ≡ total (del id s.lease_data) =
      λ p. omega (arith, left, b.exact p) in
    count_settlement-Booked kind _ (record { held = h; exact = x; denials = b.denials })

settle-Booked :
    (id : String) (kind : SettleKind) (actual : ℕ) (s : MonthState)
    → Booked s
    → Booked (settle id kind actual s).0
unfolding settle
settle-Booked id kind actual s b =
    settle_lease-Booked (get? id s.lease_data) id kind actual s refl b

poison-Booked : (reason : String) (s : MonthState) → Booked s → Booked (poison reason s)
unfolding poison
poison-Booked reason s b = record { held = b.held; exact = λ p. cc p; denials = b.denials }

Step-Booked : {s t : MonthState} → Step s t → Booked s → Booked t
Step-Booked (authorizing s a fresh) b = authorize-Booked a s fresh b
Step-Booked (settling s id kind actual) b = settle-Booked id kind actual s b
Step-Booked (poisoning s reason) b = poison-Booked reason s b

-- Whatever the processes do in whatever order, with new ids for new leases, the reserved sum covers
-- the amounts of the leases, is their sum as long as the month is not poisoned, and the denials
-- by role add up to all the denials.
pub Reachable-Booked : {s : MonthState} → Reachable s → Booked s
Reachable-Booked at_start = record { held = omega arith; exact = λ p. refl; denials = refl }
Reachable-Booked (then_step r st) = Step-Booked st (Reachable-Booked r)
