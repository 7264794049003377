-- ===== src/Month/Poison.antt =====
-- The scripts on a poisoned month.
use portfolio_manager.Base.{◌≡◌, refl, Bool, true, false, Option, none, some, String, ℕ}
use portfolio_manager.Month.Hash.{get?}
use portfolio_manager.Month.Store.{
  MonthState, AuthorizeArgs, Decision, poisoned, SettleKind, success, ambiguous_failure,
  provider_rejection, count_settlement, authorize, authorize_under, settle, settle_lease, poison,
  drop_expired,
}
use portfolio_manager.Month.Books.{Step, authorizing, settling, poisoning}

abbrev pub Poisoned : MonthState → Type 0
Poisoned s = (reason : String) × (s.poisoned_reason ≡ some reason)

abbrev pub is_poisoned : Decision → Bool
is_poisoned (poisoned _ _) = true
is_poisoned _ = false

-- Later scripts of any process.
pub data Steps : MonthState → MonthState → Type 0 where
  no_step : (s : MonthState) → Steps s s
  and_then : {s t u : MonthState} → Steps s t → Step t u → Steps s u

authorize_under-Poisoned :
    (p : Option String) (a : AuthorizeArgs) (s : MonthState)
    → s.poisoned_reason ≡ p
    → Poisoned s
    → Poisoned (authorize_under p a s).0 × (is_poisoned (authorize_under p a s).1 ≡ true)
unfolding authorize_under drop_expired
authorize_under-Poisoned (some reason) a s e p = (p, refl)
authorize_under-Poisoned none a s e p = cc (e, p.1)

authorize-Poisoned :
    (a : AuthorizeArgs) (s : MonthState)
    → Poisoned s
    → Poisoned (authorize a s).0 × (is_poisoned (authorize a s).1 ≡ true)
unfolding authorize
authorize-Poisoned a s p = authorize_under-Poisoned s.poisoned_reason a s refl p

count_settlement-Poisoned :
    (kind : SettleKind) (s : MonthState) → Poisoned s → Poisoned (count_settlement kind s)
count_settlement-Poisoned success s p = p
count_settlement-Poisoned ambiguous_failure s p = p
count_settlement-Poisoned provider_rejection s p = p

settle_lease-Poisoned :
    (o : Option ℕ) (id : String) (kind : SettleKind) (actual : ℕ) (s : MonthState)
    → Poisoned s
    → Poisoned (settle_lease o id kind actual s).0
unfolding settle_lease
settle_lease-Poisoned none id kind actual s p = p
settle_lease-Poisoned (some amount) id kind actual s p = count_settlement-Poisoned kind _ p

Step-Poisoned : {s t : MonthState} → Step s t → Poisoned s → Poisoned t
unfolding poison settle
Step-Poisoned (authorizing s a fresh) p = (authorize-Poisoned a s p).0
Step-Poisoned (settling s id kind actual) p =
    settle_lease-Poisoned (get? id s.lease_data) id kind actual s p
Step-Poisoned (poisoning s reason) p = (reason, refl)

Steps-Poisoned : {s t : MonthState} → Steps s t → Poisoned s → Poisoned t
Steps-Poisoned (no_step s) p = p
Steps-Poisoned (and_then steps one) p = Step-Poisoned one (Steps-Poisoned steps p)

-- Once a process has poisoned a month, every authorization of any process is refused, whatever the scripts
-- between them.
pub poison-stays :
    (reason : String) (s t : MonthState)
    → Steps (poison reason s) t
    → (a : AuthorizeArgs) → is_poisoned (authorize a t).1 ≡ true
unfolding poison
poison-stays reason s t steps a = (authorize-Poisoned a t (Steps-Poisoned steps (reason, refl))).1
