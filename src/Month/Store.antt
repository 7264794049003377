-- ===== src/Month/Store.antt =====
-- The state of a month in Redis, and the three scripts that change it
-- (lib/anthropic-monthly-budget.js, AUTHORIZE_SCRIPT, SETTLE_SCRIPT, POISON_SCRIPT). A script runs
-- as one step. Amounts are in millionths of a dollar, instants in milliseconds.
use portfolio_manager.Base.{
  ℕ, ◌+◌, ◌-◌, Bool, not, ◌&&◌, Option, none, some, List, [], ◌∷◌, if◌then◌else◌, ltb, leb, String,
  filter, length,
}
use portfolio_manager.Base.Text.{◌=s=◌}
use portfolio_manager.Month.Hash.{Entry, get?, set, del, amount_of}

-- The fields of the state hash, and the two keys of the leases: their ends and their amounts.
pub record MonthState : Type 0 where
  pub spent : ℕ
  pub reserved : ℕ
  pub lease_ends : List Entry
  pub lease_data : List Entry
  pub poisoned_reason : Option String
  pub expired_leases_recovered : ℕ
  pub settled_calls : ℕ
  pub ambiguous_failure_settlements : ℕ
  pub provider_failure_settlements : ℕ
  pub denied_total : ℕ
  pub denied_evaluator : ℕ
  pub denied_weekly_review : ℕ
  pub denied_protected_holding : ℕ
  pub denied_other : ℕ
  pub denied_discovery_protected_pool : ℕ
  pub protected_reserve : ℕ
  pub last_denied_reason : Option String
  pub last_denied_role : Option String
  pub last_denied_at : Option ℕ
  pub last_denied_protected_at : Option ℕ

-- ARGV of the authorization.
pub record AuthorizeArgs : Type 0 where
  pub at : ℕ
  pub id : String
  pub expires_at : ℕ
  pub reserve : ℕ
  pub observed : ℕ
  pub cap : ℕ
  pub protected : ℕ
  pub is_protected : Bool
  pub role : String

-- What the authorization answers: spent, reserved, and the detail of the case.
pub data Decision : Type 0 where
  poisoned : ℕ → String → Decision
  exhausted : ℕ → ℕ → Decision
  protected_pool : ℕ → ℕ → Decision
  authorized : ℕ → ℕ → ℕ → Decision

-- The two sums and the amounts of the leases, while the script goes over the expired ones.
pub record Sums : Type 0 where
  pub spent : ℕ
  pub reserved : ℕ
  pub data_left : List Entry

abbrev pub recover_one : String → Sums → Sums
recover_one id b = record {
  spent = b.spent + amount_of id b.data_left;
  reserved = b.reserved - amount_of id b.data_left;
  data_left = del id b.data_left;
}

unfoldable pub recover : List String → Sums → Sums
recover [] b = b
recover (id ∷ ids) b = recover ids (recover_one id b)

-- `ZRANGEBYSCORE -inf at`; the order in which leases expire does not change the sums.
unfoldable pub expired_ids : ℕ → List Entry → List String
expired_ids at [] = []
expired_ids at ((id, end) ∷ xs) =
    let rest = expired_ids at xs in if leb end at then id ∷ rest else rest

unfoldable pub recovered : ℕ → MonthState → Sums
unfolding recover expired_ids
recovered at s =
    recover (expired_ids at s.lease_ends)
      (record { spent = s.spent; reserved = s.reserved; data_left = s.lease_data })

-- The keys as the removal of the expired leases leaves them. The two sums are not written here.
unfoldable pub drop_expired : ℕ → MonthState → MonthState
unfolding recovered expired_ids
drop_expired at s = record s {
  lease_ends = filter (λ (id, end). not (leb end at)) s.lease_ends;
  lease_data = (recovered at s).data_left;
  expired_leases_recovered = s.expired_leases_recovered + length (expired_ids at s.lease_ends);
}

-- `if observed > spent then spent = observed end`
abbrev pub raised_to : ℕ → ℕ → ℕ
raised_to observed spent = if ltb spent observed then observed else spent

abbrev pub limit_of : AuthorizeArgs → ℕ
limit_of a = if a.is_protected then a.cap else a.cap - a.protected

-- The counter of the role that was denied.
unfoldable pub count_denial : AuthorizeArgs → MonthState → MonthState
count_denial a s =
    if a.role =s= "evaluator"
    then record s { denied_evaluator = s.denied_evaluator + 1 }
    else if a.role =s= "weekly_review"
    then record s { denied_weekly_review = s.denied_weekly_review + 1 }
    else if a.is_protected
    then record s { denied_protected_holding = s.denied_protected_holding + 1 }
    else record s { denied_other = s.denied_other + 1 }

-- The refusal is for the protected pool where the call would fit under the whole cap.
abbrev pub for_pool : AuthorizeArgs → ℕ → Bool
for_pool a projected = not a.is_protected && leb projected a.cap && ltb 0 a.protected

unfoldable pub deny : AuthorizeArgs → Bool → ℕ → ℕ → MonthState → MonthState
unfolding count_denial
deny a pool spent reserved s =
    let counted = count_denial a (record s { denied_total = s.denied_total + 1 }) in
    record counted {
      denied_discovery_protected_pool =
          if pool
          then counted.denied_discovery_protected_pool + 1
          else counted.denied_discovery_protected_pool;
      spent = spent;
      reserved = reserved;
      last_denied_at = some a.at;
      last_denied_reason =
          some (if pool then "protected_capacity_reserved" else "monthly_budget_exhausted");
      last_denied_role = some a.role;
      last_denied_protected_at =
          if a.is_protected then some a.at else counted.last_denied_protected_at;
    }

unfoldable pub grant : AuthorizeArgs → ℕ → ℕ → MonthState → MonthState
grant a spent reserved s = record s {
  spent = spent;
  reserved = reserved;
  lease_data = set a.id a.reserve s.lease_data;
  lease_ends = set a.id a.expires_at s.lease_ends;
  protected_reserve = a.protected;
}

-- The script after its test of the poison, with the sums that the expired leases leave.
unfoldable pub decide : AuthorizeArgs → ℕ → ℕ → MonthState → MonthState × Decision
unfolding deny grant
decide a spent reserved s =
    let projected = spent + reserved + a.reserve in
    let pool = for_pool a projected in
    if ltb (limit_of a) projected
    then (
      deny a pool spent reserved s,
      if pool then protected_pool spent reserved else exhausted spent reserved,
    )
    else (
      grant a spent (reserved + a.reserve) s,
      authorized spent (reserved + a.reserve) a.expires_at,
    )

-- The script after the recovery, by what the poison is.
unfoldable pub authorize_under : Option String → AuthorizeArgs → MonthState → MonthState × Decision
unfolding decide recovered drop_expired
authorize_under (some reason) a s =
    (drop_expired a.at s, poisoned (recovered a.at s).reserved reason)
authorize_under none a s =
    decide a (raised_to a.observed (recovered a.at s).spent) (recovered a.at s).reserved
      (drop_expired a.at s)

-- AUTHORIZE_SCRIPT. A poisoned month returns before the two sums are written.
unfoldable pub authorize : AuthorizeArgs → MonthState → MonthState × Decision
unfolding authorize_under
authorize a s = authorize_under s.poisoned_reason a s

pub data SettleKind : Type 0 where
  success : SettleKind
  ambiguous_failure : SettleKind
  provider_rejection : SettleKind

-- What a settlement of a lease of `amount` adds to the spent sum.
abbrev pub charge : SettleKind → ℕ → ℕ → ℕ
charge success amount actual = actual
charge ambiguous_failure amount actual = amount
charge provider_rejection amount actual = 0

abbrev pub count_settlement : SettleKind → MonthState → MonthState
count_settlement success s = record s { settled_calls = s.settled_calls + 1 }
count_settlement ambiguous_failure s = record s {
  ambiguous_failure_settlements = s.ambiguous_failure_settlements + 1;
}
count_settlement provider_rejection s = record s {
  provider_failure_settlements = s.provider_failure_settlements + 1;
}

-- The script by the amount of the lease.
unfoldable pub settle_lease :
    Option ℕ → String → SettleKind → ℕ → MonthState → MonthState × Option ℕ
settle_lease none id kind actual s = (s, none)
settle_lease (some amount) id kind actual s = (
  count_settlement kind (record s {
    spent = s.spent + charge kind amount actual;
    reserved = s.reserved - amount;
    lease_data = del id s.lease_data;
    lease_ends = del id s.lease_ends;
  }),
  some (s.spent + charge kind amount actual),
)

-- SETTLE_SCRIPT: the state and the spent sum, or `none` for a lease that is missing.
unfoldable pub settle : String → SettleKind → ℕ → MonthState → MonthState × Option ℕ
unfolding settle_lease
settle id kind actual s = settle_lease (get? id s.lease_data) id kind actual s

-- POISON_SCRIPT
unfoldable pub poison : String → MonthState → MonthState
poison reason s = record s { poisoned_reason = some reason }

-- A month before its first call.
abbrev pub empty_month : MonthState
empty_month = record {
  spent = 0;
  reserved = 0;
  lease_ends = [];
  lease_data = [];
  poisoned_reason = none;
  expired_leases_recovered = 0;
  settled_calls = 0;
  ambiguous_failure_settlements = 0;
  provider_failure_settlements = 0;
  denied_total = 0;
  denied_evaluator = 0;
  denied_weekly_review = 0;
  denied_protected_holding = 0;
  denied_other = 0;
  denied_discovery_protected_pool = 0;
  protected_reserve = 0;
  last_denied_reason = none;
  last_denied_role = none;
  last_denied_at = none;
  last_denied_protected_at = none;
}
