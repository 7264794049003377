-- ===== src/Month/Ceiling.antt =====
-- The ceiling of a month: what an authorization leaves, in each of its cases.
use portfolio_manager.Base.{
  ℕ, ◌+◌, ◌≤◌, ◌<◌, ◌≡◌, refl, Bool, true, false, Option, none, some, String, Bool-cases, inl, inr,
  arith, ltb,
}
use portfolio_manager.Month.Hash.{total, get?, get?-set}
use portfolio_manager.Month.Store.{
  MonthState, AuthorizeArgs, Decision, authorized, exhausted, protected_pool, poisoned, authorize,
  authorize_under, decide, deny, grant, recovered, drop_expired, raised_to, limit_of, for_pool,
  count_denial,
}
use portfolio_manager.Month.Recovery.{recovered-Moved}

-- The leases that the recovery removes are counted as spent.
abbrev pub Charged : AuthorizeArgs → MonthState → MonthState → Type 0
Charged a s t = s.spent + total s.lease_data ≤ t.spent + total (recovered a.at s).data_left

-- What a decision means, `s` being the month before and `t` the month after.
pub record Granted (a : AuthorizeArgs) (s t : MonthState) (spent reserved end : ℕ) : Type 0 where
  pub within : t.spent + t.reserved ≤ limit_of a
  pub no_poison : s.poisoned_reason ≡ none
  pub observed : a.observed ≤ t.spent
  pub charged : Charged a s t
  pub no_less : s.spent + s.reserved + a.reserve ≤ t.spent + t.reserved
  pub leased : get? a.id t.lease_data ≡ some a.reserve
  pub answered : (t.spent ≡ spent) × (t.reserved ≡ reserved) × (end ≡ a.expires_at)

pub record Denied (a : AuthorizeArgs) (s t : MonthState) (spent reserved : ℕ) : Type 0 where
  pub over : limit_of a < t.spent + t.reserved + a.reserve
  pub no_poison : s.poisoned_reason ≡ none
  pub charged : Charged a s t
  pub no_lease : t.lease_data ≡ (recovered a.at s).data_left
  pub answered : (t.spent ≡ spent) × (t.reserved ≡ reserved)

abbrev pub Means : AuthorizeArgs → MonthState → MonthState → Decision → Type 0
Means a s t (authorized n r e) = Granted a s t n r e
Means a s t (exhausted n r) = Denied a s t n r
Means a s t (protected_pool n r) =
    Denied a s t n r × (n + r + a.reserve ≤ a.cap) × (a.is_protected ≡ false)
Means a s t (poisoned r reason) = s.poisoned_reason ≡ some reason

count_denial-data :
    (a : AuthorizeArgs) (s : MonthState) → (count_denial a s).lease_data ≡ s.lease_data
unfolding count_denial
count_denial-data a s = ground arith

pool_cap :
    (a : AuthorizeArgs) (n : ℕ) → for_pool a n ≡ true → (n ≤ a.cap) × (a.is_protected ≡ false)
pool_cap a n h = ground arith

deny-Denied :
    (a : AuthorizeArgs) (pool : Bool) (s : MonthState) (spent reserved : ℕ)
    → s.poisoned_reason ≡ none
    → s.spent + total s.lease_data ≤ spent + total (recovered a.at s).data_left
    → ltb (limit_of a) (spent + reserved + a.reserve) ≡ true
    → Denied a s (deny a pool spent reserved (drop_expired a.at s)) spent reserved
unfolding deny drop_expired
deny-Denied a pool s spent reserved e paid over = record {
  over = ground arith;
  no_poison = e;
  charged = paid;
  no_lease = count_denial-data a _;
  answered = (refl, refl);
}

grant-Granted :
    (a : AuthorizeArgs) (s : MonthState)
    → total s.lease_data ≤ s.reserved
    → s.poisoned_reason ≡ none
    → let spent = raised_to a.observed (recovered a.at s).spent in
      let reserved = (recovered a.at s).reserved in
      ltb (limit_of a) (spent + reserved + a.reserve) ≡ false
      → Granted a s
          (grant a spent (reserved + a.reserve) (drop_expired a.at s))
          spent
          (reserved + a.reserve)
          a.expires_at
unfolding grant drop_expired
grant-Granted a s h e fits =
    let m = recovered-Moved a.at s h in
    record {
      within = ground arith;
      no_poison = e;
      observed = ground arith;
      charged = ground (arith, m.whole, m.slack);
      no_less = ground (arith, m.whole);
      leased = get?-set a.id a.reserve (recovered a.at s).data_left;
      answered = (refl, refl, refl);
    }

recovered-charged :
    (a : AuthorizeArgs) (s : MonthState)
    → total s.lease_data ≤ s.reserved
    → s.spent + total s.lease_data
      ≤ raised_to a.observed (recovered a.at s).spent + total (recovered a.at s).data_left
recovered-charged a s h = let m = recovered-Moved a.at s h in ground (arith, m.whole, m.slack)

decide-Means :
    (a : AuthorizeArgs) (s : MonthState)
    → total s.lease_data ≤ s.reserved
    → s.poisoned_reason ≡ none
    → let d =
        decide a
          (raised_to a.observed (recovered a.at s).spent)
          (recovered a.at s).reserved
          (drop_expired a.at s) in
      Means a s d.0 d.1
unfolding decide
decide-Means a s h e =
    let spent = raised_to a.observed (recovered a.at s).spent in
    let reserved = (recovered a.at s).reserved in
    let projected = spent + reserved + a.reserve in
    elim (Bool-cases (ltb (limit_of a) projected)) [
      | inr fits ↦ rw fits (grant-Granted a s h e fits)
      | inl over ↦ elim (Bool-cases (for_pool a projected)) [
        | inl p ↦
            rw (over, p)
              (
                deny-Denied a true s spent reserved e (recovered-charged a s h) over,
                (pool_cap a projected p).0,
                (pool_cap a projected p).1,
              )
        | inr p ↦
            rw (over, p) (deny-Denied a false s spent reserved e (recovered-charged a s h) over)
      ]
    ]

authorize_under-Means :
    (p : Option String) (a : AuthorizeArgs) (s : MonthState)
    → s.poisoned_reason ≡ p
    → total s.lease_data ≤ s.reserved
    → let d = authorize_under p a s in Means a s d.0 d.1
unfolding authorize_under drop_expired
authorize_under-Means none a s e h = decide-Means a s h e
authorize_under-Means (some reason) a s e h = e

-- Of a month whose reserved sum covers its leases. A call that is granted leaves no more than its limit spent
-- and reserved, which counts what was spent and reserved before and all that the telemetry has seen, and has a
-- lease of its reserve. A refused call would have passed its limit, and has no lease; one that is refused for
-- the protected pool would have been within the whole cap. In these cases the month was not poisoned, and the
-- leases that the recovery removes are counted as spent. A call is only refused for a poison that the month has.
pub authorize-Means :
    (a : AuthorizeArgs) (s : MonthState)
    → total s.lease_data ≤ s.reserved
    → let d = authorize a s in Means a s d.0 d.1
unfolding authorize
authorize-Means a s h = authorize_under-Means s.poisoned_reason a s refl h
