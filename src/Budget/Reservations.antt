-- ===== src/Budget/Reservations.antt =====
-- lib/ai-budget.js: the state that `createResearchRunBudget` closes over, and its inner functions.
-- A dollar amount that is kept counts grains and is not negative. An id that `randomUUID` draws is
-- an argument.
use portfolio_manager.Base.{
  ℕ, ◌+◌, ◌-◌, ◌*◌, ◌/◌, String, Bool, true, false, not, ◌&&◌, Option, none, some, List, [], ◌∷◌,
  filter, find?, if◌then◌else◌, leb, ltb, Outcome, ok, thrown,
}
use Prim.Native.Nat.{min}
use portfolio_manager.Base.Int.{pos, negsuc, pos_part}
use portfolio_manager.Base.Money.{Num, unit_grains}
use portfolio_manager.Base.Text.{◌=s=◌, trim, to_lower, is_empty}
use portfolio_manager.Risk.Breaker.{positive?}

pub data BudgetError : Type 0 where
  budget_exhausted reservation_missing actual_invalid unbounded_request monthly_refused :
      BudgetError

pub data Role : Type 0 where
  generator evaluator : Role

abbrev pub same_role : Role → Role → Bool
same_role generator generator = true
same_role evaluator evaluator = true
same_role _ _ = false

-- `roundUsd`: to 1e-12, which is 100 grains.
unfoldable pub round_usd : ℕ → ℕ
round_usd n = (2 * n + 100) / 200 * 100

pub record Config : Type 0 where
  pub max_usd : ℕ
  pub warn_pct : ℕ
  pub generator_reserve : ℕ
  pub opus_reserve : ℕ
  pub sonnet_reserve : ℕ
  pub allow_evaluator_fallback : Bool

-- The environment's values, read as numbers.
pub record Env : Type 0 where
  pub run_max_usd : Num
  pub run_warn_pct : Num
  pub generator_reserve_usd : Num
  pub evaluator_opus_reserve_usd : Num
  pub evaluator_sonnet_reserve_usd : Num
  pub allow_fallback : String

-- `positive(value, fallback)`
unfoldable pub positive : Num → ℕ → ℕ
positive value fallback = elim (positive? value) [ none ↦ fallback | some v ↦ pos_part v ]

unfoldable pub config_of : Env → Config
config_of env = record {
  max_usd = positive env.run_max_usd (3 * unit_grains);
  warn_pct = min unit_grains (positive env.run_warn_pct 80_000_000_000_000);
  generator_reserve = positive env.generator_reserve_usd 3_000_000_000_000;
  opus_reserve = positive env.evaluator_opus_reserve_usd 10_000_000_000_000;
  sonnet_reserve = positive env.evaluator_sonnet_reserve_usd 2_000_000_000_000;
  allow_evaluator_fallback = to_lower (trim env.allow_fallback) =s= "true";
}

pub record Reservation : Type 0 where
  pub id : String
  pub amount : ℕ

pub record Floor : Type 0 where
  pub id : String
  pub role : Role

pub record Budget : Type 0 where
  pub committed_usd : ℕ
  pub warned : Bool
  pub pending_call_floors : List Floor
  pub active_reservations : List Reservation

abbrev pub new_budget : Budget
new_budget = record {
  committed_usd = 0;
  warned = false;
  pending_call_floors = [];
  active_reservations = [];
}

abbrev pub sum_amounts : List Reservation → ℕ
sum_amounts [] = 0
sum_amounts (r ∷ rs) = r.amount + sum_amounts rs

unfoldable pub active_usd : Budget → ℕ
active_usd b = round_usd (sum_amounts b.active_reservations)

unfoldable pub accounted_usd : Budget → ℕ
accounted_usd b = round_usd (b.committed_usd + active_usd b)

-- A method's result: what it throws or returns, and the state it leaves.
abbrev pub Result : Type 0 → Type 0
Result A = Outcome BudgetError A × Budget

unfoldable pub check_warning : Config → Budget → Budget
check_warning c b =
    if not b.warned && leb (c.max_usd * c.warn_pct) ((accounted_usd b + 100_000) * unit_grains)
    then record b { warned = true }
    else b

unfoldable pub create_active_reservation : Config → String → ℕ → Budget → Result String
create_active_reservation c id amount b =
    if ltb c.max_usd (round_usd (accounted_usd b + amount)) then (thrown budget_exhausted, b) else (
      ok id,
      check_warning c (record b {
        active_reservations = record { id = id; amount = amount } ∷ b.active_reservations;
      }),
    )

abbrev pub has_id : String → Reservation → Bool
has_id id r = r.id =s= id

-- `active.amount = amount`
unfoldable pub set_amount : String → ℕ → List Reservation → List Reservation
set_amount id amount [] = []
set_amount id amount (r ∷ rs) =
    if has_id id r then record r { amount = amount } ∷ rs else r ∷ set_amount id amount rs

-- `delta > 0 && roundUsd(accountedUsd() + delta) > maxUsd`
unfoldable pub resize_active_reservation : Config → String → ℕ → Budget → Result (Unit {0})
resize_active_reservation c id amount b = elim (find? (has_id id) b.active_reservations) [
  | none ↦ (thrown reservation_missing, b)
  | some active ↦
      if ltb active.amount amount
        && ltb c.max_usd (round_usd (accounted_usd b + (amount - active.amount)))
      then (thrown budget_exhausted, b)
      else (
        ok tt,
        check_warning c
            (record b { active_reservations = set_amount id amount b.active_reservations }),
      )
]

unfoldable pub delete_reservation : String → Budget → Budget
delete_reservation id b = record b {
  active_reservations = filter (λ r. not (has_id id r)) b.active_reservations;
}

pub data Disposition : Type 0 where
  success : Num → Disposition
  ambiguous_failure provider_rejection : Disposition

-- The cost that a disposition commits for a reservation, or `none` if it is refused.
unfoldable pub settled_cost : Disposition → ℕ → Option ℕ
settled_cost (success none) amount = none
settled_cost (success (some (negsuc n))) amount = none
settled_cost (success (some (pos n))) amount =
    if ltb (round_usd amount) (round_usd n) then none else some n
settled_cost ambiguous_failure amount = some amount
settled_cost provider_rejection amount = some 0

abbrev pub given_id : Option String → Budget → Option Reservation
given_id none b = none
given_id (some id) b = if is_empty id then none else find? (has_id id) b.active_reservations

-- `committedUsd = roundUsd(committedUsd + cost)`, which a rejection leaves as it is.
abbrev pub commit_cost : Disposition → ℕ → Budget → Budget
commit_cost provider_rejection cost b = b
commit_cost (success actual) cost b = record b {
  committed_usd = round_usd (b.committed_usd + cost);
}
commit_cost ambiguous_failure cost b = record b {
  committed_usd = round_usd (b.committed_usd + cost);
}

unfoldable pub settle_active_reservation : Option String → Disposition → Budget → Result (Unit {0})
settle_active_reservation id disposition b = elim (given_id id b) [
  | none ↦ (thrown reservation_missing, b)
  | some active ↦ elim (settled_cost disposition active.amount) [
    | none ↦ (thrown actual_invalid, b)
    | some cost ↦ (ok tt, delete_reservation active.id (commit_cost disposition cost b))
  ]
]
