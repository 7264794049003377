-- ===== src/Budget/Limit.antt =====
-- lib/ai-budget.js: what a run accounts for, and its limit.
use portfolio_manager.Base.{
  ℕ, ◌+◌, ◌*◌, ◌%◌, ◌≤◌, ◌≡◌, refl, String, Bool, true, false, not, ◌&&◌, Option, some, List, [],
  ◌∷◌, filter, find?, All, All-filter, if◌then◌else◌, leb, ltb, Bool-cases, inl, inr, ◌⊎◌, arith,
}
use portfolio_manager.Budget.Reservations.{
  Budget, Config, Reservation, round_usd, sum_amounts, active_usd, accounted_usd, check_warning,
  create_active_reservation, set_amount, has_id, delete_reservation,
}

-- A whole number of 1e-12 dollars.
abbrev pub IsUsd : ℕ → Type 0
IsUsd n = n % 100 ≡ 0

abbrev pub AmountsUsd : List Reservation → Type 0
AmountsUsd = All (λ r. IsUsd r.amount)

-- The cost that is committed and the reservations are within the limit.
pub record Within (c : Config) (b : Budget) : Type 0 where
  pub committed : IsUsd b.committed_usd
  pub amounts : AmountsUsd b.active_reservations
  pub bound : b.committed_usd + sum_amounts b.active_reservations ≤ c.max_usd

pub round_usd_same : (n : ℕ) → IsUsd n → round_usd n ≡ n
unfolding round_usd
round_usd_same n h = ground arith

pub round_usd-IsUsd : (n : ℕ) → IsUsd (round_usd n)
unfolding round_usd
round_usd-IsUsd n = ground arith

pub sum_amounts-IsUsd : (rs : List Reservation) → AmountsUsd rs → IsUsd (sum_amounts rs)
sum_amounts-IsUsd [] h = refl
sum_amounts-IsUsd (r ∷ rs) h = ground (arith, sum_amounts-IsUsd rs h.1)

pub add-IsUsd : (m n : ℕ) → IsUsd m → IsUsd n → IsUsd (m + n)
add-IsUsd m n h k = ground arith

-- On whole 1e-12 the accounted sum is exact.
pub accounted_usd_exact :
    (c : Config) (b : Budget)
    → Within c b
    → accounted_usd b ≡ b.committed_usd + sum_amounts b.active_reservations
unfolding accounted_usd active_usd
accounted_usd_exact c b w =
    let sum = sum_amounts-IsUsd b.active_reservations w.amounts in
    rw (round_usd_same (sum_amounts b.active_reservations) sum)
      (round_usd_same _ (add-IsUsd _ _ w.committed sum))

pub check_warning-Within : (c : Config) (b : Budget) → Within c b → Within c (check_warning c b)
unfolding check_warning
check_warning-Within c b w =
    elim (Bool-cases (
      not b.warned
      && leb (c.max_usd * c.warn_pct) ((accounted_usd b + 100_000) * 100_000_000_000_000))) [
        | inl e ↦ rw e (record { committed = w.committed; amounts = w.amounts; bound = w.bound })
        | inr e ↦ rw e w
      ]

pub create-Within :
    (c : Config) (id : String) (amount : ℕ) (b : Budget)
    → IsUsd amount
    → Within c b
    → Within c (create_active_reservation c id amount b).1
unfolding create_active_reservation
create-Within c id amount b usd w =
    elim (Bool-cases (ltb c.max_usd (round_usd (accounted_usd b + amount)))) [
      | inl e ↦ rw e w
      | inr e ↦
          let exact = accounted_usd_exact c b w in
          let grid =
            add-IsUsd _ _ (add-IsUsd _ _ w.committed (sum_amounts-IsUsd _ w.amounts)) usd in
          rw e (
            check_warning-Within c _ (record {
              committed = w.committed;
              amounts = (usd, w.amounts);
              bound = ground (arith, e, exact, round_usd_same _ grid);
            }))
    ]

filter_le :
    (p : Reservation → Bool) (rs : List Reservation) → sum_amounts (filter p rs) ≤ sum_amounts rs
filter_le p [] = omega arith
filter_le p (r ∷ rs) = ground (arith, filter_le p rs)

pub cost_of : {a cost : ℕ} → some a ≡ some cost → a ≡ cost
cost_of h = cc

pub amount_of : {r active : Reservation} → some r ≡ some active → r.amount ≡ active.amount
amount_of h = cc

pub id_of : {r active : Reservation} → some r ≡ some active → active.id ≡ r.id
id_of h = cc

pub if_true :
    {b : Bool} {x : Option Reservation} (y : Option Reservation) {z : Option Reservation}
    → b ≡ true
    → (if b then x else y) ≡ z
    → x ≡ z
if_true {b = true} y h k = k
if_true {b = false} y h k = cc

pub if_false :
    {b : Bool} (x : Option Reservation) {y z : Option Reservation}
    → b ≡ false
    → (if b then x else y) ≡ z
    → y ≡ z
if_false {b = true} x h k = cc
if_false {b = false} x h k = k

pub find_step :
    (id : String) (r : Reservation) (rs : List Reservation) {active : Reservation}
    → find? (has_id id) (r ∷ rs) ≡ some active
    → ((has_id id r ≡ true) × (r.amount ≡ active.amount))
      ⊎ ((has_id id r ≡ false) × (find? (has_id id) rs ≡ some active))
find_step id r rs e = elim (Bool-cases (has_id id r)) [
  | inl h ↦ inl (h, amount_of (if_true _ h e))
  | inr h ↦ inr (h, if_false _ h e)
]

pub delete_le :
    (id : String) (rs : List Reservation) (active : Reservation)
    → find? (has_id id) rs ≡ some active
    → sum_amounts (filter (λ r. not (has_id id r)) rs) + active.amount ≤ sum_amounts rs
delete_le id [] active e = cc
delete_le id (r ∷ rs) active e = elim (find_step id r rs e) [
  | inl h ↦ rw h.0 (omega (arith, h.1, filter_le (λ x. not (has_id id x)) rs))
  | inr h ↦ rw h.0 (omega (arith, delete_le id rs active h.1))
]

pub delete-Within :
    (c : Config) (id : String) (b : Budget) → Within c b → Within c (delete_reservation id b)
unfolding delete_reservation
delete-Within c id b w = record {
  committed = w.committed;
  amounts = All-filter _ _ b.active_reservations w.amounts;
  bound = omega (arith, w.bound, filter_le (λ r. not (has_id id r)) b.active_reservations);
}

pub set_amount_sum :
    (id : String) (amount : ℕ) (rs : List Reservation) (active : Reservation)
    → find? (has_id id) rs ≡ some active
    → sum_amounts (set_amount id amount rs) + active.amount ≡ sum_amounts rs + amount
unfolding set_amount
set_amount_sum id amount [] active e = cc
set_amount_sum id amount (r ∷ rs) active e = elim (find_step id r rs e) [
  | inl h ↦ rw h.0 (omega (arith, h.1))
  | inr h ↦ rw h.0 (omega (arith, set_amount_sum id amount rs active h.1))
]

pub set_amount-Usd :
    (id : String) (amount : ℕ) (rs : List Reservation)
    → IsUsd amount
    → AmountsUsd rs
    → AmountsUsd (set_amount id amount rs)
unfolding set_amount
set_amount-Usd id amount [] usd h = tt
set_amount-Usd id amount (r ∷ rs) usd h = ground (arith, set_amount-Usd id amount rs)
