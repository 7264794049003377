-- ===== src/Budget/Settling.antt =====
-- lib/ai-budget.js: resizing and settling a reservation, and the limit of a run.
use portfolio_manager.Base.{
  ℕ, ◌+◌, ◌-◌, ◌≤◌, ◌≡◌, refl, ap, ◌∙◌, eq_iff, String, Bool, true, false, ◌&&◌, Option, none, some,
  List, [], ◌∷◌, find?, All-filter, if◌then◌else◌, ltb, Bool-cases, Option-cases, inl, inr, arith,
}
use portfolio_manager.Base.Int.{pos, negsuc}
use portfolio_manager.Base.Text.{is_empty}
use portfolio_manager.Budget.Reservations.{
  Budget, Config, Reservation, Disposition, success, ambiguous_failure, provider_rejection,
  round_usd, sum_amounts, accounted_usd, resize_active_reservation, has_id, delete_reservation,
  settled_cost, commit_cost, settle_active_reservation, given_id,
}
use portfolio_manager.Budget.Limit.{
  IsUsd, AmountsUsd, Within, round_usd_same, round_usd-IsUsd, sum_amounts-IsUsd, add-IsUsd,
  accounted_usd_exact, check_warning-Within, delete_le, delete-Within, set_amount_sum,
  set_amount-Usd, find_step, if_true, if_false, id_of, cost_of,
}

find-Usd :
    (id : String) (rs : List Reservation) {active : Reservation}
    → AmountsUsd rs
    → find? (has_id id) rs ≡ some active
    → IsUsd active.amount
find-Usd id [] h e = cc
find-Usd id (r ∷ rs) h e = elim (find_step id r rs e) [
  | inl k ↦ rw⁻¹ k.1 h.0
  | inr k ↦ find-Usd id rs h.1 k.1
]

resize_bound :
    (limit committed sum sum' old new accounted : ℕ)
    → IsUsd committed
    → IsUsd sum
    → IsUsd old
    → IsUsd new
    → accounted ≡ committed + sum
    → sum' + old ≡ sum + new
    → committed + sum ≤ limit
    → ltb old new && ltb limit (round_usd (accounted + (new - old))) ≡ false
    → committed + sum' ≤ limit
resize_bound limit committed sum sum' old new accounted hc hs ho hn ha h le test =
    elim (Bool-cases (ltb old new)) [
      | inl e ↦
          let grid : IsUsd (accounted + (new - old)) = ground arith in
          ground (arith, round_usd_same _ grid)
      | inr e ↦ ground arith
    ]

pub resize-Within :
    (c : Config) (id : String) (amount : ℕ) (b : Budget)
    → IsUsd amount
    → Within c b
    → Within c (resize_active_reservation c id amount b).1
unfolding resize_active_reservation
resize-Within c id amount b usd w = elim (Option-cases (find? (has_id id) b.active_reservations)) [
  | inl e ↦ rw (e, resize_active_reservation) w
  | inr f ↦
      let test =
        ltb f.0.amount amount
        && ltb c.max_usd (round_usd (accounted_usd b + (amount - f.0.amount))) in
      elim (Bool-cases test) [
        | inl e ↦ rw (f.1, resize_active_reservation, e) w
        | inr e ↦
            rw (f.1, resize_active_reservation, e)
              (check_warning-Within c _ (record {
                committed = w.committed;
                amounts = set_amount-Usd id amount b.active_reservations usd w.amounts;
                bound =
                    resize_bound c.max_usd b.committed_usd (sum_amounts b.active_reservations) _
                      f.0.amount amount (accounted_usd b) w.committed
                      (sum_amounts-IsUsd _ w.amounts)
                      (find-Usd id b.active_reservations w.amounts f.1) usd
                      (accounted_usd_exact c b w)
                      (set_amount_sum id amount b.active_reservations f.0 f.1) w.bound e;
              }))
      ]
]

found_id :
    (id : String) (rs : List Reservation) {active : Reservation}
    → find? (has_id id) rs ≡ some active
    → active.id ≡ id
found_id id [] e = cc
found_id id (r ∷ rs) e = elim (Bool-cases (has_id id r)) [
  | inl h ↦ id_of (if_true _ h e) ∙ (eq_iff r.id id).0 h
  | inr h ↦ found_id id rs (if_false _ h e)
]

given_found :
    (id : Option String) (b : Budget) {active : Reservation}
    → given_id id b ≡ some active
    → find? (has_id active.id) b.active_reservations ≡ some active
given_found none b h = cc
given_found (some id) b h = elim (Bool-cases (is_empty id)) [
  | inl e ↦ cc (if_true _ e h)
  | inr e ↦
      let f = if_false _ e h in
      ap (λ i. find? (has_id i) b.active_reservations) (found_id id b.active_reservations f) ∙ f
]

some_cost :
    (b : Bool) {n cost : ℕ} → (if b then none else some n) ≡ some cost → (b ≡ false) × (n ≡ cost)
some_cost true h = cc
some_cost false h = (refl, cc)

round_add :
    (a n amount : ℕ)
    → IsUsd a
    → IsUsd amount
    → ltb (round_usd amount) (round_usd n) ≡ false
    → round_usd (a + n) ≤ a + amount
unfolding round_usd
round_add a n amount h k t = ground arith

-- Deleting a reservation frees what its disposition commits.
commit-Within :
    (c : Config) (d : Disposition) (cost : ℕ) (active : Reservation) (b : Budget)
    → Within c b
    → settled_cost d active.amount ≡ some cost
    → find? (has_id active.id) b.active_reservations ≡ some active
    → Within c (delete_reservation active.id (commit_cost d cost b))
unfolding settled_cost delete_reservation
commit-Within c (success none) cost active b w h f = cc
commit-Within c (success (some (negsuc n))) cost active b w h f = cc
commit-Within c (success (some (pos n))) cost active b w h f = record {
  committed = round_usd-IsUsd _;
  amounts = All-filter _ _ b.active_reservations w.amounts;
  bound =
      let k = some_cost (ltb (round_usd active.amount) (round_usd n)) h in
      let usd = find-Usd active.id b.active_reservations w.amounts f in
      rw⁻¹ k.1 (
        omega (
          arith,
          round_add b.committed_usd n active.amount w.committed usd k.0,
          delete_le active.id b.active_reservations active f,
          w.bound,
        ));
}
commit-Within c ambiguous_failure cost active b w h f = record {
  committed = round_usd-IsUsd _;
  amounts = All-filter _ _ b.active_reservations w.amounts;
  bound =
      let usd = find-Usd active.id b.active_reservations w.amounts f in
      rw⁻¹ (cost_of h) (
        rw (round_usd_same _ (add-IsUsd _ _ w.committed usd))
          (omega (arith, delete_le active.id b.active_reservations active f, w.bound)));
}
commit-Within c provider_rejection cost active b w h f = delete-Within c active.id b w

pub settle-Within :
    (c : Config) (id : Option String) (d : Disposition) (b : Budget)
    → Within c b
    → Within c (settle_active_reservation id d b).1
unfolding settle_active_reservation
settle-Within c id d b w = elim (Option-cases (given_id id b)) [
  | inl e ↦ rw (e, settle_active_reservation) w
  | inr f ↦ elim (Option-cases (settled_cost d f.0.amount)) [
    | inl e ↦ rw (f.1, settle_active_reservation, e) w
    | inr k ↦
        rw (f.1, settle_active_reservation, k.1)
          (commit-Within c d k.0 f.0 b w k.1 (given_found id b f.1))
  ]
]
