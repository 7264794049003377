-- ===== src/Capital/LotReplay.antt =====
-- lib/withdrawal-commit.js: the lots that a replay updates.
use mathlib.Core.Path.{subst}
use portfolio_manager.Base.{
  ◌≡◌, refl, ap, sym, Bool, true, false, not, Option, none, some, List, [], ◌∷◌, all, map, All,
  if◌then◌else◌, ◌⊎◌, inl, inr, Outcome, ok, thrown, >>=-eq-ok, ok-injective,
}
use portfolio_manager.Capital.Plan.{PlanError, Transition, lot_changed, partially_applied}
use portfolio_manager.Capital.Replay.{
  LotRow, LotState, at_before, at_after, same_lot, row_by_id, row_state, transition_state,
  transition_states, is_after, absolute_update, settle_states, reconcile_withdrawal_lot_transitions,
}

abbrev Found : Type 0
Found = Transition × (LotRow × LotState)

abbrev planned_state : Found → Bool
planned_state s = elim s.1.1 [
  | at_before ↦ same_lot s.1.0.lot s.0.before
  | at_after ↦ same_lot s.1.0.lot s.0.after
]

-- The row under the transition's id is at the state that is noted.
pub record Stands (rows : List LotRow) (s : Found) : Type 0 where
  pub row : row_by_id s.0.before.lot_id rows ≡ some s.1.0
  pub state : planned_state s ≡ true

abbrev transition_of : Found → Transition
transition_of s = s.0

-- The transitions with the rows that they find: none is to be updated and all are done, or every
-- one stands before its change and is updated at its row.
pub record Settles (rows : List LotRow) (ts : List Transition) (updates : List LotRow)
    : Type 0 where
  pub states : List Found
  pub covers : map transition_of states ≡ ts
  pub stand : All (Stands rows) states
  pub settled :
      ((updates ≡ []) × (all is_after states ≡ true))
      ⊎ ((updates ≡ map absolute_update states) × (all (λ s. not (is_after s)) states ≡ true))

-- Which of two tests gave the value that is returned.
which :
    {A : Type 0} (b c : Bool) (e : PlanError) {x y r : A}
    → ◌≡◌ {A = Outcome PlanError A} (if b then ok x else if c then ok y else thrown e) (ok r)
    → ((b ≡ true) × (x ≡ r)) ⊎ ((c ≡ true) × (y ≡ r))
which true c e h = inl (refl, ok-injective h)
which false true e h = inr (refl, ok-injective h)
which false false e h = cc

row_state-Stands :
    (t : Transition) (o : Option LotRow) {r : LotRow × LotState}
    → row_state t o ≡ ok r
    → (o ≡ some r.0) × (planned_state (t, r) ≡ true)
unfolding row_state
row_state-Stands t none h = cc
row_state-Stands t (some row) h =
    elim (which (same_lot row.lot t.before) (same_lot row.lot t.after) lot_changed h) [
      | inl k ↦ subst (λ q. (some row ≡ some q.0) × (planned_state (t, q) ≡ true)) k.1 (refl, k.0)
      | inr k ↦ subst (λ q. (some row ≡ some q.0) × (planned_state (t, q) ≡ true)) k.1 (refl, k.0)
    ]

transition_state-Stands :
    (rows : List LotRow) (t : Transition) {r : LotRow × LotState}
    → transition_state rows t ≡ ok r
    → Stands rows (t, r)
unfolding transition_state
transition_state-Stands rows t h =
    let k = row_state-Stands t (row_by_id t.before.lot_id rows) h in
    record { row = k.0; state = k.1 }

transition_states-Stands :
    (rows : List LotRow) (ts : List Transition) {states : List Found}
    → transition_states rows ts ≡ ok states
    → (map transition_of states ≡ ts) × All (Stands rows) states
unfolding transition_states
transition_states-Stands rows [] h = rw⁻¹ (ok-injective h) (refl, tt)
transition_states-Stands rows (t ∷ ts) h =
    let first = >>=-eq-ok (transition_state rows t) _ h in
    let rest = >>=-eq-ok (transition_states rows ts) _ first.2 in
    let ih = transition_states-Stands rows ts rest.1 in
    rw⁻¹ (ok-injective rest.2)
      (ap (λ l. t ∷ l) ih.0, (transition_state-Stands rows t first.1, ih.1))

settle_states-eq-ok :
    (states : List Found) {updates : List LotRow}
    → settle_states states ≡ ok updates
    → ((updates ≡ []) × (all is_after states ≡ true))
      ⊎ ((updates ≡ map absolute_update states) × (all (λ s. not (is_after s)) states ≡ true))
unfolding settle_states
settle_states-eq-ok states h =
    elim (which (all is_after states) (all (λ s. not (is_after s)) states) partially_applied h) [
      | inl k ↦ inl (sym k.1, k.0)
      | inr k ↦ inr (sym k.1, k.0)
    ]

-- When the lots are reconciled with a plan, every transition has found its row, and either all are
-- at their planned end and nothing is written, or all are at their start and each is written at
-- its row; a plan that is applied in part is never written.
pub reconcile_withdrawal_lot_transitions-Settles :
    (rows : List LotRow) (ts : List Transition) (updates : List LotRow)
    → reconcile_withdrawal_lot_transitions rows ts ≡ ok updates
    → Settles rows ts updates
unfolding reconcile_withdrawal_lot_transitions
reconcile_withdrawal_lot_transitions-Settles rows ts updates h =
    let found = >>=-eq-ok (transition_states rows ts) settle_states h in
    let stand = transition_states-Stands rows ts found.1 in
    record {
      states = found.0;
      covers = stand.0;
      stand = stand.1;
      settled = settle_states-eq-ok found.0 found.2;
    }
