-- ===== src/Capital/PlanFirst.antt =====
-- lib/withdrawal-commit-runner.js: when the signed plan is stored.
use portfolio_manager.Base.{
  ◌≡◌, refl, ap, String, Bool, true, false, List, [], ◌∷◌, ◌++◌, filter, Outcome-cases, ok, thrown,
  inl, inr,
}
use portfolio_manager.Base.Text.{◌=s=◌}
use portfolio_manager.Capital.CommitOrder.{from_plan-Quiet, from_pricing-Quiet}
use portfolio_manager.Capital.Writes.{
  CommitError, Write, append_operation, append_trades, apply_lots, append_entry, shadow_entry, Run,
  ◌then_run◌, Store,
}
use portfolio_manager.Capital.Commit.{
  Services, CommitRequest, has_key, fresh_plan, choose_plan, run_withdrawal_commit,
}
use text.Mathlib.TextEquality.{eq_iff}

-- Nothing is written, or the first write stores a plan under the key.
abbrev pub opens_with_plan : String → List Write → Bool
opens_with_plan key [] = true
opens_with_plan key (append_operation o ∷ ws) = o.operation_id =s= key
opens_with_plan key (append_trades ts ∷ ws) = false
opens_with_plan key (apply_lots ls ∷ ws) = false
opens_with_plan key (append_entry e ∷ ws) = false
opens_with_plan key (shadow_entry e ∷ ws) = false

opens_with_plan-append :
    (key : String) (w : Write) (ws ys : List Write)
    → opens_with_plan key (w ∷ ws) ≡ true
    → opens_with_plan key (w ∷ ws ++ ys) ≡ true
opens_with_plan-append key (append_operation o) ws ys h = h
opens_with_plan-append key (append_trades ts) ws ys h = h
opens_with_plan-append key (apply_lots ls) ws ys h = h
opens_with_plan-append key (append_entry e) ws ys h = h
opens_with_plan-append key (shadow_entry e) ws ys h = h

opens_first :
    (key : String) (xs ys : List Write) {w : Write} {ws : List Write}
    → xs ≡ w ∷ ws
    → opens_with_plan key xs ≡ true
    → opens_with_plan key (xs ++ ys) ≡ true
opens_first key [] ys e h = cc
opens_first key (x ∷ xs) ys e h = opens_with_plan-append key x xs ys h

-- A run that stores the plan, or throws before it has written.
record Plans {A : Type 0} (key : String) (m : Run A) : Type 0 where
  opens : opens_with_plan key m.writes ≡ true
  writes_on_ok :
      (a : A) → m.outcome ≡ ok a → (w : Write) × ((ws : List Write) × (m.writes ≡ w ∷ ws))

thrown_then :
    {A B : Type 0} (m : Run A) (f : A → Run B) {e : CommitError}
    → m.outcome ≡ thrown e
    → (m then_run f).outcome ≡ thrown e
unfolding ◌then_run◌
thrown_then m f h = rw h refl

Plans-then_run :
    {A B : Type 0} (key : String) (m : Run A) (f : A → Run B)
    → Plans key m
    → Plans key (m then_run f)
unfolding ◌then_run◌
Plans-then_run key m f p = elim (Outcome-cases m.outcome) [
  | inl e ↦
      let w = p.writes_on_ok e.0 e.1 in
      record {
        opens = rw e.1 (opens_first key m.writes (f e.0).writes w.1.1 p.opens);
        writes_on_ok =
            λ b h. rw e.1 (w.0, (w.1.0 ++ (f e.0).writes, ap (λ ws. ws ++ (f e.0).writes) w.1.1));
      }
  | inr e ↦ record { opens = rw e.1 p.opens; writes_on_ok = λ b h. cc (thrown_then m f e.1, h) }
]

Plans-quiet :
    {A B : Type 0} (key : String) (m : Run A) (f : A → Run B)
    → m.writes ≡ []
    → ((a : A) → Plans key (f a))
    → Plans key (m then_run f)
unfolding ◌then_run◌
Plans-quiet key m f q k = elim (Outcome-cases m.outcome) [
  | inl e ↦ record {
    opens = rw (e.1, q) (k e.0).opens;
    writes_on_ok = rw (e.1, q) (k e.0).writes_on_ok;
  }
  | inr e ↦ record { opens = rw (e.1, q) refl; writes_on_ok = λ b h. cc (thrown_then m f e.1, h) }
]

module _ (services : Services) (s : Store) (r : CommitRequest) where
  fresh_plan-Plans : Plans r.idempotency_key (fresh_plan services s r)
  unfolding fresh_plan
  fresh_plan-Plans = Plans-quiet _ _ _ refl λ _. Plans-quiet _ _ _ (from_pricing-Quiet _) λ priced.
      Plans-quiet _ _ _ (from_plan-Quiet _) λ plan. Plans-quiet _ _ _ refl λ _.
        Plans-quiet _ _ _ (from_plan-Quiet _) λ _.
          Plans-then_run _ _ _
            (record { opens = (eq_iff _ _).1 refl; writes_on_ok = λ a h. (_, ([], refl)) })

  -- When no plan is stored under the key of a request, the run writes nothing, or its first write
  -- stores a plan under that key: no trade, lot or investor row is written before it.
  pub run_withdrawal_commit-plan_first :
      filter (has_key r.idempotency_key) s.operations ≡ []
      → opens_with_plan r.idempotency_key (run_withdrawal_commit services s r).writes ≡ true
  unfolding run_withdrawal_commit choose_plan
  run_withdrawal_commit-plan_first none_stored =
      (Plans-then_run _ _ _
        (rw (none_stored, choose_plan) (Plans-then_run _ _ _ fresh_plan-Plans))).opens
