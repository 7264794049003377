-- ===== src/Capital/CommitOrder.antt =====
-- lib/withdrawal-commit-runner.js: the order of the writes.
use portfolio_manager.Base.{
  ℕ, suc, ◌≤◌, ◌≡◌, refl, String, Bool, true, false, ◌&&◌, List, [], ◌∷◌, ◌++◌, filter, leb,
  List-cases, Outcome-cases, inl, inr, arith, Outcome, ok, thrown,
}
use portfolio_manager.Capital.Plan.{Plan, PlanError}
use portfolio_manager.Capital.Plan.{names_operation}
use portfolio_manager.Capital.Replay.{LotRow, is_keyed}
use portfolio_manager.Capital.Pricing.{PricingError}
use portfolio_manager.Capital.Writes.{
  Write, append_operation, append_trades, apply_lots, append_entry, shadow_entry, Run, ◌then_run◌,
  write_lots, from_plan, from_pricing, Store,
}
use portfolio_manager.Capital.Commit.{
  Services, CommitRequest, has_key, fresh_plan, replayed_plan, choose_plan, trades_stage,
  lots_stage, overdraw_check, entry_stage, run_withdrawal_commit,
}

-- The stage of a write.
abbrev pub rank : Write → ℕ
rank (append_operation o) = 0
rank (append_trades ts) = 1
rank (apply_lots ls) = 2
rank (append_entry e) = 3
rank (shadow_entry e) = 4

-- Stages from `low`, below `high`, each later than the one before it.
abbrev pub staged : ℕ → ℕ → List Write → Bool
staged low high [] = leb low high
staged low high (w ∷ ws) = leb low (rank w) && staged (suc (rank w)) high ws

staged_from :
    (low mid high : ℕ) (ws : List Write)
    → low ≤ mid
    → staged mid high ws ≡ true
    → staged low high ws ≡ true
staged_from low mid high [] h k = ground arith
staged_from low mid high (w ∷ ws) h k = ground arith

staged-append :
    (low mid high : ℕ) (xs ys : List Write)
    → staged low mid xs ≡ true
    → staged mid high ys ≡ true
    → staged low high (xs ++ ys) ≡ true
staged-append low mid high [] ys h k = staged_from low mid high ys (ground arith) k
staged-append low mid high (x ∷ xs) ys h k =
    ground (arith, staged-append (suc (rank x)) mid high xs ys)

staged_to :
    (low mid high : ℕ) (ws : List Write)
    → mid ≤ high
    → staged low mid ws ≡ true
    → staged low high ws ≡ true
staged_to low mid high [] h k = ground arith
staged_to low mid high (w ∷ ws) h k = ground (arith, staged_to (suc (rank w)) mid high ws)

abbrev Staged : {A : Type 0} → ℕ → ℕ → Run A → Type 0
Staged low high m = staged low high m.writes ≡ true

then_run-Staged :
    {A B : Type 0} (low mid high : ℕ) (m : Run A) (f : A → Run B)
    → mid ≤ high
    → Staged low mid m
    → ((a : A) → Staged mid high (f a))
    → Staged low high (m then_run f)
unfolding ◌then_run◌
then_run-Staged low mid high m f le h k = elim (Outcome-cases m.outcome) [
  | inl e ↦ rw e.1 (staged-append low mid high m.writes (f e.0).writes h (k e.0))
  | inr e ↦ rw e.1 (staged_to low mid high m.writes le h)
]

-- A run that writes nothing fits before any stage.
abbrev pub Quiet : {A : Type 0} → Run A → Type 0
Quiet m = m.writes ≡ []

pub from_plan-Quiet : {A : Type 0} (o : Outcome PlanError A) → Quiet (from_plan o)
from_plan-Quiet (ok a) = refl
from_plan-Quiet (thrown e) = refl

pub from_pricing-Quiet : {A : Type 0} (o : Outcome PricingError A) → Quiet (from_pricing o)
from_pricing-Quiet (ok a) = refl
from_pricing-Quiet (thrown e) = refl

after-Quiet :
    {A B : Type 0} (low high : ℕ) (m : Run A) (f : A → Run B)
    → low ≤ high
    → Quiet m
    → ((a : A) → Staged low high (f a))
    → Staged low high (m then_run f)
after-Quiet low high m f le q k = then_run-Staged low low high m f le (rw q (ground arith)) k

write_lots-Staged : (updates : List LotRow) → Staged 2 3 (write_lots updates)
write_lots-Staged [] = refl
write_lots-Staged (u ∷ us) = refl

module _ (services : Services) (s : Store) (r : CommitRequest) where
  fresh_plan-Staged : Staged 0 1 (fresh_plan services s r)
  unfolding fresh_plan
  fresh_plan-Staged = after-Quiet 0 1 _ _ (omega arith) refl λ _.
      after-Quiet 0 1 _ _ (omega arith) (from_pricing-Quiet _) λ priced.
        after-Quiet 0 1 _ _ (omega arith) (from_plan-Quiet _) λ plan.
          after-Quiet 0 1 _ _ (omega arith) refl λ _.
            after-Quiet 0 1 _ _ (omega arith) (from_plan-Quiet _)
              λ _. then_run-Staged 0 1 1 _ _ (omega arith) refl λ _. refl

  replayed_plan-Staged : (json : String) → Staged 0 1 (replayed_plan services json r)
  unfolding replayed_plan
  replayed_plan-Staged json = after-Quiet 0 1 _ _ (omega arith) (from_plan-Quiet _) λ plan.
      after-Quiet 0 1 _ _ (omega arith) (from_plan-Quiet _)
        λ same. after-Quiet 0 1 _ _ (omega arith) refl λ _. refl

  pub choose_plan-Staged : Staged 0 1 (choose_plan services s r)
  unfolding choose_plan
  choose_plan-Staged = elim (List-cases (filter (has_key r.idempotency_key) s.operations)) [
    | inl e ↦
        rw (e, choose_plan) (then_run-Staged 0 1 1 _ _ (omega arith) fresh_plan-Staged λ plan. refl)
    | inr e ↦
        rw (e.1.1, choose_plan)
          (after-Quiet 0 1 _ _ (omega arith) refl
            λ _. then_run-Staged 0 1 1 _ _ (omega arith) (replayed_plan-Staged _) λ plan. refl)
  ]

  pub trades_stage-Staged : (plan : Plan) → Staged 1 2 (trades_stage services s r plan)
  unfolding trades_stage
  trades_stage-Staged plan = elim (List-cases plan.trades) [
    | inl e ↦ rw (e, trades_stage) refl
    | inr e ↦ elim (List-cases (filter (is_keyed r.idempotency_key) s.trades)) [
      | inl k ↦ rw (e.1.1, k, trades_stage) refl
      | inr k ↦
          rw (e.1.1, k.1.1, trades_stage)
            (after-Quiet 1 2 _ _ (omega arith) (from_plan-Quiet _) λ same. refl)
    ]
  ]

  pub lots_stage-Staged : (plan : Plan) → Staged 2 3 (lots_stage services s plan)
  unfolding lots_stage
  lots_stage-Staged plan = after-Quiet 2 3 _ _ (omega arith) (from_plan-Quiet _) write_lots-Staged

  pub overdraw_check-Staged :
      (plan : Plan) (b : Bool) → Staged 3 3 (overdraw_check services s plan b)
  unfolding overdraw_check
  overdraw_check-Staged plan false = refl
  overdraw_check-Staged plan true = after-Quiet 3 3 _ _ (omega arith) (from_plan-Quiet _) λ p. refl

  entry_stage-Staged : (plan : Plan) (b : Bool) → Staged 3 4 (entry_stage services s r plan b)
  unfolding entry_stage
  entry_stage-Staged plan b =
      elim (List-cases (filter (names_operation r.idempotency_key) s.ledger)) [
        | inl e ↦
            rw (e, entry_stage)
              (after-Quiet 3 4 _ _ (omega arith) refl λ _.
                then_run-Staged 3 3 4 _ _ (omega arith) (overdraw_check-Staged plan b)
                  λ warning. then_run-Staged 3 4 4 _ _ (omega arith) refl λ _. refl)
        | inr e ↦ elim (List-cases e.1.0) [
          | inl k ↦
              rw (e.1.1, k, entry_stage)
                (after-Quiet 3 4 _ _ (omega arith) (from_plan-Quiet _)
                  λ same. after-Quiet 3 4 _ _ (omega arith) refl λ _. refl)
          | inr k ↦
              rw (e.1.1, k.1.1, entry_stage) (after-Quiet 3 4 _ _ (omega arith) refl λ _. refl)
        ]
      ]

  -- Whatever the store holds and however the run ends, its writes come in the order operation,
  -- trades, lots, investor entry, mirror, each at most once.
  pub run_withdrawal_commit_order : staged 0 5 (run_withdrawal_commit services s r).writes ≡ true
  unfolding run_withdrawal_commit
  run_withdrawal_commit_order = then_run-Staged 0 1 5 _ _ (omega arith) choose_plan-Staged λ chosen.
      then_run-Staged 1 2 5 _ _ (omega arith) (trades_stage-Staged chosen.0) λ _.
        then_run-Staged 2 3 5 _ _ (omega arith) (lots_stage-Staged chosen.0) λ _.
          then_run-Staged 3 4 5 _ _ (omega arith) (entry_stage-Staged chosen.0 chosen.1)
            λ done. then_run-Staged 4 5 5 _ _ (omega arith) refl λ _. refl
