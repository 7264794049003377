-- ===== src/Capital/EntryOnce.antt =====
-- lib/withdrawal-commit-runner.js: when the investor row is appended.
use portfolio_manager.Base.{
  not-false, ℕ, suc, ◌≤◌, ◌≡◌, refl, Bool, true, false, none, List, [], ◌∷◌, filter, All,
  All-append, List-cases, Outcome-cases, arith, inl, inr,
}
use portfolio_manager.Capital.Signing.{investor_ledger_entry_hmac_matches}
use portfolio_manager.Capital.Plan.{Plan, names_operation}
use portfolio_manager.Capital.Writes.{
  CommitError, Write, append_operation, append_trades, apply_lots, append_entry, shadow_entry, Run,
  ◌then_run◌, pure_run, refuse_if, Store, duplicate_entries,
}
use portfolio_manager.Capital.Commit.{Services, CommitRequest, entry_stage, run_withdrawal_commit}
use portfolio_manager.Capital.CommitOrder.{
  rank, staged, choose_plan-Staged, trades_stage-Staged, lots_stage-Staged, overdraw_check-Staged,
  from_plan-Quiet,
}

-- Of an investor row that is appended: no row carries the key yet, and its signature verifies.
abbrev pub Guarded : Services → Store → CommitRequest → Write → Type 0
Guarded services s r (append_entry e) =
    (filter (names_operation r.idempotency_key) s.ledger ≡ [])
    × (investor_ledger_entry_hmac_matches services.crypto e r.secret ≡ true)
Guarded services s r (append_operation o) = Unit
Guarded services s r (append_trades ts) = Unit
Guarded services s r (apply_lots ls) = Unit
Guarded services s r (shadow_entry e) = Unit

staged_le : (low high : ℕ) (ws : List Write) → staged low high ws ≡ true → low ≤ high
staged_le low high [] h = ground arith
staged_le low high (w ∷ ws) h = ground (arith, staged_le (suc (rank w)) high ws)

All-writes :
    {A B : Type 0} (P : Write → Type 0) (m : Run A) (f : A → Run B)
    → All P m.writes
    → ((a : A) → All P (f a).writes)
    → All P (m then_run f).writes
unfolding ◌then_run◌
All-writes P m f h k = elim (Outcome-cases m.outcome) [
  | inl e ↦ rw e.1 (All-append P m.writes (f e.0).writes h (k e.0))
  | inr e ↦ rw e.1 h
]

-- A check that throws makes what follows it conditional on the check.
checked :
    {B : Type 0} (P : Write → Type 0) (test : Bool) (e : CommitError) (f : Unit {0} → Run B)
    → (test ≡ false → All P (f tt).writes)
    → All P (refuse_if test e then_run f).writes
unfolding ◌then_run◌
checked P true e f h = tt
checked P false e f h = h refl

module _ (services : Services) (s : Store) (r : CommitRequest) where
  before_entry :
      (low high : ℕ) (ws : List Write)
      → high ≤ 3
      → staged low high ws ≡ true
      → All (Guarded services s r) ws
  before_entry low high [] le h = tt
  before_entry low high (append_operation o ∷ ws) le h =
      (tt, before_entry 1 high ws le (ground (arith, h)))
  before_entry low high (append_trades ts ∷ ws) le h =
      (tt, before_entry 2 high ws le (ground (arith, h)))
  before_entry low high (apply_lots ls ∷ ws) le h =
      (tt, before_entry 3 high ws le (ground (arith, h)))
  before_entry low high (append_entry e ∷ ws) le h = ground (arith, staged_le 4 high ws)
  before_entry low high (shadow_entry e ∷ ws) le h =
      (tt, before_entry 5 high ws le (ground (arith, h)))

  entry_stage-Guarded :
      (plan : Plan) (b : Bool) → All (Guarded services s r) (entry_stage services s r plan b).writes
  unfolding entry_stage
  entry_stage-Guarded plan b =
      elim (List-cases (filter (names_operation r.idempotency_key) s.ledger)) [
        | inl e ↦
            rw (e, entry_stage)
              (checked _ _ _ _ λ signed.
                All-writes _ _ _
                  (before_entry 3 3 _ (omega arith) (overdraw_check-Staged services s r plan b))
                  λ warning. All-writes _ _ _ ((e, not-false signed), tt) λ _. tt)
        | inr e ↦ elim (List-cases e.1.0) [
          | inl k ↦
              rw (e.1.1, k, entry_stage)
                (All-writes _ _ _ (rw (from_plan-Quiet _) tt) λ same. checked _ _ _ _ λ _. tt)
          | inr k ↦
              rw (e.1.1, k.1.1, entry_stage)
                (checked (Guarded services s r) true duplicate_entries (λ _. pure_run (true, none))
                  λ _. tt)
        ]
      ]

  -- Whatever the store holds and however the run ends, it appends an investor row only if no row
  -- carries its key and the row's signature verifies under the investors' secret.
  pub run_withdrawal_commit-Guarded :
      All (Guarded services s r) (run_withdrawal_commit services s r).writes
  unfolding run_withdrawal_commit
  run_withdrawal_commit-Guarded =
      All-writes _ _ _ (before_entry 0 1 _ (omega arith) (choose_plan-Staged services s r))
        λ chosen.
          All-writes _ _ _
            (before_entry 1 2 _ (omega arith) (trades_stage-Staged services s r chosen.0))
            λ _.
              All-writes _ _ _
                (before_entry 2 3 _ (omega arith) (lots_stage-Staged services s r chosen.0))
                λ _.
                  All-writes _ _ _ (entry_stage-Guarded chosen.0 chosen.1)
                    λ done. All-writes _ _ _ (tt, tt) λ _. tt
