-- ===== src/Capital/Overdraw.antt =====
-- lib/investor-ledger.js: what a contribution or a withdrawal does to the units.
use portfolio_manager.Base.{
  ◌≡◌, refl, Bool, true, false, ◌&&◌, [], ◌∷◌, any, ◌++◌, arith, ok, throw_if, >>=-eq-ok,
  ok-injective,
}
use portfolio_manager.Base.Int.{
  ℤ, pos, negsuc, ◌+ℤ◌, ◌*ℤ◌, ◌≤ℤ◌, ltb_ℤ, abs_ℤ, int_laws, sum_by-append,
}
use portfolio_manager.Base.Money.{micro, round4, round4_grains}
use portfolio_manager.Lots.Lot.{require_positive}
use portfolio_manager.Capital.Signing.{Crypto, units_short, identity_conflict, amount_not_positive}
use portfolio_manager.Capital.Ledger.{
  Request, EntryResult, calculate_investor_ledger_entry, matched_entries, sum_units, resolved_id,
  is_conflicting, units_for, choose_nav, build_investor_ledger_entry,
}

throw_if-eq-ok :
    {E : Type 0} (test : Bool) (e : E) {u : Unit {0}} → throw_if test e ≡ ok u → test ≡ false
throw_if-eq-ok true e h = cc
throw_if-eq-ok false e h = refl

and_true : {a b : Bool} → a ≡ true → a && b ≡ false → b ≡ false
and_true {a = true} h k = k
and_true {a = false} h k = cc

-- What the result says of the ledger that it was computed from.
pub record Accounts (r : Request) (result : EntryResult) : Type 0 where
  outstanding : result.units_outstanding_after ≡ sum_units r.ledger +ℤ result.units
  entry_units : result.entry.units ≡ result.units
  held :
      result.investor_units_after
      ≡ sum_units (matched_entries (resolved_id r) r.email r.ledger) +ℤ result.units
  one_owner :
      any (is_conflicting (resolved_id r)) (matched_entries (resolved_id r) r.email r.ledger)
      ≡ false
  covered :
      (r.is_withdrawal
        && ltb_ℤ
            (sum_units (matched_entries (resolved_id r) r.email r.ledger) +ℤ micro)
            (abs_ℤ result.units))
      ≡ false

round4_whole : (a : ℤ) → round4 (a *ℤ pos round4_grains) ≡ a *ℤ pos round4_grains
unfolding round4 ◌*ℤ◌
round4_whole (pos n) = ground arith
round4_whole (negsuc n) = ground arith

round4_units :
    (out : Bool) (amount nav : ℤ) → round4 (units_for out amount nav) ≡ units_for out amount nav
unfolding units_for
round4_units out amount nav = round4_whole _

calculate-Accounts :
    (crypto : Crypto) (r : Request) (result : EntryResult)
    → calculate_investor_ledger_entry crypto r ≡ ok result
    → Accounts r result
unfolding calculate_investor_ledger_entry build_investor_ledger_entry
calculate-Accounts crypto r result h =
    let matched = matched_entries (resolved_id r) r.email r.ledger in
    let amount = >>=-eq-ok (require_positive r.amount amount_not_positive) _ h in
    let priced = >>=-eq-ok (choose_nav r (sum_units r.ledger)) _ amount.2 in
    let units = units_for r.is_withdrawal amount.0 priced.0.0 in
    let one =
      >>=-eq-ok (throw_if (any (is_conflicting (resolved_id r)) matched) identity_conflict) _
        priced.2 in
    let paid =
      >>=-eq-ok
        (throw_if (r.is_withdrawal && ltb_ℤ (sum_units matched +ℤ micro) (abs_ℤ units)) units_short)
        _ one.2 in
    let done = ok-injective paid.2 in
    record {
      outstanding = rw⁻¹ done refl;
      entry_units = rw⁻¹ done (round4_units _ _ _);
      held = rw⁻¹ done refl;
      one_owner = throw_if-eq-ok _ _ one.1;
      covered = rw⁻¹ done (throw_if-eq-ok _ _ paid.1);
    }

covered_units :
    (held units : ℤ) → ltb_ℤ (held +ℤ micro) (abs_ℤ units) ≡ false → pos 0 ≤ℤ held +ℤ units +ℤ micro
unfolding ◌+ℤ◌
covered_units held (pos n) h = ground arith
covered_units held (negsuc n) h = ground arith

-- A withdrawal that is computed leaves the investor at -1e-6 units at the least, and no entry that
-- is counted as the investor's is under another stable id.
pub calculate_investor_ledger_entry-covered :
    (crypto : Crypto) (r : Request) (result : EntryResult)
    → r.is_withdrawal ≡ true
    → calculate_investor_ledger_entry crypto r ≡ ok result
    → (pos 0 ≤ℤ result.investor_units_after +ℤ micro)
      × (any (is_conflicting (resolved_id r)) (matched_entries (resolved_id r) r.email r.ledger)
          ≡ false)
calculate_investor_ledger_entry-covered crypto r result out h =
    let a = calculate-Accounts crypto r result h in
    (rw a.held (covered_units _ _ (and_true out a.covered)), a.one_owner)

-- The ledger with the new entry appended holds the units outstanding that the result reports.
pub calculate_investor_ledger_entry_total :
    (crypto : Crypto) (r : Request) (result : EntryResult)
    → calculate_investor_ledger_entry crypto r ≡ ok result
    → sum_units (r.ledger ++ (result.entry ∷ [])) ≡ result.units_outstanding_after
calculate_investor_ledger_entry_total crypto r result h =
    let a = calculate-Accounts crypto r result h in
    rw (sum_by-append (λ e. e.units) r.ledger (result.entry ∷ []), a.outstanding, a.entry_units)
      (omega int_laws)
