-- ===== src/Month/Recovery.antt =====
-- Expired leases in the two sums of a month.
use portfolio_manager.Base.{none, ℕ, ◌+◌, ◌≤◌, ◌≡◌, refl, List, [], ◌∷◌, arith, String}
use portfolio_manager.Month.Hash.{total, total-del, get?, get?-del}
use portfolio_manager.Month.Store.{MonthState, Sums, recover, recover_one, recovered, expired_ids}

-- How the sums `c` stand to the sums `b` before: what is reserved and belongs to no lease is the same, and
-- so is all that is spent or reserved.
pub record Moved (b c : Sums) : Type 0 where
  pub held : total c.data_left ≤ c.reserved
  pub slack : c.reserved + total b.data_left ≡ b.reserved + total c.data_left
  pub whole : c.spent + c.reserved ≡ b.spent + b.reserved
  pub grows : b.spent ≤ c.spent

one-Moved : (id : String) (b : Sums) → total b.data_left ≤ b.reserved → Moved b (recover_one id b)
one-Moved id b h = record {
  held = omega (arith, total-del id b.data_left);
  slack = omega (arith, total-del id b.data_left);
  whole = omega (arith, total-del id b.data_left);
  grows = omega arith;
}

Moved-trans : {b c d : Sums} → Moved b c → Moved c d → Moved b d
Moved-trans p q = record {
  held = q.held;
  slack = omega (arith, p.slack, q.slack);
  whole = omega (arith, p.whole, q.whole);
  grows = omega (arith, p.grows, q.grows);
}

recover-Moved :
    (ids : List String) (b : Sums) → total b.data_left ≤ b.reserved → Moved b (recover ids b)
unfolding recover
recover-Moved [] b h = record { held = h; slack = refl; whole = refl; grows = omega arith }
recover-Moved (id ∷ ids) b h =
    let one = one-Moved id b h in Moved-trans one (recover-Moved ids (recover_one id b) one.held)

abbrev pub sums_of : MonthState → Sums
sums_of s = record { spent = s.spent; reserved = s.reserved; data_left = s.lease_data }

pub recovered-Moved :
    (at : ℕ) (s : MonthState) → total s.lease_data ≤ s.reserved → Moved (sums_of s) (recovered at s)
unfolding recovered
recovered-Moved at s h = recover-Moved (expired_ids at s.lease_ends) (sums_of s) h

recover-get? :
    (id : String) (ids : List String) (b : Sums)
    → get? id b.data_left ≡ none
    → get? id (recover ids b).data_left ≡ none
unfolding recover
recover-get? id [] b h = h
recover-get? id (other ∷ ids) b h =
    recover-get? id ids (recover_one other b) (get?-del id other b.data_left h)

-- An id that no lease has is no lease's after the recovery.
pub recovered-get? :
    (at : ℕ) (id : String) (s : MonthState)
    → get? id s.lease_data ≡ none
    → get? id (recovered at s).data_left ≡ none
unfolding recovered
recovered-get? at id s h = recover-get? id (expired_ids at s.lease_ends) (sums_of s) h
