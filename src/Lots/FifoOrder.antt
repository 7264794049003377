-- ===== src/Lots/FifoOrder.antt =====
-- The order in which `consumeLotsFIFO` empties the lots.
use portfolio_manager.Base.{String, false, List, [], ◌∷◌, ◌≡◌, ◌≢◌, refl, sym, Bool-cases, inl, inr}
use mathlib.Core.Path.{subst}
use portfolio_manager.Base.Int.{ℤ, pos, ◌-ℤ◌, leb_ℤ, min_ℤ, int_laws, leb_ℤ→gt}
use portfolio_manager.Base.Money.{nano, round_shares}
use portfolio_manager.Lots.Lot.{Lot}
use portfolio_manager.Lots.Fifo.{drain, reduced}
use portfolio_manager.Lots.Conservation.{drain_stop, drain_next}

-- The updated lots are the first of the candidates, in their order, and every one but the last
-- is left with no share.
abbrev pub TakenInOrder : List Lot → List Lot → Type 0
TakenInOrder cs [] = Unit
TakenInOrder [] (u ∷ us) = ⊥
TakenInOrder (c ∷ cs) (u ∷ []) = u.lot_id ≡ c.lot_id
TakenInOrder (c ∷ cs) (u ∷ (v ∷ us)) =
    (u.lot_id ≡ c.lot_id) × (u.shares_open ≡ pos 0) × TakenInOrder cs (v ∷ us)

sub_self : (a : ℤ) → a -ℤ a ≡ pos 0
sub_self a = omega int_laws

-- If a round goes on, the lot of the round before gave all that it held.
emptied :
    (a remaining : ℤ)
    → leb_ℤ (remaining -ℤ min_ℤ a remaining) nano ≡ false
    → round_shares (a -ℤ min_ℤ a remaining) ≡ pos 0
unfolding round_shares
emptied a remaining e = elim (Bool-cases (leb_ℤ a remaining)) [
  | inl k ↦ rw k (rw (sub_self a))
  | inr k ↦ absurd (not_past (rw k at e))
]
  where
    not_past : leb_ℤ (remaining -ℤ remaining) nano ≡ false → ⊥
    not_past h = omega (int_laws, leb_ℤ→gt (remaining -ℤ remaining) nano h)

cons_in_order :
    (c : Lot) (cs : List Lot) (u : Lot) (us : List Lot)
    → u.lot_id ≡ c.lot_id
    → (us ≢ [] → u.shares_open ≡ pos 0)
    → TakenInOrder cs us
    → TakenInOrder (c ∷ cs) (u ∷ us)
cons_in_order c cs u [] same empty rest = same
cons_in_order c cs u (v ∷ us) same empty rest = (same, empty (λ q. cc), rest)

goes_on :
    (ticker : String) (price : ℤ) (cs : List Lot) (remaining : ℤ)
    → (drain ticker price cs remaining).updated_lots ≢ []
    → leb_ℤ remaining nano ≡ false
unfolding drain
goes_on ticker price [] remaining ne = absurd (ne refl)
goes_on ticker price (c ∷ cs) remaining ne = elim (Bool-cases (leb_ℤ remaining nano)) [
  | inl e ↦ absurd (ne (drain_stop ticker price c cs remaining e))
  | inr e ↦ e
]

-- Whatever the numbers are, the loop drains the candidates front to back: the lots that it
-- updates are the first candidates in their order, and each but the last is left with no share.
pub drain_in_order :
    (ticker : String) (price : ℤ) (cs : List Lot) (remaining : ℤ)
    → TakenInOrder cs (drain ticker price cs remaining).updated_lots
unfolding drain reduced
drain_in_order ticker price [] remaining = tt
drain_in_order ticker price (c ∷ cs) remaining = elim (Bool-cases (leb_ℤ remaining nano)) [
  | inl e ↦ subst (TakenInOrder (c ∷ cs)) (sym (drain_stop ticker price c cs remaining e)) tt
  | inr e ↦
      let from_lot = min_ℤ c.shares_open remaining in
      subst (TakenInOrder (c ∷ cs)) (sym (drain_next ticker price c cs remaining e)) (
        cons_in_order c cs (reduced c from_lot)
          (drain ticker price cs (remaining -ℤ from_lot)).updated_lots refl
          (λ ne.
            emptied c.shares_open remaining (goes_on ticker price cs (remaining -ℤ from_lot) ne))
          (drain_in_order ticker price cs (remaining -ℤ from_lot)))
]
