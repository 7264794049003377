-- ===== src/Lots/Conservation.antt =====
-- What a sale does to the open shares (`consumeLotsFIFO`).
use portfolio_manager.Base.{
  String, Bool, true, false, none, some, List, [], ◌∷◌, ◌≡◌, ◌≢◌, refl, ◌∙◌, ap, inl, inr, filter,
  All, All-filter, Bool-cases, arith, eq_iff, ok,
}
use portfolio_manager.Base.Int.{
  ℤ, pos, ◌+ℤ◌, ◌-ℤ◌, ◌≤ℤ◌, leb_ℤ, min_ℤ, sum_by, sum_by-filter, int_laws, leb_ℤ→le, parts_of_eq,
}
use portfolio_manager.Base.Money.{nano, round_shares_same, IsShares}
use portfolio_manager.Lots.Lot.{Lot, by_id, updated_or_same, apply_lot_updates}
use portfolio_manager.Lots.Fifo.{
  drain, reduced, sum_open, Sale, consume_lots_fifo, candidate_lots, is_candidate, sort_lots,
}
use portfolio_manager.Lots.Distinct.{
  Fresh, Distinct, In, sort_lots-All, sort_lots-Distinct, filter-Distinct, dropped-Fresh,
  by_id-Fresh, sum_by-sort_lots, dropped-In,
}

-- One round of the loop: it stops, or it takes from the first lot.
pub drain_stop :
    (ticker : String) (price : ℤ) (c : Lot) (cs : List Lot) (remaining : ℤ)
    → leb_ℤ remaining nano ≡ true
    → (drain ticker price (c ∷ cs) remaining).updated_lots ≡ []
unfolding drain
drain_stop ticker price c cs remaining e = rw e

pub drain_next :
    (ticker : String) (price : ℤ) (c : Lot) (cs : List Lot) (remaining : ℤ)
    → leb_ℤ remaining nano ≡ false
    → let from_lot = min_ℤ c.shares_open remaining in
      (drain ticker price (c ∷ cs) remaining).updated_lots
      ≡ reduced c from_lot ∷ (drain ticker price cs (remaining -ℤ from_lot)).updated_lots
unfolding drain
drain_next ticker price c cs remaining e = rw e

-- The open shares of a lot after the updates.
pub open_after : List Lot → Lot → ℤ
open_after us lot = (updated_or_same us lot).shares_open

pub drain-Fresh :
    (id ticker : String) (price : ℤ) (cs : List Lot) (remaining : ℤ)
    → Fresh id cs
    → Fresh id (drain ticker price cs remaining).updated_lots
unfolding drain reduced
drain-Fresh id ticker price [] remaining f = tt
drain-Fresh id ticker price (c ∷ cs) remaining f = elim (Bool-cases (leb_ℤ remaining nano)) [
  | inl e ↦ rw e tt
  | inr e ↦
      rw e (f.0, drain-Fresh id ticker price cs (remaining -ℤ min_ℤ c.shares_open remaining) f.1)
]

open_after_ne :
    (u : Lot) (us : List Lot) (lot : Lot)
    → lot.lot_id ≢ u.lot_id
    → open_after (u ∷ us) lot ≡ open_after us lot
unfolding by_id open_after
open_after_ne u us lot ne = ground (arith, eq_iff u.lot_id lot.lot_id)

open_after_self :
    (u : Lot) (us : List Lot) (lot : Lot)
    → lot.lot_id ≡ u.lot_id
    → Fresh lot.lot_id us
    → open_after (u ∷ us) lot ≡ u.shares_open
unfolding by_id open_after
open_after_self u us lot same f =
    ground (arith, eq_iff u.lot_id lot.lot_id, by_id-Fresh lot.lot_id us f)

sum_open_after_cons :
    (u : Lot) (us cs : List Lot)
    → Fresh u.lot_id cs
    → sum_by (open_after (u ∷ us)) cs ≡ sum_by (open_after us) cs
sum_open_after_cons u us [] f = refl
sum_open_after_cons u us (c ∷ cs) f = rw (open_after_ne u us c f.0, sum_open_after_cons u us cs f.1)

abbrev pub SharesOnGrid : List Lot → Type 0
SharesOnGrid = All (λ lot. IsShares lot.shares_open)

min_ℤ-IsShares :
    (a b : ℤ)
    → IsShares a
    → IsShares b
    → IsShares (min_ℤ a b) × IsShares (a -ℤ min_ℤ a b) × IsShares (b -ℤ min_ℤ a b)
unfolding ◌-ℤ◌
min_ℤ-IsShares a b ha hb = elim (Bool-cases (leb_ℤ a b)) [
  | inl e ↦ rw e (ground arith)
  | inr e ↦ rw e (ground arith)
]

open_after_nil : (cs : List Lot) → sum_by (open_after []) cs ≡ sum_open cs
unfolding open_after by_id
open_after_nil cs = refl

pub sum_open_nonneg : (cs : List Lot) → SharesOnGrid cs → pos 0 ≤ℤ sum_open cs
sum_open_nonneg [] g = omega arith
sum_open_nonneg (c ∷ cs) g = omega (int_laws, sum_open_nonneg cs g.1, g.0.nonneg)

min_ℤ-le : (a b s : ℤ) → IsShares a → IsShares b → pos 0 ≤ℤ s → b ≤ℤ a +ℤ s → b -ℤ min_ℤ a b ≤ℤ s
min_ℤ-le a b s ha hb hs le = elim (Bool-cases (leb_ℤ a b)) [
  | inl e ↦ rw e (omega int_laws)
  | inr e ↦ rw e (omega int_laws)
]

-- The loop takes exactly the wanted shares out of lots that hold enough.
pub drain_conserves :
    (ticker : String) (price : ℤ) (cs : List Lot) (remaining : ℤ)
    → Distinct cs
    → SharesOnGrid cs
    → IsShares remaining
    → remaining ≤ℤ sum_open cs
    → sum_by (open_after (drain ticker price cs remaining).updated_lots) cs +ℤ remaining
      ≡ sum_open cs
unfolding reduced
drain_conserves ticker price [] remaining d g r le = omega (int_laws, r.nonneg)
drain_conserves ticker price (c ∷ cs) remaining d g r le =
    elim (Bool-cases (leb_ℤ remaining nano)) [
      | inl e ↦
          ap total (drain_stop ticker price c cs remaining e)
          ∙ (ap (λ s. s +ℤ remaining) (open_after_nil (c ∷ cs))
              ∙ omega (int_laws, leb_ℤ→le remaining nano e, r.nonneg, r.on_grid))
      | inr e ↦
          let from_lot = min_ℤ c.shares_open remaining in
          let us = (drain ticker price cs (remaining -ℤ from_lot)).updated_lots in
          let (_, kept, left) = min_ℤ-IsShares c.shares_open remaining g.0 r in
          let ih =
            drain_conserves ticker price cs (remaining -ℤ from_lot) d.1 g.1 left
              (min_ℤ-le c.shares_open remaining (sum_open cs) g.0 r (sum_open_nonneg cs g.1) le) in
          ap total (drain_next ticker price c cs remaining e)
          ∙ (rw
              (
                open_after_self (reduced c from_lot) us c refl
                    (drain-Fresh c.lot_id ticker price cs _ d.0),
                sum_open_after_cons (reduced c from_lot) us cs d.0,
                round_shares_same _ kept,
              )
              (omega (int_laws, parts_of_eq ih)))
    ]
  where
    total : List Lot → ℤ
    total us = sum_by (open_after us) (c ∷ cs) +ℤ remaining

open_after-none :
    (us : List Lot) (l : Lot) → by_id us l.lot_id ≡ none → open_after us l ≡ l.shares_open
unfolding open_after
open_after-none us l e = ground arith

-- What the updates leave of the lots that no update names.
sum_open_after_none :
    (us ls : List Lot)
    → All (λ l. by_id us l.lot_id ≡ none) ls
    → sum_by (open_after us) ls ≡ sum_open ls
sum_open_after_none us [] h = refl
sum_open_after_none us (l ∷ ls) h = rw (open_after-none us l h.0, sum_open_after_none us ls h.1)

sum_open-apply : (us ls : List Lot) → sum_open (apply_lot_updates ls us) ≡ sum_by (open_after us) ls
unfolding open_after apply_lot_updates
sum_open-apply us [] = refl
sum_open-apply us (l ∷ ls) = rw (sum_open-apply us ls)

-- The lots that a sale cannot touch, as a list: those that are no candidates.
dropped_untouched :
    (ticker : String) (price wanted : ℤ) (p : Lot → Bool) (all ls : List Lot)
    → Distinct all
    → All (λ l. In l all) ls
    → All (λ l. p l ≡ false) ls
    → All
        (λ l.
          by_id (drain ticker price (sort_lots (filter p all)) wanted).updated_lots l.lot_id ≡ none)
        ls
dropped_untouched ticker price wanted p all [] d i h = tt
dropped_untouched ticker price wanted p all (l ∷ ls) d i h = (
  by_id-Fresh l.lot_id _ (
      drain-Fresh l.lot_id ticker price (sort_lots (filter p all)) wanted (
        sort_lots-All (λ m. m.lot_id ≢ l.lot_id) (filter p all) (dropped-Fresh p l all d i.0 h.0))),
  dropped_untouched ticker price wanted p all ls d i.1 h.1,
)

pub consume_lots_fifo_updates :
    (lots : List Lot) (ticker : String) (wanted price : ℤ) {sale : Sale}
    → consume_lots_fifo lots ticker (some wanted) (some price) ≡ ok sale
    → sale.updated_lots ≡ (drain ticker price (candidate_lots lots ticker) wanted).updated_lots
unfolding consume_lots_fifo
consume_lots_fifo_updates lots ticker wanted price e = ground arith

-- Where no lot id stands twice and every number of shares is a whole number of 1e-8, a sale that
-- the candidates cover takes exactly the sold shares out of the lots, once they are updated.
pub consume_lots_fifo-conserves :
    (lots : List Lot) (ticker : String) (wanted price : ℤ) {sale : Sale}
    → Distinct lots
    → SharesOnGrid lots
    → IsShares wanted
    → wanted ≤ℤ sum_open (candidate_lots lots ticker)
    → consume_lots_fifo lots ticker (some wanted) (some price) ≡ ok sale
    → sum_open (apply_lot_updates lots sale.updated_lots) +ℤ wanted ≡ sum_open lots
unfolding candidate_lots
consume_lots_fifo-conserves lots ticker wanted price d g w le e =
    let p = is_candidate ticker in
    let kept = filter p lots in
    let us = (drain ticker price (sort_lots kept) wanted).updated_lots in
    let (inside, refused) = dropped-In p lots in
    let sold =
      drain_conserves ticker price (sort_lots kept) wanted
        (sort_lots-Distinct kept (filter-Distinct p lots d))
        (sort_lots-All _ kept (All-filter (λ l. IsShares l.shares_open) p lots g)) w le in
    let rest =
      sum_open_after_none us _ (dropped_untouched ticker price wanted p lots _ d inside refused) in
    ap (λ u. sum_open (apply_lot_updates lots u) +ℤ wanted)
      (consume_lots_fifo_updates lots ticker wanted price e)
    ∙ (ap (λ s. s +ℤ wanted) (sum_open-apply us lots ∙ sum_by-filter (open_after us) p lots)
        ∙ omega (
          int_laws,
          parts_of_eq sold,
          parts_of_eq rest,
          parts_of_eq (sum_by-sort_lots (open_after us) kept),
          parts_of_eq (sum_by-sort_lots (λ l. l.shares_open) kept),
          parts_of_eq (sum_by-filter (λ l. l.shares_open) p lots),
        ))
