-- ===== src/Lots/Distinct.antt =====
-- Lists of lots with no lot id twice, under `filter`, the sort and the look-up of an id.
use portfolio_manager.Base.{
  String, Bool, false, not, none, List, [], ◌∷◌, ◌≡◌, ◌≢◌, refl, sym, ◌⊎◌, inl, inr, filter, All,
  All-filter, All-imp, filter-All, Bool-cases, arith, eq_iff,
}
use portfolio_manager.Base.Int.{ℤ, sum_by, ◌+ℤ◌, int_laws}
use portfolio_manager.Base.Text.{ltb_str}
use portfolio_manager.Lots.Lot.{Lot, by_id}
use portfolio_manager.Lots.Fifo.{sort_key, insert_lot, sort_lots}

abbrev pub Fresh : String → List Lot → Type 0
Fresh id = All (λ lot. lot.lot_id ≢ id)

abbrev pub Distinct : List Lot → Type 0
Distinct [] = Unit
Distinct (lot ∷ lots) = Fresh lot.lot_id lots × Distinct lots

abbrev pub In : Lot → List Lot → Type 0
In lot [] = ⊥
In lot (m ∷ ms) = (lot ≡ m) ⊎ In lot ms

pub insert_lot-All {κ} :
    (P : Lot → Type κ) (lot : Lot) (ms : List Lot) → P lot → All P ms → All P (insert_lot lot ms)
unfolding insert_lot
insert_lot-All P lot [] p ps = (p, tt)
insert_lot-All P lot (m ∷ ms) p ps = elim (Bool-cases (ltb_str (sort_key m) (sort_key lot))) [
  | inl e ↦ rw e (ps.0, insert_lot-All P lot ms p ps.1)
  | inr e ↦ rw e (p, ps)
]

pub sort_lots-All {κ} : (P : Lot → Type κ) (ms : List Lot) → All P ms → All P (sort_lots ms)
unfolding sort_lots
sort_lots-All P [] ps = tt
sort_lots-All P (m ∷ ms) ps = insert_lot-All P m (sort_lots ms) ps.0 (sort_lots-All P ms ps.1)

insert_lot-Distinct :
    (lot : Lot) (ms : List Lot) → Fresh lot.lot_id ms → Distinct ms → Distinct (insert_lot lot ms)
unfolding insert_lot
insert_lot-Distinct lot [] f d = (tt, tt)
insert_lot-Distinct lot (m ∷ ms) f d = elim (Bool-cases (ltb_str (sort_key m) (sort_key lot))) [
  | inl e ↦ rw e (
    insert_lot-All (λ l. l.lot_id ≢ m.lot_id) lot ms (λ q. f.0 (sym q)) d.0,
    insert_lot-Distinct lot ms f.1 d.1,
  )
  | inr e ↦ rw e (f, d)
]

pub sort_lots-Distinct : (ms : List Lot) → Distinct ms → Distinct (sort_lots ms)
unfolding sort_lots
sort_lots-Distinct [] d = tt
sort_lots-Distinct (m ∷ ms) d =
    insert_lot-Distinct m (sort_lots ms) (sort_lots-All _ ms d.0) (sort_lots-Distinct ms d.1)

pub filter-Distinct : (p : Lot → Bool) (ms : List Lot) → Distinct ms → Distinct (filter p ms)
filter-Distinct p [] d = tt
filter-Distinct p (m ∷ ms) d = elim (Bool-cases (p m)) [
  | inl e ↦ rw e (All-filter (λ l. l.lot_id ≢ m.lot_id) p ms d.0, filter-Distinct p ms d.1)
  | inr e ↦ rw e (filter-Distinct p ms d.1)
]

-- A lot that a test drops shares its id with no lot that the test keeps.
pub dropped-Fresh :
    (p : Lot → Bool) (lot : Lot) (ms : List Lot)
    → Distinct ms
    → In lot ms
    → p lot ≡ false
    → Fresh lot.lot_id (filter p ms)
dropped-Fresh p lot [] d i e = absurd i
dropped-Fresh p lot (m ∷ ms) d (inl same) e =
    rw (← same) (rw e (All-filter (λ l. l.lot_id ≢ lot.lot_id) p ms (rw same d.0)))
dropped-Fresh p lot (m ∷ ms) d (inr i) e = elim (Bool-cases (p m)) [
  | inl k ↦ rw k ((λ q. Fresh-In lot ms (rw (← q) d.0) i), dropped-Fresh p lot ms d.1 i e)
  | inr k ↦ rw k (dropped-Fresh p lot ms d.1 i e)
]
  where
    Fresh-In : (l : Lot) (ls : List Lot) → Fresh l.lot_id ls → In l ls → ⊥
    Fresh-In l [] f j = j
    Fresh-In l (k ∷ ks) f (inl s) = f.0 (rw s)
    Fresh-In l (k ∷ ks) f (inr j) = Fresh-In l ks f.1 j

pub by_id-Fresh : (id : String) (us : List Lot) → Fresh id us → by_id us id ≡ none
unfolding by_id
by_id-Fresh id [] f = refl
by_id-Fresh id (u ∷ us) f =
    rw (by_id-Fresh id us f.1, by_id) (ground (arith, eq_iff u.lot_id id, f.0))

pub sum_by-insert_lot :
    (f : Lot → ℤ) (lot : Lot) (ms : List Lot) → sum_by f (insert_lot lot ms) ≡ f lot +ℤ sum_by f ms
unfolding insert_lot
sum_by-insert_lot f lot [] = refl
sum_by-insert_lot f lot (m ∷ ms) = elim (Bool-cases (ltb_str (sort_key m) (sort_key lot))) [
  | inl e ↦ rw e (rw (sum_by-insert_lot f lot ms) (omega int_laws))
  | inr e ↦ rw e
]

pub sum_by-sort_lots : (f : Lot → ℤ) (ms : List Lot) → sum_by f (sort_lots ms) ≡ sum_by f ms
unfolding sort_lots
sum_by-sort_lots f [] = refl
sum_by-sort_lots f (m ∷ ms) = rw (sum_by-insert_lot f m (sort_lots ms), sum_by-sort_lots f ms)

All-In : (all ls : List Lot) → ((l : Lot) → In l ls → In l all) → All (λ l. In l all) ls
All-In all [] h = tt
All-In all (l ∷ ls) h = (h l (inl refl), All-In all ls (λ m i. h m (inr i)))

-- What a test drops, as a list.
pub dropped-In :
    (p : Lot → Bool) (ls : List Lot)
    → All (λ l. In l ls) (filter (λ l. not (p l)) ls)
      × All (λ l. p l ≡ false) (filter (λ l. not (p l)) ls)
dropped-In p ls = (
  All-filter (λ l. In l ls) (λ l. not (p l)) ls (All-In ls ls (λ _ i. i)),
  All-imp (λ l e. ground arith) _ (filter-All (λ l. not (p l)) ls),
)
