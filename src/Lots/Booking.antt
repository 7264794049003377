-- ===== src/Lots/Booking.antt =====
-- Which fills of a batch are booked, and the rows that they have (`planFillProcessing`).
use Prim.Native.Nat.{min}
use portfolio_manager.Base.{
  ℕ, ◌+◌, String, Bool, true, false, ◌||◌, Option, none, some, List, [], ◌∷◌, ◌++◌, ◌≡◌, refl, sym,
  ap, ◌∙◌, inl, inr, map, Bool-cases, arith, eq_iff, if◌then◌else◌, Outcome, ok, thrown, >>=-eq-ok,
  ok-injective,
}
use mathlib.Core.Path.{subst}
use mathlib.Core.List.{append-nil, append_assoc, map-append}
use portfolio_manager.Base.Text.{◌=s=◌, is_empty}
use portfolio_manager.Lots.Lot.{Lot, LotError}
use portfolio_manager.Lots.Fifo.{Sale}
use portfolio_manager.Lots.Attribution.{Proposal, Attribution, match_trade_to_approved_proposal}
use portfolio_manager.Lots.Fills.{
  Fill, TradeRow, Context, Progress, FillPlan, contains, is_seen, see, split_fresh, trade_of,
  trade_row, drop_matched, after_sale, sell_fill, buy_fill, process_fill, process_fills,
  plan_fill_processing,
}

abbrev pub has_order : String → Option String → Bool
has_order id none = false
has_order id (some order_id) = order_id =s= id

-- How many of the fills carry an order id.
abbrev pub count_order : String → List Fill → ℕ
count_order id [] = 0
count_order id (f ∷ fs) = (if has_order id f.order_id then 1 else 0) + count_order id fs

contains_cons :
    (id o : String) (seen : List String) → contains id (o ∷ seen) ≡ o =s= id || contains id seen
unfolding contains
contains_cons id o seen = refl

-- What one look at the seen ids says of an id.
seen_lem :
    (id : String) (seen : List String) (o : Option String)
    → is_empty id ≡ false
    → contains id (if is_seen seen o then seen else see o seen) ≡ contains id seen || has_order id o
unfolding is_seen see
seen_lem id seen none ne = ground arith
seen_lem id seen (some o) ne = elim (Bool-cases (is_empty o)) [
  | inl e ↦ rw e (ground (arith, eq_iff o id))
  | inr e ↦ rw e (elim (Bool-cases (contains o seen)) [
    | inl k ↦ rw k (ground (arith, eq_iff o id))
    | inr k ↦ rw k (ground (arith, contains_cons id o seen))
  ])
]

own_lem :
    (id : String) (seen : List String) (o : Option String)
    → is_empty id ≡ false
    → has_order id o ≡ true
    → is_seen seen o ≡ contains id seen
unfolding is_seen
own_lem id seen none ne h = cc
own_lem id seen (some o) ne h = rw ((eq_iff o id).0 h, ne)

-- An order id, not empty, that the Trade Ledger has not recorded is booked once, however often the batch
-- repeats it, and one that it has recorded is not booked.
pub split_fresh_once :
    (id : String) (seen : List String) (fills : List Fill)
    → is_empty id ≡ false
    → count_order id (split_fresh seen fills).0
      ≡ (if contains id seen then 0 else min 1 (count_order id fills))
unfolding split_fresh
split_fresh_once id seen [] ne = ground arith
split_fresh_once id seen (f ∷ fs) ne = ground (
  arith,
  seen_lem id seen f.order_id ne,
  own_lem id seen f.order_id ne,
  split_fresh_once id (if is_seen seen f.order_id then seen else see f.order_id seen) fs ne,
)

-- What a round of the loop adds: one row, with the fill's order id and the attribution's
-- proposal, which leaves the pool.
abbrev pub AddsRow : Fill → Attribution → Progress → Progress → Type 0
AddsRow fill a p q =
    (r : TradeRow) × (q.trade_rows ≡ p.trade_rows ++ (r ∷ []))
    × (r.order_id ≡ fill.order_id)
    × (r.proposal_id ≡ a.proposal_id)
    × (q.candidates ≡ p.candidates)

after_sale-AddsRow :
    (fill : Fill) (a : Attribution) (owned : Bool) (p : Progress) (o : Outcome LotError Sale)
    → AddsRow fill a p (after_sale fill a owned p o)
unfolding after_sale
after_sale-AddsRow fill a owned p (ok sale) = (_, refl, refl, refl, refl)
after_sale-AddsRow fill a true p (thrown e) = (_, refl, refl, refl, refl)
after_sale-AddsRow fill a false p (thrown e) = (_, refl, refl, refl, refl)

buy_fill-AddsRow :
    (fill : Fill) (a : Attribution) (p : Progress) {q : Progress}
    → buy_fill fill a p ≡ ok q
    → AddsRow fill a p q
unfolding buy_fill
buy_fill-AddsRow fill a p e = (trade_row fill a false none, ground arith, refl, refl, ground arith)

abbrev pub attributed : Context → Fill → Progress → Attribution
attributed c fill p =
    match_trade_to_approved_proposal (trade_of fill) p.candidates c.verify_signature

abbrev pub narrowed : Context → Fill → Progress → Progress
narrowed c fill p = record p {
  candidates = drop_matched (attributed c fill p).proposal_id p.candidates;
}

pub process_fill-AddsRow :
    (c : Context) (fill : Fill) (p : Progress) {q : Progress}
    → process_fill c fill p ≡ ok q
    → AddsRow fill (attributed c fill p) (narrowed c fill p) q
unfolding process_fill sell_fill
process_fill-AddsRow c fill p {q} e = elim (Bool-cases (fill.side =s= "BUY")) [
  | inl buy ↦ buy_fill-AddsRow fill (attributed c fill p) (narrowed c fill p) (rw buy at e)
  | inr other ↦ elim (Bool-cases (fill.side =s= "SELL")) [
    | inl sell ↦
        subst (AddsRow fill (attributed c fill p) (narrowed c fill p))
          (ok-injective (rw sell at (rw other at e)))
          (after_sale-AddsRow fill (attributed c fill p) _ (narrowed c fill p) _)
    | inr neither ↦
        subst (AddsRow fill (attributed c fill p) (narrowed c fill p))
          (ok-injective (rw neither at (rw other at e))) (_, refl, refl, refl, refl)
  ]
]

-- The rows stand for the fills: one each, in their order.
process_fills_rows :
    (c : Context) (fills : List Fill) (p : Progress) {q : Progress}
    → process_fills c fills p ≡ ok q
    → map (λ (r : TradeRow). r.order_id) q.trade_rows
      ≡ map (λ (r : TradeRow). r.order_id) p.trade_rows ++ map (λ (f : Fill). f.order_id) fills
unfolding process_fills
process_fills_rows c [] p e = rw append-nil (cc)
process_fills_rows c (fill ∷ fills) p e =
    let (p', first, rest) = >>=-eq-ok (process_fill c fill p) (process_fills c fills) e in
    let (r, rows, order, _, _) = process_fill-AddsRow c fill p first in
    process_fills_rows c fills p' rest ∙ rw rows (simp (map-append, append_assoc, order))

-- A plan has one trade row for each fresh fill, in their order, and the fresh and the skipped
-- fills are those of the split.
pub plan_fill_processing_rows :
    (c : Context) (fills : List Fill) (seen : List String) (ps : List Proposal) (lots : List Lot)
    {plan : FillPlan}
    → plan_fill_processing c fills seen ps lots ≡ ok plan
    → (map (λ (r : TradeRow). r.order_id) plan.trade_rows
        ≡ map (λ (f : Fill). f.order_id) plan.fresh_fills)
      × (plan.fresh_fills ≡ (split_fresh seen fills).0)
      × (plan.skipped ≡ (split_fresh seen fills).1)
unfolding plan_fill_processing
plan_fill_processing_rows c fills seen ps lots {plan} e =
    let (p, run, done) = >>=-eq-ok (process_fills c (split_fresh seen fills).0 _) _ e in
    let rows = process_fills_rows c (split_fresh seen fills).0 _ run in
    (
      subst
          (λ (q : FillPlan).
            map (λ (r : TradeRow). r.order_id) q.trade_rows
            ≡ map (λ (f : Fill). f.order_id) q.fresh_fills)
          (ok-injective done) rows,
      ap (λ (q : FillPlan). q.fresh_fills) (sym (ok-injective done)),
      ap (λ (q : FillPlan). q.skipped) (sym (ok-injective done)),
    )
