-- ===== src/Lots/Fulfilment.antt =====
-- Which proposals the fills of a batch fulfil (`planFillProcessing`).
use mathlib.Core.Path.{subst}
use portfolio_manager.Base.{
  ℕ, ◌+◌, String, true, false, not, Option, none, some, List, [], ◌∷◌, ◌++◌, ◌≡◌, ◌≢◌, refl, sym,
  ap, ◌∙◌, ◌⊎◌, inl, inr, All, All-filter, All-imp, filter-All, Bool-cases, arith, eq_iff,
  if◌then◌else◌, ok, >>=-eq-ok, ok-injective, ◌≤◌,
}
use portfolio_manager.Base.Text.{◌=s=◌, is_empty}
use portfolio_manager.Lots.Lot.{Lot}
use portfolio_manager.Lots.Attribution.{Proposal}
use portfolio_manager.Lots.Matching.{InProposals, match_trade-Vouches}
use portfolio_manager.Lots.Fills.{
  Fill, TradeRow, Context, Progress, FillPlan, split_fresh, trade_of, drop_matched, process_fill,
  process_fills, plan_fill_processing,
}
use portfolio_manager.Lots.Booking.{has_order, attributed, process_fill-AddsRow}

-- How many rows fulfil a proposal.
abbrev pub uses : String → List TradeRow → ℕ
uses id [] = 0
uses id (r ∷ rs) = (if has_order id r.proposal_id then 1 else 0) + uses id rs

uses-append :
    (id : String) (rs : List TradeRow) (r : TradeRow)
    → uses id (rs ++ (r ∷ [])) ≡ uses id rs + (if has_order id r.proposal_id then 1 else 0)
uses-append id [] r = omega arith
uses-append id (q ∷ rs) r = omega (arith, uses-append id rs r)

-- Not used yet, or used once and gone from the pool.
abbrev UsedOnce : String → Progress → Type 0
UsedOnce id p =
    (uses id p.trade_rows ≡ 0)
    ⊎ ((uses id p.trade_rows ≡ 1) × All (λ (q : Proposal). q.id ≢ id) p.candidates)

drop_matched-All :
    (id : String) (o : Option String) (ps : List Proposal)
    → All (λ (q : Proposal). q.id ≢ id) ps
    → All (λ (q : Proposal). q.id ≢ id) (drop_matched o ps)
unfolding drop_matched
drop_matched-All id none ps h = h
drop_matched-All id (some m) ps h = elim (Bool-cases (is_empty m)) [
  | inl e ↦ rw e h
  | inr e ↦ rw e (All-filter _ _ ps h)
]

drop_matched_gone :
    (id : String) (ps : List Proposal)
    → is_empty id ≡ false
    → All (λ (q : Proposal). q.id ≢ id) (drop_matched (some id) ps)
unfolding drop_matched
drop_matched_gone id ps ne = rw ne (
    All-imp (λ (q : Proposal) (h : not (q.id =s= id) ≡ true). ground (arith, eq_iff q.id id)) _
      (filter-All (λ (q : Proposal). not (q.id =s= id)) ps))

not_listed :
    (id : String) (p : Proposal) (ps : List Proposal)
    → p.id ≡ id
    → All (λ (q : Proposal). q.id ≢ id) ps
    → InProposals p ps
    → ⊥
not_listed id p [] same h i = i
not_listed id p (q ∷ qs) same h (inl e) = h.0 (ap (λ (x : Proposal). x.id) (sym e) ∙ same)
not_listed id p (q ∷ qs) same h (inr i) = not_listed id p qs same h.1 i

has_order→some : (id : String) (o : Option String) → has_order id o ≡ true → o ≡ some id
has_order→some id none h = cc
has_order→some id (some o) h = ap some ((eq_iff o id).0 h)

process_fill-UsedOnce :
    (id : String) (c : Context) (fill : Fill) (p : Progress) {q : Progress}
    → is_empty id ≡ false
    → UsedOnce id p
    → process_fill c fill p ≡ ok q
    → UsedOnce id q
process_fill-UsedOnce id c fill p {q} ne u e =
    let (r, rows, _, prop, pool) = process_fill-AddsRow c fill p e in
    let o = (attributed c fill p).proposal_id in
    let grown = ap (uses id) rows ∙ uses-append id p.trade_rows r in
    elim (Bool-cases (has_order id r.proposal_id)) [
      | inl same ↦
          let named : o ≡ some id = sym prop ∙ has_order→some id r.proposal_id same in
          elim u [
            | inl unused ↦ inr (
              grown ∙ rw same (omega arith),
              rw pool (rw named (drop_matched_gone id p.candidates ne)),
            )
            | inr used ↦
                let (m, is_it, _, vouches) =
                  match_trade-Vouches c.verify_signature (trade_of fill) p.candidates id named in
                absurd (not_listed id m p.candidates is_it used.1 vouches.listed)
          ]
      | inr other ↦ elim u [
        | inl unused ↦ inl (grown ∙ rw other (omega arith))
        | inr used ↦
            inr
              (grown ∙ rw other (omega arith), rw pool (drop_matched-All id o p.candidates used.1))
      ]
    ]

process_fills-UsedOnce :
    (id : String) (c : Context) (fills : List Fill) (p : Progress) {q : Progress}
    → is_empty id ≡ false
    → UsedOnce id p
    → process_fills c fills p ≡ ok q
    → UsedOnce id q
unfolding process_fills
process_fills-UsedOnce id c [] p ne u e = subst (UsedOnce id) (ok-injective e) u
process_fills-UsedOnce id c (fill ∷ fills) p ne u e =
    let (p', first, rest) = >>=-eq-ok (process_fill c fill p) (process_fills c fills) e in
    process_fills-UsedOnce id c fills p' ne (process_fill-UsedOnce id c fill p ne u first) rest

-- Whatever the batch and the verifier are, at most one trade row of a plan fulfils a given
-- proposal.
pub plan_fill_processing_fulfils_once :
    (id : String) (c : Context) (fills : List Fill) (seen : List String) (ps : List Proposal)
    (lots : List Lot) {plan : FillPlan}
    → is_empty id ≡ false
    → plan_fill_processing c fills seen ps lots ≡ ok plan
    → uses id plan.trade_rows ≤ 1
unfolding plan_fill_processing
plan_fill_processing_fulfils_once id c fills seen ps lots {plan} ne e =
    let (p, run, done) = >>=-eq-ok (process_fills c (split_fresh seen fills).0 _) _ e in
    let used = process_fills-UsedOnce id c (split_fresh seen fills).0 _ ne (inl refl) run in
    let same : p.trade_rows ≡ plan.trade_rows = cc in
    subst (λ rows. uses id rows ≤ 1) same (elim used [ inl z ↦ omega arith | inr o ↦ omega arith ])
