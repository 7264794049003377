-- ===== src/Lots/Matching.antt =====
-- What an attribution of a fill to a proposal vouches for.
use portfolio_manager.Base.{
  String, Bool, true, Option, none, some, List, [], ◌∷◌, ◌≡◌, refl, sym, ap, ◌∙◌, ◌⊎◌, inl, inr,
  filter, All, filter-All, All-filter, Bool-cases, arith, eq_iff,
}
use mathlib.Core.Path.{subst}
use portfolio_manager.Base.Text.{is_empty}
use portfolio_manager.Lots.Attribution.{
  Proposal, Trade, is_given, verifies, names_proposal, in_tolerance, only_one, match_by_ref,
  match_reference, match_trade_to_approved_proposal,
}

abbrev pub InProposals : Proposal → List Proposal → Type 0
InProposals p [] = ⊥
InProposals p (q ∷ qs) = (p ≡ q) ⊎ InProposals p qs

-- The proposal is one of the open ones, the broker's reference names it, its signature is
-- verified, and the fill is of its ticker and side, within the tolerances.
pub record Vouches (verify : Option (Proposal → Bool)) (trade : Trade)
    (open_proposals : List Proposal) (p : Proposal) : Type 0 where
  pub listed : InProposals p open_proposals
  pub referenced : trade.ref_id ≡ some p.id
  pub signed : is_given p.decision_hmac ≡ true
  pub verified : verifies verify p ≡ true
  pub same_ticker : p.ticker ≡ trade.ticker
  pub same_side : p.side ≡ trade.side
  pub tolerated : in_tolerance trade p ≡ true

All-listed :
    (ps qs : List Proposal)
    → ((p : Proposal) → InProposals p qs → InProposals p ps)
    → All (λ p. InProposals p ps) qs
All-listed ps [] h = tt
All-listed ps (q ∷ qs) h = (h q (inl refl), All-listed ps qs (λ p i. h p (inr i)))

-- What is kept by both filters, as a list.
kept_facts :
    (verify : Option (Proposal → Bool)) (trade : Trade) (ref_id : String) (ps : List Proposal)
    → let kept = filter (in_tolerance trade) (filter (names_proposal verify trade ref_id) ps) in
      All (λ p. InProposals p ps) kept
      × All (λ p. names_proposal verify trade ref_id p ≡ true) kept
      × All (λ p. in_tolerance trade p ≡ true) kept
kept_facts verify trade ref_id ps =
    let named = filter (names_proposal verify trade ref_id) ps in
    (
      All-filter _ (in_tolerance trade) named
          (All-filter _ (names_proposal verify trade ref_id) ps (All-listed ps ps (λ _ i. i))),
      All-filter _ (in_tolerance trade) named (filter-All (names_proposal verify trade ref_id) ps),
      filter-All (in_tolerance trade) named,
    )

named_facts :
    (verify : Option (Proposal → Bool)) (trade : Trade) (ref_id : String) (p : Proposal)
    → names_proposal verify trade ref_id p ≡ true
    → (p.id ≡ ref_id)
      × (is_given p.decision_hmac ≡ true)
      × (verifies verify p ≡ true)
      × (p.ticker ≡ trade.ticker)
      × (p.side ≡ trade.side)
unfolding names_proposal
named_facts verify trade ref_id p h =
    ground (arith, eq_iff p.id ref_id, eq_iff p.ticker trade.ticker, eq_iff p.side trade.side)

only_one-some :
    (ps : List Proposal) (id : String)
    → (only_one ps).proposal_id ≡ some id
    → (p : Proposal) × (ps ≡ p ∷ []) × (p.id ≡ id) × (p.agent_id ≡ (only_one ps).agent_id)
only_one-some [] id e = cc
only_one-some (p ∷ []) id e = (p, refl, ground arith, refl)
only_one-some (p ∷ (q ∷ ps)) id e = cc

match_by_ref-Vouches :
    (verify : Option (Proposal → Bool)) (trade : Trade) (ref_id : String) (ps : List Proposal)
    (id : String)
    → trade.ref_id ≡ some ref_id
    → (match_by_ref verify trade ref_id ps).proposal_id ≡ some id
    → (p : Proposal) × (p.id ≡ id)
      × (p.agent_id ≡ (match_by_ref verify trade ref_id ps).agent_id)
      × Vouches verify trade ps p
unfolding match_by_ref
match_by_ref-Vouches verify trade ref_id ps id r e =
    let (p, single, same, agent) = only_one-some _ id e in
    let (listed, named, tolerated) = kept_facts verify trade ref_id ps in
    let facts = named_facts verify trade ref_id p (subst (All _) single named).0 in
    (
      p,
      same,
      agent,
      record {
        listed = (subst (All (λ q. InProposals q ps)) single listed).0;
        referenced = rw facts.0 r;
        signed = facts.1;
        verified = facts.2;
        same_ticker = facts.3;
        same_side = facts.4;
        tolerated = (subst (All (λ q. in_tolerance trade q ≡ true)) single tolerated).0;
      },
    )

match_reference-some :
    (verify : Option (Proposal → Bool)) (trade : Trade) (ps : List Proposal) (o : Option String)
    (id : String)
    → (match_reference verify trade ps o).proposal_id ≡ some id
    → (ref_id : String) × (o ≡ some ref_id)
      × (match_reference verify trade ps o ≡ match_by_ref verify trade ref_id ps)
unfolding match_reference
match_reference-some verify trade ps none id e = cc
match_reference-some verify trade ps (some ref_id) id e = elim (Bool-cases (is_empty ref_id)) [
  | inl k ↦ cc (rw k at e)
  | inr k ↦ (ref_id, refl, rw k)
]

-- A fill is attributed only to an open proposal that the broker's reference names, whose
-- signature the verifier accepts, and whose ticker, side, price limit and amount fit the fill.
-- The agent is that proposal's.
pub match_trade-Vouches :
    (verify : Option (Proposal → Bool)) (trade : Trade) (ps : List Proposal) (id : String)
    → (match_trade_to_approved_proposal trade ps verify).proposal_id ≡ some id
    → (p : Proposal) × (p.id ≡ id)
      × (p.agent_id ≡ (match_trade_to_approved_proposal trade ps verify).agent_id)
      × Vouches verify trade ps p
unfolding match_trade_to_approved_proposal
match_trade-Vouches verify trade ps id e =
    let (ref_id, given, same) = match_reference-some verify trade ps trade.ref_id id e in
    let (p, id_same, agent, vouches) =
      match_by_ref-Vouches verify trade ref_id ps id given
        (subst (λ a. a.proposal_id ≡ some id) same e) in
    (p, id_same, agent ∙ ap (λ a. a.agent_id) (sym same), vouches)
