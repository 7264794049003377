-- ===== src/Risk/ClampSafety.antt =====
-- What the mandate gate makes of a recommendation (`applyMandateScoreClamp`).
use portfolio_manager.Base.{
  ◌≡◌, ◌⊎◌, refl, sym, ap, Bool, true, false, not, Option, none, some, if◌then◌else◌, Bool-cases,
  inl, inr, arith,
}
use mathlib.Core.Path.{subst}
use portfolio_manager.Base.Int.{ℤ, pos, ltb_ℤ, ◌≤ℤ◌}
use portfolio_manager.Risk.Sizing.{hold}
use portfolio_manager.Risk.Engine.{Recommendation}
use portfolio_manager.Risk.MandateClamp.{
  SizingGate, is_buy, to_hold, clamped_weight, under_gate, apply_mandate_score_clamp,
}

-- A weight that is no more than another; where one is missing, so is the other.
abbrev pub NoMore : Option ℤ → Option ℤ → Type 0
NoMore none none = Unit
NoMore (some a) (some b) = a ≤ℤ b
NoMore none (some b) = ⊥
NoMore (some a) none = ⊥

-- A weight that a ceiling bounds, where both are there.
abbrev pub Below : Option ℤ → Option ℤ → Type 0
Below (some a) (some c) = a ≤ℤ c
Below (some a) none = Unit
Below none c = Unit

-- A recommendation that is no more than another: it is to hold nothing new, or has the same action and no larger weight.
abbrev pub Restricts : Recommendation → Recommendation → Type 0
Restricts after before =
    ((after.action ≡ hold) × (after.target_weight ≡ some (pos 0)))
    ⊎ ((after.action ≡ before.action) × NoMore after.target_weight before.target_weight)

NoMore-refl : (w : Option ℤ) → NoMore w w
NoMore-refl none = tt
NoMore-refl (some a) = omega arith

clamped-NoMore : (c w : Option ℤ) → NoMore (clamped_weight c w) w × Below (clamped_weight c w) c
unfolding clamped_weight
clamped-NoMore none none = (tt, tt)
clamped-NoMore none (some w) = (omega arith, tt)
clamped-NoMore (some c) none = (tt, tt)
clamped-NoMore (some c) (some w) = elim (Bool-cases (ltb_ℤ c w)) [
  | inl e ↦ rw e (ground arith, omega arith)
  | inr e ↦ rw e (omega arith, ground arith)
]

-- What the gate makes of a recommendation.
pub record Gated (enabled has_score : Bool) (gate : Option SizingGate)
    (before after : Recommendation) : Type 0 where
  pub restricts : Restricts after before
  pub only_entries : is_buy before.action ≡ false → after ≡ before
  pub off : enabled ≡ false → after ≡ before
  pub buys_allowed :
      enabled ≡ true
      → is_buy after.action ≡ true
      → (has_score ≡ true)
        × ((g : SizingGate) × (gate ≡ some g)
            × (g.eligible ≡ true)
            × Below after.target_weight g.ceiling)

disabled-Gated :
    (has_score : Bool) (gate : Option SizingGate) (rec : Recommendation)
    → Gated false has_score gate rec rec
disabled-Gated has_score gate rec = record {
  restricts = inr (refl, NoMore-refl rec.target_weight);
  only_entries = λ h. refl;
  off = λ h. refl;
  buys_allowed = λ h b. cc h;
}

exit-Gated :
    (enabled has_score : Bool) (gate : Option SizingGate) (rec : Recommendation)
    → is_buy rec.action ≡ false
    → Gated enabled has_score gate rec rec
exit-Gated enabled has_score gate rec n = record {
  restricts = inr (refl, NoMore-refl rec.target_weight);
  only_entries = λ h. refl;
  off = λ h. refl;
  buys_allowed = λ h b. cc (b, n);
}

held-Gated :
    (has_score : Bool) (gate : Option SizingGate) (rec : Recommendation)
    → is_buy rec.action ≡ true
    → Gated true has_score gate rec (to_hold rec)
held-Gated has_score gate rec y = record {
  restricts = inl (refl, refl);
  only_entries = λ h. cc (h, y);
  off = λ h. cc h;
  buys_allowed = λ h b. cc b;
}

allowed_gate :
    (gate : SizingGate) (rec : Recommendation)
    → gate.eligible ≡ true
    → under_gate (some gate) rec
      ≡ record rec { target_weight = clamped_weight gate.ceiling rec.target_weight }
unfolding under_gate
allowed_gate gate rec e =
    ap
      (λ b.
        if not b
        then to_hold rec
        else record rec { target_weight = clamped_weight gate.ceiling rec.target_weight })
      e

refused_gate :
    (gate : SizingGate) (rec : Recommendation)
    → gate.eligible ≡ false
    → under_gate (some gate) rec ≡ to_hold rec
unfolding under_gate
refused_gate gate rec e =
    ap
      (λ b.
        if not b
        then to_hold rec
        else record rec { target_weight = clamped_weight gate.ceiling rec.target_weight })
      e

under_gate-Gated :
    (gate : Option SizingGate) (rec : Recommendation)
    → is_buy rec.action ≡ true
    → Gated true true gate rec (under_gate gate rec)
unfolding under_gate
under_gate-Gated none rec y = held-Gated true none rec y
under_gate-Gated (some gate) rec y = elim (Bool-cases gate.eligible) [
  | inr e ↦
      subst (λ r. Gated true true (some gate) rec r) (sym (refused_gate gate rec e))
        (held-Gated true (some gate) rec y)
  | inl e ↦
      let c = clamped-NoMore gate.ceiling rec.target_weight in
      subst (λ r. Gated true true (some gate) rec r) (sym (allowed_gate gate rec e))
        (record {
          restricts = inr (refl, c.0);
          only_entries = λ h. cc (h, y);
          off = λ h. cc h;
          buys_allowed = λ h b. (refl, (gate, refl, e, c.1));
        })
]

-- The entry with its score, or without one.
abbrev scored : Bool → Option SizingGate → Recommendation → Recommendation
scored false gate rec = to_hold rec
scored true gate rec = under_gate gate rec

entry-Gated :
    (has_score : Bool) (gate : Option SizingGate) (rec : Recommendation)
    → is_buy rec.action ≡ true
    → Gated true has_score gate rec (scored has_score gate rec)
entry-Gated false gate rec y = held-Gated false gate rec y
entry-Gated true gate rec y = under_gate-Gated gate rec y

exit_same :
    (has_score : Bool) (gate : Option SizingGate) (rec : Recommendation)
    → is_buy rec.action ≡ false
    → (apply_mandate_score_clamp true has_score gate rec).0 ≡ rec
unfolding apply_mandate_score_clamp
exit_same has_score gate rec n =
    let f : Bool → Recommendation × Bool = λ b.
      if not b
      then (rec, false)
      else if not has_score
      then (to_hold rec, true)
      else (under_gate gate rec, true) in
    ap (λ b. (f b).0) n

entry_same :
    (has_score : Bool) (gate : Option SizingGate) (rec : Recommendation)
    → is_buy rec.action ≡ true
    → (apply_mandate_score_clamp true has_score gate rec).0 ≡ scored has_score gate rec
unfolding apply_mandate_score_clamp
entry_same false gate rec y =
    let f : Bool → Recommendation × Bool =
      λ b. if not b then (rec, false) else (to_hold rec, true) in
    ap (λ b. (f b).0) y
entry_same true gate rec y =
    let f : Bool → Recommendation × Bool =
      λ b. if not b then (rec, false) else (under_gate gate rec, true) in
    ap (λ b. (f b).0) y

-- Whatever the policy answers, the gate makes of a recommendation the same action with no larger weight, or to hold nothing new; it leaves all that is no entry, and everything
-- while it is off, as it was; and while it is on, an entry goes through only with a score, an answer of the policy that allows it, and a weight
-- within its tier.
pub apply_mandate_score_clamp-Gated :
    (enabled has_score : Bool) (gate : Option SizingGate) (rec : Recommendation)
    → Gated enabled has_score gate rec (apply_mandate_score_clamp enabled has_score gate rec).0
unfolding apply_mandate_score_clamp
apply_mandate_score_clamp-Gated false has_score gate rec = disabled-Gated has_score gate rec
apply_mandate_score_clamp-Gated true has_score gate rec = elim (Bool-cases (is_buy rec.action)) [
  | inr n ↦
      subst (λ r. Gated true has_score gate rec r) (sym (exit_same has_score gate rec n))
        (exit-Gated true has_score gate rec n)
  | inl y ↦
      subst (λ r. Gated true has_score gate rec r) (sym (entry_same has_score gate rec y))
        (entry-Gated has_score gate rec y)
]
