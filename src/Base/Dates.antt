-- ===== src/Base/Dates.antt =====
-- White space in a date text.
use Prim.Native.Nat.{ℕ}
use Prim.Native.String.{String}
use mathlib.Core.Path.{◌≡◌, refl, ap, ◌∙◌}
use mathlib.Core.Logic.{inl, inr}
use mathlib.Core.Bool.{true, false, ◌&&◌, ◌||◌}
use mathlib.Core.List.{List, [], ◌∷◌}
use native.Mathlib.Omega.{arith}
use portfolio_manager.Base.Tests.{and_split, leb, Bool-cases, ◌==◌}
use portfolio_manager.Base.Lists.{All}
use portfolio_manager.Base.Text.{
  codes, is_empty, trim_start, trim_end, trim, date_codes, is_digit, is_date,
}

abbrev Solid : ℕ → Type 0
Solid c = (c == 32 || leb 9 c && leb c 13) ≡ false

digit-Solid : (c : ℕ) → is_digit c ≡ true → Solid c
digit-Solid c h = ground arith

hyphen-Solid : (c : ℕ) → c == b'-' ≡ true → Solid c
hyphen-Solid c h = ground arith

date_codes-Solid : (cs : List ℕ) → date_codes cs ≡ true → All Solid cs
date_codes-Solid [] h = tt
date_codes-Solid (a ∷ []) h = cc
date_codes-Solid (a ∷ b ∷ []) h = cc
date_codes-Solid (a ∷ b ∷ c ∷ []) h = cc
date_codes-Solid (a ∷ b ∷ c ∷ d ∷ []) h = cc
date_codes-Solid (a ∷ b ∷ c ∷ d ∷ e ∷ []) h = cc
date_codes-Solid (a ∷ b ∷ c ∷ d ∷ e ∷ f ∷ []) h = cc
date_codes-Solid (a ∷ b ∷ c ∷ d ∷ e ∷ f ∷ g ∷ []) h = cc
date_codes-Solid (a ∷ b ∷ c ∷ d ∷ e ∷ f ∷ g ∷ i ∷ []) h = cc
date_codes-Solid (a ∷ b ∷ c ∷ d ∷ e ∷ f ∷ g ∷ i ∷ j ∷ []) h = cc
date_codes-Solid (a ∷ b ∷ c ∷ d ∷ e ∷ f ∷ g ∷ i ∷ j ∷ k ∷ []) h =
    let k' = and_split h in
    let j' = and_split k'.0 in
    let i' = and_split j'.0 in
    let g' = and_split i'.0 in
    let f' = and_split g'.0 in
    let e' = and_split f'.0 in
    let d' = and_split e'.0 in
    let c' = and_split d'.0 in
    let b' = and_split c'.0 in
    (
      digit-Solid a b'.0,
      (
        digit-Solid b b'.1,
        (
          digit-Solid c c'.1,
          (
            digit-Solid d d'.1,
            (
              hyphen-Solid e e'.1,
              (
                digit-Solid f f'.1,
                (
                  digit-Solid g g'.1,
                  (hyphen-Solid i i'.1, (digit-Solid j j'.1, (digit-Solid k k'.1, tt))),
                ),
              ),
            ),
          ),
        ),
      ),
    )
date_codes-Solid (a ∷ b ∷ c ∷ d ∷ e ∷ f ∷ g ∷ i ∷ j ∷ k ∷ (l ∷ ls)) h = cc

trim_end-Solid : (s : String) → All Solid (codes s) → trim_end s ≡ s
unfolding trim_end
trim_end-Solid String.[] h = refl
trim_end-Solid (String.◌∷◌ c s) h = elim (Bool-cases (is_empty s)) [
  | inl e ↦ rw (trim_end-Solid s h.1, e, h.0) refl
  | inr e ↦ rw (trim_end-Solid s h.1, e) refl
]

trim_start-Solid : (s : String) → All Solid (codes s) → trim_start s ≡ s
unfolding trim_start
trim_start-Solid String.[] h = refl
trim_start-Solid (String.◌∷◌ c s) h = rw h.0 refl

pub trim_date : (d : String) → is_date d ≡ true → trim d ≡ d
unfolding trim is_date
trim_date d h =
    let solid = date_codes-Solid (codes d) h in
    ap trim_end (trim_start-Solid d solid) ∙ trim_end-Solid d solid
