-- ===== src/Base/Text.antt =====
-- The string methods that the code calls. Case mapping is that of ASCII letters, `trim` removes
-- the ASCII white space, and `<` on strings is the order of code points.
use Prim.Native.Nat.{ℕ}
use Prim.Native.Char.{Char, code}
use Prim.Native.String.{String}
use mathlib.Core.Path.{◌≡◌, refl, sym, ◌∙◌}
use mathlib.Core.Bool.{Bool, true, false, ◌&&◌, ◌||◌}
use mathlib.Core.List.{List, [], ◌∷◌}
use text.Mathlib.Text.{◌==◌ as str_eq}
use native.Mathlib.Omega.{arith}
use portfolio_manager.Base.Tests.{ltb, leb, ◌==◌, if◌then◌else◌}

infix 50 ◌=s=◌
-- `a === b` on strings
abbrev pub ◌=s=◌ : String → String → Bool
a =s= b = str_eq a b

abbrev pub codes : String → List ℕ
codes String.[] = []
codes (String.◌∷◌ c s) = code c ∷ codes s

-- The lexicographic order of code points.
unfoldable pub lt_codes : List ℕ → List ℕ → Bool
lt_codes xs [] = false
lt_codes [] (y ∷ ys) = true
lt_codes (x ∷ xs) (y ∷ ys) = ltb x y || x == y && lt_codes xs ys

-- `a < b` on strings
abbrev pub ltb_str : String → String → Bool
ltb_str a b = lt_codes (codes a) (codes b)

lt_codes_trans :
    (xs ys zs : List ℕ) → lt_codes xs ys ≡ true → lt_codes ys zs ≡ true → lt_codes xs zs ≡ true
unfolding lt_codes
lt_codes_trans xs [] zs h k = cc
lt_codes_trans xs (y ∷ ys) [] h k = cc
lt_codes_trans [] (y ∷ ys) (z ∷ zs) h k = refl
lt_codes_trans (x ∷ xs) (y ∷ ys) (z ∷ zs) h k = ground (arith, lt_codes_trans xs ys zs)

lt_codes_ge_trans :
    (xs ys zs : List ℕ) → lt_codes xs ys ≡ false → lt_codes ys zs ≡ false → lt_codes xs zs ≡ false
unfolding lt_codes
lt_codes_ge_trans xs ys [] h k = refl
lt_codes_ge_trans [] [] (z ∷ zs) h k = cc
lt_codes_ge_trans (x ∷ xs) [] (z ∷ zs) h k = cc
lt_codes_ge_trans [] (y ∷ ys) (z ∷ zs) h k = cc
lt_codes_ge_trans (x ∷ xs) (y ∷ ys) (z ∷ zs) h k = ground (arith, lt_codes_ge_trans xs ys zs)

lt_codes_asym : (xs ys : List ℕ) → lt_codes xs ys ≡ true → lt_codes ys xs ≡ false
unfolding lt_codes
lt_codes_asym xs [] h = cc
lt_codes_asym [] (y ∷ ys) h = refl
lt_codes_asym (x ∷ xs) (y ∷ ys) h = ground (arith, lt_codes_asym xs ys)

-- `<` on strings is a strict order, and `≥` is transitive.
pub ltb_str_trans : (a b c : String) → ltb_str a b ≡ true → ltb_str b c ≡ true → ltb_str a c ≡ true
ltb_str_trans a b c = lt_codes_trans (codes a) (codes b) (codes c)

pub ltb_str_ge_trans :
    (a b c : String) → ltb_str a b ≡ false → ltb_str b c ≡ false → ltb_str a c ≡ false
ltb_str_ge_trans a b c = lt_codes_ge_trans (codes a) (codes b) (codes c)

pub ltb_str_asym : (a b : String) → ltb_str a b ≡ true → ltb_str b a ≡ false
ltb_str_asym a b = lt_codes_asym (codes a) (codes b)

-- `!s` for a string
abbrev pub is_empty : String → Bool
is_empty String.[] = true
is_empty (String.◌∷◌ c s) = false

abbrev pub is_space : Char → Bool
is_space c = code c == 32 || leb 9 (code c) && leb (code c) 13

unfoldable pub trim_start : String → String
trim_start String.[] = String.[]
trim_start (String.◌∷◌ c s) = if is_space c then trim_start s else String.◌∷◌ c s

unfoldable pub trim_end : String → String
trim_end String.[] = String.[]
trim_end (String.◌∷◌ c s) =
    let rest = trim_end s in if is_empty rest && is_space c then String.[] else String.◌∷◌ c rest

unfoldable pub trim : String → String
unfolding trim_start trim_end
trim s = trim_end (trim_start s)

abbrev blank : String → Bool
blank String.[] = true
blank (String.◌∷◌ c s) = is_space c && blank s

trim_start-blank : (s : String) → blank (trim_start s) ≡ blank s
unfolding trim_start
trim_start-blank String.[] = refl
trim_start-blank (String.◌∷◌ c s) = ground (arith, trim_start-blank s)

end_empty :
    (e b : Bool) (c : Char) (rest : String)
    → is_empty (if e && b then String.[] else String.◌∷◌ c rest) ≡ b && e
end_empty true true c rest = refl
end_empty true false c rest = refl
end_empty false true c rest = refl
end_empty false false c rest = refl

end_blank :
    (e b : Bool) (c : Char) (rest s : String)
    → is_space c ≡ b
    → blank rest ≡ blank s
    → e ≡ blank s
    → blank (if e && b then String.[] else String.◌∷◌ c rest) ≡ b && blank s
end_blank true true c rest s p h k = k
end_blank true false c rest s p h k = rw p refl
end_blank false true c rest s p h k = rw (p, h) refl
end_blank false false c rest s p h k = rw p refl

is_empty-trim_end : (s : String) → is_empty (trim_end s) ≡ blank s
unfolding trim_end
is_empty-trim_end String.[] = refl
is_empty-trim_end (String.◌∷◌ c s) =
    rw (sym (is_empty-trim_end s)) (end_empty (is_empty (trim_end s)) (is_space c) c (trim_end s))

trim_end-blank : (s : String) → blank (trim_end s) ≡ blank s
unfolding trim_end
trim_end-blank String.[] = refl
trim_end-blank (String.◌∷◌ c s) =
    end_blank (is_empty (trim_end s)) (is_space c) c (trim_end s) s refl (trim_end-blank s)
      (is_empty-trim_end s)

is_empty-trim : (s : String) → is_empty (trim s) ≡ blank s
unfolding trim
is_empty-trim s = is_empty-trim_end (trim_start s) ∙ trim_start-blank s

-- To trim again leaves no less.
pub is_empty-trim_twice : (s : String) → is_empty (trim (trim s)) ≡ is_empty (trim s)
unfolding trim
is_empty-trim_twice s =
    is_empty-trim (trim s)
    ∙ (trim_end-blank (trim_start s) ∙ (sym (is_empty-trim_end (trim_start s))))

-- The letter of the second alphabet at the place where `c` stands in the first.
translate : String → String → Char → Char
translate String.[] to c = c
translate (String.◌∷◌ a from) String.[] c = c
translate (String.◌∷◌ a from) (String.◌∷◌ b to) c =
    if code a == code c then b else translate from to c

map_chars : (Char → Char) → String → String
map_chars f String.[] = String.[]
map_chars f (String.◌∷◌ c s) = String.◌∷◌ (f c) (map_chars f s)

abbrev uppers : String
uppers = "ABCDEFGHIJKLMNOPQRSTUVWXYZ"

abbrev lowers : String
lowers = "abcdefghijklmnopqrstuvwxyz"

unfoldable pub to_lower : String → String
unfolding translate map_chars
to_lower = map_chars (translate uppers lowers)

unfoldable pub to_upper : String → String
unfolding translate map_chars
to_upper = map_chars (translate lowers uppers)

abbrev pub is_digit : ℕ → Bool
is_digit c = leb b'0' c && leb c b'9'

abbrev pub date_codes : List ℕ → Bool
date_codes (a ∷ b ∷ c ∷ d ∷ e ∷ f ∷ g ∷ h ∷ i ∷ j ∷ []) =
    is_digit a
    && is_digit b
    && is_digit c
    && is_digit d
    && e == b'-'
    && is_digit f
    && is_digit g
    && h == b'-'
    && is_digit i
    && is_digit j
date_codes _ = false

-- /^\d{4}-\d{2}-\d{2}$/.test(s)
unfoldable pub is_date : String → Bool
is_date s = date_codes (codes s)

to_lower-mail : to_lower (trim "  Sam@Fund.ORG\n") ≡ "sam@fund.org"
unfolding to_lower trim
to_lower-mail = refl

is_date-examples : (is_date "2026-07-09" ≡ true) × (is_date "2026-7-09" ≡ false)
unfolding is_date
is_date-examples = (refl, refl)
