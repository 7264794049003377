-- ===== src/Records/Cells.antt =====
-- The cells of a row that the sheet returns. The two conversions of the language are parameters.
use portfolio_manager.Base.{
  ℕ, zero, suc, ◌≡◌, refl, Option, none, some, List, [], ◌∷◌, ◌++◌, All, if◌then◌else◌, String,
}
use portfolio_manager.Base.Int.{pos, eqb_ℤ}
use portfolio_manager.Base.Money.{Num}
use portfolio_manager.Base.Text.{is_empty}

-- A missing cell, a text, and a number, which may be one that is not finite.
pub data Cell : Type 0 where
  blank : Cell
  text : String → Cell
  number : Num → Cell

-- `Number(text)` and `String(number)`
pub record Conversions : Type 0 where
  pub number_of : String → Num
  pub text_of : Num → String

-- `row[i]`
unfoldable pub cell_at : ℕ → List Cell → Cell
cell_at i [] = blank
cell_at zero (c ∷ cs) = c
cell_at (suc i) (c ∷ cs) = cell_at i cs

-- `cell != null && cell !== ""`, with the cell
unfoldable pub filled : Cell → Option Cell
filled blank = none
filled (text s) = if is_empty s then none else some (text s)
filled (number n) = some (number n)

-- `cell || null`: a zero and NaN are false too.
unfoldable pub truthy : Cell → Option Cell
truthy blank = none
truthy (text s) = if is_empty s then none else some (text s)
truthy (number none) = none
truthy (number (some n)) = if eqb_ℤ n (pos 0) then none else some (number (some n))

module _ (conv : Conversions) where
  -- `Number(cell)` for a cell that is filled
  unfoldable pub number_in : Cell → Num
  number_in blank = none
  number_in (text s) = conv.number_of s
  number_in (number n) = n

  -- `String(cell ?? "")`
  unfoldable pub string_in : Cell → String
  string_in blank = ""
  string_in (text s) = s
  string_in (number n) = conv.text_of n

-- A cell at the end of a row that the sheet may leave out.
abbrev pub Vacant : Cell → Type 0
Vacant c = filled c ≡ none

Vacant-at : (i : ℕ) (cs : List Cell) → All Vacant cs → filled (cell_at i cs) ≡ none
unfolding cell_at filled
Vacant-at i [] h = refl
Vacant-at zero (c ∷ cs) h = h.0
Vacant-at (suc i) (c ∷ cs) h = Vacant-at i cs h.1

-- What is in a cell does not depend on vacant cells at the end.
pub filled-append :
    (i : ℕ) (cs ds : List Cell)
    → All Vacant ds
    → filled (cell_at i (cs ++ ds)) ≡ filled (cell_at i cs)
unfolding cell_at filled
filled-append i [] ds h = Vacant-at i ds h
filled-append zero (c ∷ cs) ds h = refl
filled-append (suc i) (c ∷ cs) ds h = filled-append i cs ds h
