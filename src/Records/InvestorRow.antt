-- ===== src/Records/InvestorRow.antt =====
-- lib/investor-ledger.js: the row of an entry, and the entry that is read from a row.
use portfolio_manager.Base.{Option, none, some, List, [], ◌∷◌, or_else, String}
use portfolio_manager.Base.Int.{ℤ, pos}
use portfolio_manager.Base.Money.{Num}
use portfolio_manager.Capital.Signing.{Entry, normalize_email, default_investor_id}
use portfolio_manager.Records.Cells.{
  Cell, blank, text, number, Conversions, cell_at, filled, truthy, number_in, string_in,
}

-- A missing number leaves its cell blank.
abbrev pub number_cell : Option ℤ → Cell
number_cell none = blank
number_cell (some n) = number (some n)

abbrev pub text_or_empty : Option String → Cell
text_or_empty none = text ""
text_or_empty (some s) = text s

-- `investorLedgerRow`
unfoldable pub investor_ledger_row : Entry → List Cell
investor_ledger_row e =
    text e.date
    ∷ text e.email
    ∷ text e.name
    ∷ text e.entry_type
    ∷ number (some e.amount)
    ∷ number_cell e.nav_per_unit
    ∷ number (some e.units)
    ∷ text e.investor_id
    ∷ text_or_empty e.entry_id
    ∷ text_or_empty e.row_hmac
    ∷ []

-- An entry as it is read; `Number` may give a value that is not finite.
pub record ReadEntry : Type 0 where
  pub date : Cell
  pub email : String
  pub name : Cell
  pub entry_type : Cell
  pub amount : Num
  pub nav_per_unit : Option Num
  pub units : Num
  pub investor_id : Cell
  pub entry_id : Option Cell
  pub row_hmac : Option Cell

-- `cell ?? ""`
abbrev pub or_empty : Cell → Cell
or_empty c = or_else (filled c) (text "")

module _ (conv : Conversions) where
  -- `cell != null && cell !== "" ? Number(cell) : 0`, for what is in the cell
  abbrev pub number_or_zero : Option Cell → Num
  number_or_zero none = some (pos 0)
  number_or_zero (some c) = number_in conv c

  -- `cell != null && cell !== "" ? Number(cell) : null`
  abbrev pub number_or_null : Option Cell → Option Num
  number_or_null none = none
  number_or_null (some c) = some (number_in conv c)

  -- `parseInvestorLedgerRow`
  unfoldable pub parse_investor_ledger_row : List Cell → ReadEntry
  unfolding cell_at
  parse_investor_ledger_row row =
      let email = normalize_email (string_in conv (or_empty (cell_at 1 row))) in
      record {
        date = cell_at 0 row;
        email = email;
        name = or_empty (cell_at 2 row);
        entry_type = or_empty (cell_at 3 row);
        amount = number_or_zero (filled (cell_at 4 row));
        nav_per_unit = number_or_null (filled (cell_at 5 row));
        units = number_or_zero (filled (cell_at 6 row));
        investor_id = or_else (truthy (cell_at 7 row)) (text (default_investor_id email));
        entry_id = truthy (cell_at 8 row);
        row_hmac = truthy (cell_at 9 row);
      }
