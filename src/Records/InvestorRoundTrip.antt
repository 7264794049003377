-- ===== src/Records/InvestorRoundTrip.antt =====
-- An entry that is written to the sheet and read again (lib/investor-ledger.js).
use mathlib.Core.Path.{subst}
use portfolio_manager.Base.{
  ℕ, ◌≡◌, refl, sym, ap, ◌∙◌, Option, none, some, List, [], ◌∷◌, ◌++◌, All, String, false,
  Bool-cases, inl, inr,
}
use portfolio_manager.Base.Int.{ℤ}
use portfolio_manager.Base.Money.{Num}
use portfolio_manager.Base.Text.{is_empty}
use portfolio_manager.Capital.Signing.{Entry, normalize_email}
use portfolio_manager.Records.Cells.{
  Cell, blank, text, number, Conversions, cell_at, filled, truthy, number_in, string_in, Vacant,
  filled-append,
}
use portfolio_manager.Records.InvestorRow.{
  ReadEntry, investor_ledger_row, parse_investor_ledger_row, number_cell, text_or_empty,
  number_or_null, or_empty,
}

-- The truth of a cell is that of its content.
truthy-filled : (c : Cell) → truthy c ≡ elim (filled c) [ none ↦ none | some d ↦ truthy d ]
unfolding truthy filled
truthy-filled blank = refl
truthy-filled (text s) = elim (Bool-cases (is_empty s)) [
  | inl e ↦ rw e refl
  | inr e ↦ rw (e, e) refl
]
truthy-filled (number none) = refl
truthy-filled (number (some n)) = refl

truthy-append :
    (i : ℕ) (cs ds : List Cell)
    → All Vacant ds
    → truthy (cell_at i (cs ++ ds)) ≡ truthy (cell_at i cs)
truthy-append i cs ds h =
    truthy-filled (cell_at i (cs ++ ds))
    ∙ ap (λ o. elim o [ none ↦ none | some d ↦ truthy d ]) (filled-append i cs ds h)
    ∙ sym (truthy-filled (cell_at i cs))

-- Vacant cells at the end of a row make no difference, but for the date.
parse-append :
    (conv : Conversions) (cs ds : List Cell)
    → All Vacant ds
    → parse_investor_ledger_row conv (cs ++ ds)
      ≡ record (parse_investor_ledger_row conv cs) { date = cell_at 0 (cs ++ ds) }
unfolding parse_investor_ledger_row
parse-append conv cs ds h =
    rw
      (
        filled-append 1 cs ds h,
        filled-append 2 cs ds h,
        filled-append 3 cs ds h,
        filled-append 4 cs ds h,
        filled-append 5 cs ds h,
        filled-append 6 cs ds h,
        truthy-append 7 cs ds h,
        truthy-append 8 cs ds h,
        truthy-append 9 cs ds h,
      )
      refl

filled-some : (c : Cell) {d : Cell} → filled c ≡ some d → c ≡ d
unfolding filled
filled-some blank h = cc
filled-some (text s) h = elim (Bool-cases (is_empty s)) [
  | inl e ↦ let k = rw e at h in cc k
  | inr e ↦ let k = rw e at h in cc k
]
filled-some (number n) h = cc

or_empty-text : (s : String) → or_empty (text s) ≡ text s
unfolding filled
or_empty-text String.[] = refl
or_empty-text (String.◌∷◌ c s) = refl

-- The entry as it is read: numbers that are finite, and texts.
abbrev pub as_read : Entry → ReadEntry
as_read e = record {
  date = text e.date;
  email = e.email;
  name = text e.name;
  entry_type = text e.entry_type;
  amount = some e.amount;
  nav_per_unit = elim e.nav_per_unit [ none ↦ none | some n ↦ some (some n) ];
  units = some e.units;
  investor_id = text e.investor_id;
  entry_id = elim e.entry_id [ none ↦ none | some s ↦ some (text s) ];
  row_hmac = elim e.row_hmac [ none ↦ none | some s ↦ some (text s) ];
}

abbrev pub texts : Option String → List String
texts none = []
texts (some s) = s ∷ []

-- What an entry that the code builds has: a date, a normalised email, an id, and no empty text where a text may be missing.
pub record Complete (e : Entry) : Type 0 where
  pub dated : is_empty e.date ≡ false
  pub normal : normalize_email e.email ≡ e.email
  pub identified : is_empty e.investor_id ≡ false
  pub entry_id_given : All (λ s. is_empty s ≡ false) (texts e.entry_id)
  pub hmac_given : All (λ s. is_empty s ≡ false) (texts e.row_hmac)

nav_read :
    (conv : Conversions) (o : Option ℤ)
    → number_or_null conv (filled (number_cell o)) ≡ elim o [ none ↦ none | some n ↦ some (some n) ]
unfolding filled number_in
nav_read conv none = refl
nav_read conv (some n) = refl

text_read :
    (o : Option String)
    → All (λ s. is_empty s ≡ false) (texts o)
    → truthy (text_or_empty o) ≡ elim o [ none ↦ none | some s ↦ some (text s) ]
unfolding truthy
text_read none h = refl
text_read (some s) h = rw h.0 refl

filled-number : (n : Num) → filled (number n) ≡ some (number n)
unfolding filled
filled-number n = refl

truthy-text : (s : String) → is_empty s ≡ false → truthy (text s) ≡ some (text s)
unfolding truthy
truthy-text s h = rw h refl

-- A whole row is read as its entry.
row-read :
    (conv : Conversions) (e : Entry)
    → Complete e
    → parse_investor_ledger_row conv (investor_ledger_row e) ≡ as_read e
unfolding parse_investor_ledger_row investor_ledger_row cell_at string_in number_in
row-read conv e c =
    rw
      (
        or_empty-text e.email,
        c.normal,
        or_empty-text e.name,
        or_empty-text e.entry_type,
        filled-number (some e.amount),
        nav_read conv e.nav_per_unit,
        filled-number (some e.units),
        truthy-text e.investor_id c.identified,
        text_read e.entry_id c.entry_id_given,
        text_read e.row_hmac c.hmac_given,
      )
      refl

first_cell : (e : Entry) → filled (cell_at 0 (investor_ledger_row e)) ≡ filled (text e.date)
unfolding cell_at investor_ledger_row
first_cell e = refl

date_read :
    (e : Entry) (read : List Cell)
    → is_empty e.date ≡ false
    → filled (cell_at 0 read) ≡ filled (text e.date)
    → cell_at 0 read ≡ text e.date
unfolding filled
date_read e read h k = filled-some (cell_at 0 read) (k ∙ (rw h refl))

abbrev redated : ReadEntry → Cell → ReadEntry
redated r d = record r { date = d }

redated_eq : (a b : ReadEntry) {c : Cell} (d : Cell) → redated a c ≡ b → redated a d ≡ redated b d
redated_eq a b d h = ap (λ r. redated r d) h

-- The row that is written of a complete entry is read as that entry, whatever the two conversions are, and also where the sheet leaves out vacant cells
-- at its end.
pub parse-row :
    (conv : Conversions) (e : Entry) (read rest : List Cell)
    → Complete e
    → All Vacant rest
    → investor_ledger_row e ≡ read ++ rest
    → parse_investor_ledger_row conv read ≡ as_read e
unfolding parse_investor_ledger_row
parse-row conv e read rest c vacant same =
    let full : parse_investor_ledger_row conv (read ++ rest) ≡ as_read e =
      subst (λ r. parse_investor_ledger_row conv r ≡ as_read e) same (row-read conv e c) in
    let date : cell_at 0 read ≡ text e.date = date_read e read c.dated (
      sym (filled-append 0 read rest vacant)
      ∙ ap (λ r. filled (cell_at 0 r)) (sym same)
      ∙ first_cell e) in
    redated_eq (parse_investor_ledger_row conv read) (as_read e) (cell_at 0 read)
      (sym (parse-append conv read rest vacant) ∙ full)
    ∙ ap (redated (as_read e)) date
