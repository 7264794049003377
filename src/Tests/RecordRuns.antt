-- ===== src/Tests/RecordRuns.antt =====
-- Rows of the sheet and their signatures on small inputs.
use Prim.Native.String.{String, ◌++◌ as str_append}
use portfolio_manager.Base.{◌≡◌, refl, none, some, List, [], ◌∷◌, ◌++◌, ok, map, All}
use portfolio_manager.Base.Money.{whole}
use portfolio_manager.Base.Text.{trim, trim, to_lower, codes}
use portfolio_manager.Capital.Signing.{normalize_email, Entry}
use portfolio_manager.Records.Cells.{filled, Cell, text, number, Conversions, Vacant}
use portfolio_manager.Records.InvestorRow.{investor_ledger_row, parse_investor_ledger_row}
use portfolio_manager.Records.InvestorRoundTrip.{Complete, as_read, parse-row}
use portfolio_manager.Records.Secrets.{
  env_matches, SecretEnv, SignedRow, RowCrypto, get_operational_ledger_secret,
  sign_operational_ledger_entry,
}
use portfolio_manager.Records.Verify.{assert_entries}
use portfolio_manager.Records.SignedRows.{HasDigests, signed-assert_entries}

abbrev unsigned_entry : Entry
unsigned_entry = record {
  date = "2026-07-09";
  email = "sam@fund.org";
  name = "Sam";
  entry_type = "Contribution";
  amount = whole 500;
  nav_per_unit = none;
  units = whole 500;
  investor_id = "email:sam@fund.org";
  entry_id = none;
  row_hmac = none;
}

abbrev conversions : Conversions
conversions = record { number_of = λ s. none; text_of = λ n. "0" }

-- The sheet leaves out the last two cells, which are empty texts.
abbrev read_cells : List Cell
read_cells =
    text "2026-07-09"
    ∷ text "sam@fund.org"
    ∷ text "Sam"
    ∷ text "Contribution"
    ∷ number (some (whole 500))
    ∷ Cell.blank
    ∷ number (some (whole 500))
    ∷ text "email:sam@fund.org"
    ∷ []

unsigned_entry-Complete : Complete unsigned_entry
unfolding normalize_email to_lower trim
unsigned_entry-Complete = record {
  dated = refl;
  normal = refl;
  identified = refl;
  entry_id_given = tt;
  hmac_given = tt;
}

last_cells-Vacant : All Vacant (text "" ∷ text "" ∷ [])
unfolding filled
last_cells-Vacant = (refl, (refl, tt))

same_cells : investor_ledger_row unsigned_entry ≡ read_cells ++ (text "" ∷ text "" ∷ [])
unfolding investor_ledger_row
same_cells = refl

parse-row_example : parse_investor_ledger_row conversions read_cells ≡ as_read unsigned_entry
parse-row_example =
    parse-row conversions unsigned_entry read_cells (text "" ∷ text "" ∷ []) unsigned_entry-Complete
      last_cells-Vacant same_cells

-- A digest that joins the secret and the fields, and a decoding that gives some bytes.
abbrev joined_text : RowCrypto
joined_text = record {
  digest = λ s f. String.◌∷◌ "d" (str_append s f);
  decode_hex = λ t. 1 ∷ codes t;
}

joined_text-HasDigests : HasDigests joined_text
joined_text-HasDigests = record { some_digest = λ s f. refl; some_digest_bytes = λ s f. refl }

abbrev audit_only : SecretEnv
audit_only = record { operational = some " "; legacy = []; investor = none; audit = some " key " }

audit_key : get_operational_ledger_secret audit_only ≡ ok "key"
unfolding get_operational_ledger_secret trim
audit_key = refl

abbrev two_rows : List SignedRow
two_rows =
    record { fields = "lot 1"; row_hmac = none }
    ∷ record { fields = "lot 2"; row_hmac = some "old" }
    ∷ []

signed-assert_entries_example :
    assert_entries
      (env_matches joined_text audit_only)
      (map (sign_operational_ledger_entry joined_text "key") two_rows)
    ≡ ok (map (sign_operational_ledger_entry joined_text "key") two_rows)
signed-assert_entries_example =
    signed-assert_entries joined_text joined_text-HasDigests audit_only "key" two_rows audit_key
