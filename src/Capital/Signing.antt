-- ===== src/Capital/Signing.antt =====
-- lib/investor-ledger.js: entries of the investor ledger and their signatures. SHA-256 over the
-- canonical JSON text, and Node's decoding of a hexadecimal text, are parameters.
use Prim.Native.String.{◌++◌ as str_append}
use portfolio_manager.Base.{
  ℕ, ◌+◌, String, Bool, true, false, ◌&&◌, Option, none, some, List, [], ◌∷◌, if◌then◌else◌, ◌==◌,
  Outcome, ok, thrown,
}
use portfolio_manager.Base.Int.{ℤ}
use portfolio_manager.Base.Text.{trim, to_lower, is_empty}

unfoldable pub normalize_email : String → String
normalize_email email = to_lower (trim email)

unfoldable pub default_investor_id : String → String
default_investor_id email = str_append "email:" (normalize_email email)

pub record Entry : Type 0 where
  pub date : String
  pub email : String
  pub name : String
  pub entry_type : String
  pub amount : ℤ
  pub nav_per_unit : Option ℤ
  pub units : ℤ
  pub investor_id : String
  pub entry_id : Option String
  pub row_hmac : Option String

-- The signed fields of an entry; its email is normalised.
pub record Canonical : Type 0 where
  pub amount : ℤ
  pub date : String
  pub email : String
  pub entry_id : Option String
  pub investor_id : String
  pub name : String
  pub nav_per_unit : Option ℤ
  pub entry_type : String
  pub units : ℤ

unfoldable pub canonical : Entry → Canonical
canonical e = record {
  amount = e.amount;
  date = e.date;
  email = normalize_email e.email;
  entry_id = e.entry_id;
  investor_id = e.investor_id;
  name = e.name;
  nav_per_unit = e.nav_per_unit;
  entry_type = e.entry_type;
  units = e.units;
}

pub data LedgerError : Type 0 where
  amount_not_positive seed_owner_required existing_nav_required signed_nav_required
        pricing_nav_missing :
      LedgerError
  identity_conflict units_short : LedgerError
  integrity_failed : ℕ → ℕ → LedgerError

-- The two operations of Node's crypto and buffer modules.
pub record Crypto : Type 0 where
  pub digest : String → Canonical → String
  pub decode_hex : String → List ℕ

abbrev pub bytes_equal : List ℕ → List ℕ → Bool
bytes_equal [] [] = true
bytes_equal (a ∷ as') (b ∷ bs) = a == b && bytes_equal as' bs
bytes_equal _ _ = false

abbrev pub some_bytes : List ℕ → Bool
some_bytes [] = false
some_bytes (a ∷ as') = true

-- An empty or missing secret is falsy.
abbrev pub given_text : Option String → Option String
given_text none = none
given_text (some s) = if is_empty s then none else some s

module _ (crypto : Crypto) where
  unfoldable pub compute_investor_ledger_hmac : Entry → Option String → Option String
  compute_investor_ledger_hmac e secret = elim (given_text secret) [
    | none ↦ none
    | some s ↦ some (crypto.digest s (canonical e))
  ]

  -- `provided.length === expected.length && provided.length > 0 && timingSafeEqual(...)`
  unfoldable pub hmac_matches : String → String → Bool
  hmac_matches expected provided =
      some_bytes (crypto.decode_hex provided)
      && bytes_equal (crypto.decode_hex provided) (crypto.decode_hex expected)

  unfoldable pub investor_ledger_entry_hmac_matches : Entry → Option String → Bool
  investor_ledger_entry_hmac_matches e secret = elim (given_text e.row_hmac) [
    | none ↦ false
    | some provided ↦ elim (compute_investor_ledger_hmac e secret) [
      | none ↦ false
      | some expected ↦ hmac_matches expected provided
    ]
  ]

  -- The pair of counts of `assertInvestorLedgerEntries`: unsigned and mismatched rows.
  unfoldable pub count_failures : String → List Entry → ℕ × ℕ
  count_failures secret [] = (0, 0)
  count_failures secret (e ∷ es) =
      let rest = count_failures secret es in
      elim (given_text e.row_hmac) [
        | none ↦ (rest.0 + 1, rest.1)
        | some provided ↦
            if hmac_matches (crypto.digest secret (canonical e)) provided
            then rest
            else (rest.0, rest.1 + 1)
      ]

  -- With the secret present; without one `Buffer.from(null)` throws.
  unfoldable pub assert_investor_ledger_entries :
      List Entry → String → Outcome LedgerError (List Entry)
  assert_investor_ledger_entries entries secret =
      let failures = count_failures secret entries in
      if failures.0 == 0 && failures.1 == 0
      then ok entries
      else thrown (integrity_failed failures.0 failures.1)
