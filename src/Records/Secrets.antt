-- ===== src/Records/Secrets.antt =====
-- lib/operational-ledger.js: the secrets, and the signature of a row. The digest of the fields of a kind of row
-- under a secret, as a hexadecimal text, and Node's decoding of one, are parameters.
use portfolio_manager.Base.{
  ℕ, String, Bool, false, not, ◌&&◌, Option, none, some, List, [], ◌∷◌, ◌++◌, map, filter, any,
  Outcome, ok, thrown,
}
use portfolio_manager.Base.Text.{◌=s=◌, trim}
use portfolio_manager.Capital.Signing.{bytes_equal, some_bytes, given_text}

-- Environment variables that are not set are none.
pub record SecretEnv : Type 0 where
  pub operational : Option String
  pub legacy : List String
  pub investor : Option String
  pub audit : Option String

-- `value?.trim()`, where that is not empty
unfoldable pub trimmed? : Option String → Option String
trimmed? none = none
trimmed? (some s) = given_text (some (trim s))

abbrev pub as_list : {A : Type 0} → Option A → List A
as_list none = []
as_list (some a) = a ∷ []

pub data SecretError : Type 0 where
  secret_required : SecretError
  integrity_failed : ℕ → ℕ → SecretError

-- `getOperationalLedgerSecret`
unfoldable pub get_operational_ledger_secret : SecretEnv → Outcome SecretError String
unfolding trimmed?
get_operational_ledger_secret env = elim (trimmed? env.operational) [
  | some s ↦ ok s
  | none ↦ elim (trimmed? env.investor) [
    | some s ↦ ok s
    | none ↦ elim (trimmed? env.audit) [ some s ↦ ok s | none ↦ thrown secret_required ]
  ]
]

-- `.map((value) => value.trim()).filter(Boolean)`
unfoldable pub trimmed_all : List (Option String) → List String
unfolding trimmed?
trimmed_all [] = []
trimmed_all (x ∷ xs) = as_list (trimmed? x) ++ trimmed_all xs

-- `new Set(values)`: the first of equal texts
unfoldable pub distinct : List String → List String
distinct [] = []
distinct (x ∷ xs) = x ∷ filter (λ y. not (y =s= x)) (distinct xs)

-- The dedicated secret, the legacy ones, and the others' only where there is no dedicated secret. The list of legacy
-- secrets is split at its commas.
unfoldable pub get_operational_ledger_verification_secrets : SecretEnv → List String
unfolding distinct trimmed_all trimmed?
get_operational_ledger_verification_secrets env = elim (trimmed? env.operational) [
  | some s ↦ distinct (s ∷ trimmed_all (map some env.legacy))
  | none ↦ distinct (trimmed_all (map some env.legacy ++ (env.investor ∷ env.audit ∷ [])))
]

-- `verificationCandidates`
unfoldable pub verification_candidates :
    SecretEnv → Option String → Outcome SecretError (List String)
unfolding distinct get_operational_ledger_verification_secrets
verification_candidates env secret =
    let candidates =
      distinct (as_list (given_text secret) ++ get_operational_ledger_verification_secrets env) in
    elim candidates [ [] ↦ thrown secret_required | (s ∷ ss) ↦ ok (s ∷ ss) ]

-- A row of a kind: the text of its signed fields, and its signature.
pub record SignedRow : Type 0 where
  pub fields : String
  pub row_hmac : Option String

-- The two operations of Node's crypto and buffer modules.
pub record RowCrypto : Type 0 where
  pub digest : String → String → String
  pub decode_hex : String → List ℕ

module _ (crypto : RowCrypto) where
  -- `hmacsEqual(expectedHex, providedHex)`
  unfoldable pub hmacs_equal : String → String → Bool
  hmacs_equal expected provided =
      some_bytes (crypto.decode_hex provided)
      && bytes_equal (crypto.decode_hex provided) (crypto.decode_hex expected)

  -- `operationalLedgerEntryHmacMatches`; where no secret is configured it throws.
  unfoldable pub operational_ledger_entry_hmac_matches :
      SecretEnv → Option String → SignedRow → Outcome SecretError Bool
  unfolding hmacs_equal verification_candidates
  operational_ledger_entry_hmac_matches env secret r = elim (given_text r.row_hmac) [
    | none ↦ ok false
    | some provided ↦ elim (verification_candidates env secret) [
      | thrown e ↦ thrown e
      | ok candidates ↦ ok (any (λ c. hmacs_equal (crypto.digest c r.fields) provided) candidates)
    ]
  ]

  -- `signOperationalLedgerEntry`
  unfoldable pub sign_operational_ledger_entry : String → SignedRow → SignedRow
  sign_operational_ledger_entry secret r = record r {
    row_hmac = some (crypto.digest secret r.fields);
  }

  -- The test of a row without a secret of the caller's, `false` where that throws.
  abbrev pub env_matches : SecretEnv → SignedRow → Bool
  env_matches env r = elim (operational_ledger_entry_hmac_matches env none r) [
    | ok b ↦ b
    | thrown e ↦ false
  ]
