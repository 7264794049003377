-- ===== src/Records/Verify.antt =====
-- lib/operational-ledger.js and lib/ledger-verify.js: the verification of a list of rows, by a test of one
-- row's signature.
use portfolio_manager.Base.{
  ℕ, suc, ◌+◌, ◌≡◌, refl, ap, Bool, true, false, not, ◌&&◌, ◌==◌, is_some, List, [], ◌∷◌, length,
  if◌then◌else◌, arith, Bool-cases, inl, inr, All, Outcome, ok, thrown,
}
use portfolio_manager.Capital.Signing.{given_text}
use portfolio_manager.Records.Secrets.{SignedRow, SecretError, integrity_failed}

pub record Verified : Type 0 where
  pub total_rows : ℕ
  pub verified : ℕ
  pub unsigned : List SignedRow
  pub mismatched : List SignedRow

module _ (signature_matches : SignedRow → Bool) where
  -- `verifyOperationalLedgerEntries`, `verifyInvestorLedger` and `verifyAuditRows` for rows that are objects
  unfoldable pub verify_entries : List SignedRow → Verified
  verify_entries [] = record { total_rows = 0; verified = 0; unsigned = []; mismatched = [] }
  verify_entries (r ∷ rs) =
      let rest = verify_entries rs in
      let counted = record rest { total_rows = suc rest.total_rows } in
      if not (is_some (given_text r.row_hmac))
      then record counted { unsigned = r ∷ rest.unsigned }
      else if signature_matches r
      then record counted { verified = suc rest.verified }
      else record counted { mismatched = r ∷ rest.mismatched }

  -- `assertOperationalLedgerEntries`
  unfoldable pub assert_entries : List SignedRow → Outcome SecretError (List SignedRow)
  unfolding verify_entries
  assert_entries rs =
      let v = verify_entries rs in
      if length v.unsigned == 0 && length v.mismatched == 0
      then ok rs
      else thrown (integrity_failed (length v.unsigned) (length v.mismatched))

  -- A row that is signed and whose signature is right.
  abbrev pub Sound : SignedRow → Type 0
  Sound r = (is_some (given_text r.row_hmac) ≡ true) × (signature_matches r ≡ true)

  -- A row whose signature is there, and wrong.
  abbrev pub Forged : SignedRow → Type 0
  Forged r = (is_some (given_text r.row_hmac) ≡ true) × (signature_matches r ≡ false)

  pub record Sorted (rs : List SignedRow) (v : Verified) : Type 0 where
    pub counts : v.total_rows ≡ v.verified + length v.unsigned + length v.mismatched
    pub all_rows : v.total_rows ≡ length rs
    pub no_signature : All (λ r. is_some (given_text r.row_hmac) ≡ false) v.unsigned
    pub wrong_signature : All Forged v.mismatched

  sort_entry-Sorted :
      (r : SignedRow) (rs : List SignedRow)
      → Sorted rs (verify_entries rs)
      → Sorted (r ∷ rs) (verify_entries (r ∷ rs))
  unfolding verify_entries
  sort_entry-Sorted r rs s = elim (Bool-cases (is_some (given_text r.row_hmac))) [
    | inr u ↦ rw u (record {
      counts = omega (arith, s.counts);
      all_rows = ap suc s.all_rows;
      no_signature = (u, s.no_signature);
      wrong_signature = s.wrong_signature;
    })
    | inl g ↦ elim (Bool-cases (signature_matches r)) [
      | inl m ↦
          rw (g, m)
            (record {
              counts = omega (arith, s.counts);
              all_rows = ap suc s.all_rows;
              no_signature = s.no_signature;
              wrong_signature = s.wrong_signature;
            })
      | inr m ↦
          rw (g, m)
            (record {
              counts = omega (arith, s.counts);
              all_rows = ap suc s.all_rows;
              no_signature = s.no_signature;
              wrong_signature = ((g, m), s.wrong_signature);
            })
    ]
  ]

  -- The counts of a verification add up to the rows; the rows it calls unsigned have no signature, and those it calls mismatched
  -- have one that is wrong.
  pub verify_entries-Sorted : (rs : List SignedRow) → Sorted rs (verify_entries rs)
  unfolding verify_entries
  verify_entries-Sorted [] = record {
    counts = refl;
    all_rows = refl;
    no_signature = tt;
    wrong_signature = tt;
  }
  verify_entries-Sorted (r ∷ rs) = sort_entry-Sorted r rs (verify_entries-Sorted rs)

  all-Sound :
      (rs : List SignedRow)
      → All Sound rs
      → ((verify_entries rs).unsigned ≡ []) × ((verify_entries rs).mismatched ≡ [])
  unfolding verify_entries
  all-Sound [] h = (refl, refl)
  all-Sound (r ∷ rs) h = rw (h.0.0, h.0.1) (all-Sound rs h.1)

  -- Rows that are all signed and right pass.
  pub assert_entries-ok : (rs : List SignedRow) → All Sound rs → assert_entries rs ≡ ok rs
  unfolding assert_entries
  assert_entries-ok rs h = rw ((all-Sound rs h).0, (all-Sound rs h).1) refl
