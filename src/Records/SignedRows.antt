-- ===== src/Records/SignedRows.antt =====
-- Rows that are signed with the secret of an environment (lib/operational-ledger.js).
use portfolio_manager.Base.{
  ℕ, ◌≡◌, refl, sym, ap, ◌∙◌, String, Bool, true, false, not, Option, none, some, is_some, List, [],
  ◌∷◌, ◌++◌, map, filter, any, arith, All, Bool-cases, Option-cases, List-cases, inl, inr, eq_iff,
  ok, thrown, ok-injective,
}
use portfolio_manager.Base.Text.{◌=s=◌, is_empty}
use portfolio_manager.Capital.Signing.{bytes_equal, some_bytes, given_text}
use portfolio_manager.Records.Secrets.{
  SecretEnv, SignedRow, RowCrypto, distinct, trimmed?, trimmed_all, as_list,
  get_operational_ledger_secret, get_operational_ledger_verification_secrets, secret_required,
  verification_candidates, hmacs_equal, operational_ledger_entry_hmac_matches,
  sign_operational_ledger_entry, env_matches,
}
use portfolio_manager.Records.Verify.{assert_entries, assert_entries-ok}

bytes_equal_refl : (bs : List ℕ) → bytes_equal bs bs ≡ true
bytes_equal_refl [] = refl
bytes_equal_refl (b ∷ bs) = ground (arith, bytes_equal_refl bs)

any-filter :
    (p : String → Bool) (x : String) (ys : List String)
    → p x ≡ false
    → any p ys ≡ true
    → any p (filter (λ y. not (y =s= x)) ys) ≡ true
any-filter p x [] n h = h
any-filter p x (y ∷ ys) n h = elim (Bool-cases (y =s= x)) [
  | inl e ↦
      let same : y ≡ x = (eq_iff y x).0 e in
      let k : p y ≡ false = ap p same ∙ n in rw e (any-filter p x ys n (rw k at h))
  | inr e ↦ elim (Bool-cases (p y)) [
    | inl k ↦ rw (e, k) refl
    | inr k ↦ rw (e, k) (any-filter p x ys n (rw k at h))
  ]
]

-- To leave out repeated texts does not change what some text of the list passes.
any-distinct : (p : String → Bool) (xs : List String) → any p xs ≡ true → any p (distinct xs) ≡ true
unfolding distinct
any-distinct p [] h = h
any-distinct p (x ∷ xs) h = elim (Bool-cases (p x)) [
  | inl k ↦ rw k refl
  | inr k ↦ rw k (any-filter p x (distinct xs) k (any-distinct p xs (rw k at h)))
]

any-append_right :
    (p : String → Bool) (xs ys : List String) → any p ys ≡ true → any p (xs ++ ys) ≡ true
any-append_right p [] ys h = h
any-append_right p (x ∷ xs) ys h = elim (Bool-cases (p x)) [
  | inl k ↦ rw k refl
  | inr k ↦ rw k (any-append_right p xs ys h)
]

any-trimmed_right :
    (p : String → Bool) (xs ys : List (Option String))
    → any p (trimmed_all ys) ≡ true
    → any p (trimmed_all (xs ++ ys)) ≡ true
unfolding trimmed_all
any-trimmed_right p [] ys h = h
any-trimmed_right p (x ∷ xs) ys h =
    any-append_right p (as_list (trimmed? x)) (trimmed_all (xs ++ ys)) (any-trimmed_right p xs ys h)

any-head :
    (p : String → Bool) (s t : String) (ts : List String)
    → s ≡ t
    → p s ≡ true
    → any p (distinct (t ∷ ts)) ≡ true
any-head p s t ts e k = any-distinct p (t ∷ ts) (let q : p t ≡ true = rw (sym e) k in rw q refl)

-- The first secret that is set, of the investors' and the audit's, is in their list.
fallback-any :
    (p : String → Bool) (i a : Option String) (s : String)
    → elim (trimmed? i) [
      | some u ↦ ok u
      | none ↦ elim (trimmed? a) [ some u ↦ ok u | none ↦ thrown secret_required ]
    ]
      ≡ ok s
    → p s ≡ true
    → any p (trimmed_all (i ∷ a ∷ [])) ≡ true
unfolding trimmed_all
fallback-any p i a s h k = elim (Option-cases (trimmed? i)) [
  | inr (u, e) ↦ let g = rw e at h in let q : p u ≡ true = rw (ok-injective g) k in rw (e, q) refl
  | inl e ↦ elim (Option-cases (trimmed? a)) [
    | inr (u, f) ↦
        let g = rw (e, f) at h in let q : p u ≡ true = rw (ok-injective g) k in rw (e, f, q) refl
    | inl f ↦ let g = rw (e, f) at h in cc g
  ]
]

-- The secret that signs is one of those that verify.
primary-any :
    (p : String → Bool) (env : SecretEnv) (s : String)
    → get_operational_ledger_secret env ≡ ok s
    → p s ≡ true
    → any p (get_operational_ledger_verification_secrets env) ≡ true
unfolding get_operational_ledger_secret get_operational_ledger_verification_secrets
primary-any p env s h k = elim (Option-cases (trimmed? env.operational)) [
  | inr (u, e) ↦
      let g = rw (e, get_operational_ledger_secret) at h in
      rw (e, get_operational_ledger_verification_secrets)
        (any-head p s u (trimmed_all (map some env.legacy)) (sym (ok-injective g)) k)
  | inl e ↦
      rw (e, get_operational_ledger_verification_secrets)
        (any-distinct p _ (
          any-trimmed_right p (map some env.legacy) (env.investor ∷ env.audit ∷ []) (
            fallback-any p env.investor env.audit s (rw (e, get_operational_ledger_secret) at h)
              k)))
]

-- The digests decode to some bytes, and are no empty text, as those of SHA-256 are.
pub record HasDigests (crypto : RowCrypto) : Type 0 where
  pub some_digest : (s f : String) → is_empty (crypto.digest s f) ≡ false
  pub some_digest_bytes : (s f : String) → some_bytes (crypto.decode_hex (crypto.digest s f)) ≡ true

module _ (crypto : RowCrypto) (digests : HasDigests crypto) where
  own_digest : (s f : String) → hmacs_equal crypto (crypto.digest s f) (crypto.digest s f) ≡ true
  unfolding hmacs_equal
  own_digest s f =
      rw (digests.some_digest_bytes s f, bytes_equal_refl (crypto.decode_hex (crypto.digest s f)))
        refl

  candidates-any :
      (p : String → Bool) (env : SecretEnv)
      → any p (get_operational_ledger_verification_secrets env) ≡ true
      → (cs : List String) × (verification_candidates env none ≡ ok cs) × (any p cs ≡ true)
  unfolding verification_candidates
  candidates-any p env h =
      let k = any-distinct p (get_operational_ledger_verification_secrets env) h in
      elim (List-cases (distinct (get_operational_ledger_verification_secrets env))) [
        | inl e ↦ let g = rw e at k in cc g
        | inr (c, (cs, e)) ↦ (c ∷ cs, rw (e, verification_candidates) refl, rw e at k)
      ]

  signed-matches :
      (env : SecretEnv) (s : String) (r : SignedRow)
      → get_operational_ledger_secret env ≡ ok s
      → operational_ledger_entry_hmac_matches crypto env none
          (sign_operational_ledger_entry crypto s r)
        ≡ ok true
  unfolding operational_ledger_entry_hmac_matches sign_operational_ledger_entry
  signed-matches env s r h =
      let p : String → Bool =
        λ c. hmacs_equal crypto (crypto.digest c r.fields) (crypto.digest s r.fields) in
      let c = candidates-any p env (primary-any p env s h (own_digest s r.fields)) in
      rw (operational_ledger_entry_hmac_matches, digests.some_digest s r.fields, c.1, c.2) refl

  signed_text :
      (s : String) (r : SignedRow)
      → is_some (given_text (sign_operational_ledger_entry crypto s r).row_hmac) ≡ true
  unfolding sign_operational_ledger_entry
  signed_text s r = rw (digests.some_digest s r.fields) refl

  signed-All :
      (env : SecretEnv) (s : String) (rs : List SignedRow)
      → get_operational_ledger_secret env ≡ ok s
      → All
          (λ r. (is_some (given_text r.row_hmac) ≡ true) × (env_matches crypto env r ≡ true))
          (map (sign_operational_ledger_entry crypto s) rs)
  signed-All env s [] h = tt
  signed-All env s (r ∷ rs) h =
      ((signed_text s r, rw (env_matches, signed-matches env s r h) refl), signed-All env s rs h)

  -- Rows that are signed with the secret of an environment pass its verification, whether that secret is the dedicated one or another's, when
  -- digests are texts that decode to some bytes.
  pub signed-assert_entries :
      (env : SecretEnv) (s : String) (rs : List SignedRow)
      → get_operational_ledger_secret env ≡ ok s
      → let signed = map (sign_operational_ledger_entry crypto s) rs in
        assert_entries (env_matches crypto env) signed ≡ ok signed
  signed-assert_entries env s rs h =
      assert_entries-ok (env_matches crypto env) (map (sign_operational_ledger_entry crypto s) rs)
        (signed-All env s rs h)
