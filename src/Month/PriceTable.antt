-- ===== src/Month/PriceTable.antt =====
-- The models of a price table and the model that a price is found for.
use portfolio_manager.Base.{
  ℕ, ◌≡◌, refl, String, false, some, [], ◌∷◌, All, Bool-cases, inl, inr, eq_iff, ok, >>=-eq-ok,
  ok-injective,
}
use mathlib.Core.Path.{subst}
use portfolio_manager.Base.Text.{◌=s=◌, trim, is_empty}
use portfolio_manager.Month.Pricing.{
  Rates, Table, Priced, version_unknown, model_unpriced, models_of, model_rates, model_alias,
  rates_of, some_or_throw, default_version, september_version, resolve_model_pricing,
}
use portfolio_manager.Month.Bound.{some_or_throw-ok}

some_table : {a b : Table} → some a ≡ some b → a ≡ b
some_table h = cc

some_rates : {a b : Rates} → some a ≡ some b → a ≡ b
some_rates h = cc

named_version : {v w : String} → v ≡ w → is_empty (trim w) ≡ false → is_empty (trim v) ≡ false
named_version e h = rw e h

module _ (P : String × Rates → Type 0) (every : (a b : ℕ) → All P (model_rates a b)) where
  -- What a price was resolved from.
  pub record ResolvedFrom (model version : String) (p : Priced) : Type 0 where
    pub table : Table
    pub prices : Rates
    pub has_table : models_of version ≡ some table
    pub has_prices : rates_of (model_alias (trim model)) table ≡ some prices
    pub result : record { canonical_model = model_alias (trim model); model_prices = prices } ≡ p
    pub holds : P (model_alias (trim model), prices)
    pub version_given : is_empty (trim version) ≡ false

  rates_of-All :
      (m : String) (table : Table) {r : Rates} → All P table → rates_of m table ≡ some r → P (m, r)
  unfolding rates_of
  rates_of-All m [] h e = cc
  rates_of-All m ((name, r) ∷ xs) h e = elim (Bool-cases (name =s= m)) [
    | inl k ↦
        let g = rw k at e in
        subst (λ x. P (m, x)) (some_rates g) (subst (λ n. P (n, r)) ((eq_iff name m).0 k) h.0)
    | inr k ↦ rates_of-All m xs h.1 (rw k at e)
  ]

  models_of-All :
      (version : String) {table : Table}
      → models_of version ≡ some table
      → All P table × (is_empty (trim version) ≡ false)
  unfolding models_of trim
  models_of-All version h = elim (Bool-cases (version =s= default_version)) [
    | inl e ↦
        let g = rw e at h in
        (
          subst (All P) (some_table g) (every 2 10),
          named_version ((eq_iff version default_version).0 e) refl,
        )
    | inr e ↦ elim (Bool-cases (version =s= september_version)) [
      | inl f ↦
          let g = rw (e, f) at h in
          (
            subst (All P) (some_table g) (every 3 15),
            named_version ((eq_iff version september_version).0 f) refl,
          )
      | inr f ↦ let g = rw (e, f) at h in cc g
    ]
  ]

  pub resolve-ResolvedFrom :
      (model version : String) {p : Priced}
      → resolve_model_pricing model version ≡ ok p
      → ResolvedFrom model version p
  unfolding resolve_model_pricing
  resolve-ResolvedFrom model version h =
      let table = >>=-eq-ok (some_or_throw (models_of version) version_unknown) _ h in
      let prices =
        >>=-eq-ok (some_or_throw (rates_of (model_alias (trim model)) table.0) model_unpriced) _
          table.2 in
      let has_table = some_or_throw-ok (models_of version) version_unknown table.1 in
      let has_prices = some_or_throw-ok _ model_unpriced prices.1 in
      let m = models_of-All version has_table in
      record {
        table = table.0;
        prices = prices.0;
        has_table = has_table;
        has_prices = has_prices;
        result = ok-injective prices.2;
        holds = rates_of-All (model_alias (trim model)) table.0 m.0 has_prices;
        version_given = m.1;
      }
