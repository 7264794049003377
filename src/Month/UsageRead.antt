-- ===== src/Month/UsageRead.antt =====
-- Reading the records that the code writes (lib/anthropic-usage.js).
use portfolio_manager.Base.{
  ℕ, ◌+◌, ◌%◌, ◌≡◌, refl, sym, ◌∙◌, String, true, false, ◌==◌, Option, none, some, List, [], ◌∷◌,
  All, or_else, arith, Bool-cases, Outcome-cases, inl, inr, ok, throw_if, >>=-eq-ok, passed,
  ok-injective,
}
use mathlib.Core.Path.{subst}
use portfolio_manager.Base.Text.{◌=s=◌, trim, is_empty, is_empty-trim_twice}
use portfolio_manager.Budget.Reservations.{round_usd}
use portfolio_manager.Month.Pricing.{
  Rates, Usage, Priced, model_rates, model_alias, some_or_throw, resolve_model_pricing, cost_at,
}
use portfolio_manager.Month.PriceTable.{resolve-ResolvedFrom}
use portfolio_manager.Month.Usage.{
  Extracted, RawUsage, V2Record, UsageInput, Repriced, Costed, costed, extract_usage,
  cache_creation_breakdown, number_or_zero, version_of_record, build_usage_record,
  validate_and_reprice_v2, same_amounts, role_missing, model_missing, Count,
}

-- A name that is its own canonical name, and no blank text.
abbrev CanonicalName : String → Type 0
CanonicalName m = (model_alias (trim m) ≡ m) × (is_empty (trim m) ≡ false)

abbrev ListedModel : String × Rates → Type 0
ListedModel e = CanonicalName e.0

table-CanonicalName : (a b : ℕ) → All ListedModel (model_rates a b)
unfolding model_rates model_alias trim
table-CanonicalName a b = (
  (refl, refl),
  (
    (refl, refl),
    (
      (refl, refl),
      (
        (refl, refl),
        ((refl, refl), ((refl, refl), ((refl, refl), ((refl, refl), ((refl, refl), tt))))),
      ),
    ),
  ),
)

-- A canonical name has the prices of the name that it was found by.
resolve-canonical :
    (model version : String) (p : Priced)
    → resolve_model_pricing model version ≡ ok p
    → (resolve_model_pricing p.canonical_model version ≡ ok p)
      × (is_empty (trim version) ≡ false)
      × (is_empty (trim p.canonical_model) ≡ false)
unfolding resolve_model_pricing some_or_throw
resolve-canonical model version p h =
    let r = resolve-ResolvedFrom ListedModel table-CanonicalName model version h in
    (
      subst (λ q. resolve_model_pricing q.canonical_model version ≡ ok q) r.result
          (rw (r.has_table, r.holds.0, r.has_prices) refl),
      r.version_given,
      subst (λ q. is_empty (trim q.canonical_model) ≡ false) r.result r.holds.1,
    )

-- A cost is a whole number of 1e-12 dollars.
abbrev pub OnGrid : ℕ → Type 0
OnGrid n = n % 100 ≡ 0

pub round_usd-OnGrid : (n : ℕ) → OnGrid (round_usd n)
unfolding round_usd
round_usd-OnGrid n = omega arith

pub round_usd-add : (a b : ℕ) → OnGrid a → OnGrid b → round_usd (a + b) ≡ a + b
unfolding round_usd
round_usd-add a b h k = omega (arith, h, k)

-- What is known of a usage that was extracted.
classes_sum :
    (details : Option (Count × Count)) (ttl : Option String) (n : ℕ) {c : ℕ × ℕ}
    → cache_creation_breakdown details ttl n ≡ ok c
    → c.0 + c.1 ≡ n
unfolding cache_creation_breakdown
classes_sum (some details) ttl n h =
    let five = >>=-eq-ok (number_or_zero details.0) _ h in
    let hour = >>=-eq-ok (number_or_zero details.1) _ five.2 in
    elim (Bool-cases (five.0 + hour.0 == n)) [
      | inl e ↦ let g = rw e at hour.2 in subst (λ c. c.0 + c.1 ≡ n) (ok-injective g) (ground arith)
      | inr e ↦ let g = rw e at hour.2 in cc g
    ]
classes_sum none ttl n h = elim (Bool-cases (n == 0)) [
  | inl e ↦ let g = rw e at h in subst (λ c. c.0 + c.1 ≡ n) (ok-injective g) (ground arith)
  | inr e ↦ elim (Bool-cases (or_else ttl "" =s= "5m")) [
    | inl f ↦ let g = rw (e, f) at h in subst (λ c. c.0 + c.1 ≡ n) (ok-injective g) (omega arith)
    | inr f ↦ elim (Bool-cases (or_else ttl "" =s= "1h")) [
      | inl k ↦
          let g = rw (e, f, k) at h in subst (λ c. c.0 + c.1 ≡ n) (ok-injective g) (omega arith)
      | inr k ↦ let g = rw (e, f, k) at h in cc g
    ]
  ]
]

record Adds (x : Extracted) : Type 0 where
  creation : x.usage.cache_creation_5m + x.usage.cache_creation_1h ≡ x.cache_creation_input_tokens
  in_total :
      x.total_input_tokens
      ≡ x.usage.input_tokens + x.cache_creation_input_tokens + x.usage.cache_read

extract_usage-Adds :
    (raw : RawUsage) (ttl : Option String) {x : Extracted} → extract_usage raw ttl ≡ ok x → Adds x
unfolding extract_usage
extract_usage-Adds raw ttl h =
    let input = >>=-eq-ok (number_or_zero raw.input_tokens) _ h in
    let output = >>=-eq-ok (number_or_zero raw.output_tokens) _ input.2 in
    let creation = >>=-eq-ok (number_or_zero raw.cache_creation_input_tokens) _ output.2 in
    let read = >>=-eq-ok (number_or_zero raw.cache_read_input_tokens) _ creation.2 in
    let classes = >>=-eq-ok (cache_creation_breakdown raw.cache_creation ttl creation.0) _ read.2 in
    subst Adds (ok-injective classes.2) (record {
      creation = classes_sum raw.cache_creation ttl creation.0 classes.1;
      in_total = refl;
    })

-- A cost that the canonical model has too.
record Stable (version : String) (u : Usage) (c : Costed) : Type 0 where
  again : costed c.canonical_model version u ≡ ok c
  version_given : is_empty (trim version) ≡ false
  model_given : is_empty (trim c.canonical_model) ≡ false
  on_grid : OnGrid c.cost

costed-again :
    (model version : String) (u : Usage) {c : Costed}
    → costed model version u ≡ ok c
    → Stable version u c
unfolding costed
costed-again model version u h = elim (Outcome-cases (resolve_model_pricing model version)) [
  | inr e ↦ let g = rw (e.1, costed) at h in cc g
  | inl e ↦
      let g = rw (e.1, costed) at h in
      let r = resolve-canonical model version e.0 e.1 in
      subst (Stable version u) (ok-injective g) (record {
        again = rw (costed, r.0) refl;
        version_given = r.1;
        model_given = r.2;
        on_grid = round_usd-OnGrid (cost_at e.0.model_prices u);
      })
]

same_ℕ : (n : ℕ) → (n == n) ≡ true
same_ℕ n = ground arith

same_amounts_refl : (xs : List ℕ) → same_amounts xs xs ≡ true
same_amounts_refl [] = refl
same_amounts_refl (x ∷ xs) = rw (same_ℕ x, same_amounts_refl xs) refl

eq_test : {a b : ℕ} → a ≡ b → (a == b) ≡ true
eq_test h = ground arith

-- A record that is read at its cost.
pub record ReadBack (rec : V2Record) : Type 0 where
  pub r : Repriced
  pub read : validate_and_reprice_v2 rec ≡ ok r
  pub same_cost : r.cost ≡ rec.estimated_cost
  pub on_grid : OnGrid rec.estimated_cost

validate-ReadBack :
    (rec : V2Record) (c : Costed)
    → is_empty (trim rec.pricing_version) ≡ false
    → is_empty (trim rec.model) ≡ false
    → is_empty (trim rec.role) ≡ false
    → rec.usage.cache_creation_5m + rec.usage.cache_creation_1h ≡ rec.cache_creation_input_tokens
    → rec.total_input_tokens
      ≡ rec.usage.input_tokens + rec.cache_creation_input_tokens + rec.usage.cache_read
    → costed rec.model rec.pricing_version rec.usage ≡ ok c
    → rec.estimated_cost ≡ c.cost
    → rec.cost_breakdown ≡ some c.breakdown
    → OnGrid c.cost
    → ReadBack rec
unfolding validate_and_reprice_v2
validate-ReadBack rec c v m r s t e k b g = record {
  r = record {
    cost = c.cost;
    model = c.canonical_model;
    role = trim rec.role;
    pricing_bucket = rec.pricing_version;
    is_legacy = false;
  };
  read = rw (v, m, r, eq_test s, eq_test t, e, eq_test k, b, same_amounts_refl c.breakdown) refl;
  same_cost = sym k;
  on_grid = rw k g;
}

pub build_usage_record-ReadBack :
    (i : UsageInput) (rec : V2Record) → build_usage_record i ≡ ok rec → ReadBack rec
unfolding build_usage_record
build_usage_record-ReadBack i rec h =
    let role = >>=-eq-ok (throw_if (is_empty (trim i.role)) role_missing) _ h in
    let model = >>=-eq-ok (throw_if (is_empty (trim i.model)) model_missing) _ role.2 in
    let x = >>=-eq-ok (extract_usage i.usage i.cache_write_ttl) _ model.2 in
    let version = >>=-eq-ok (version_of_record i) _ x.2 in
    let c = >>=-eq-ok (costed i.model version.0 x.0.usage) _ version.2 in
    let adds = extract_usage-Adds i.usage i.cache_write_ttl x.1 in
    let stable = costed-again i.model version.0 x.0.usage c.1 in
    let role_given : is_empty (trim (trim i.role)) ≡ false =
      is_empty-trim_twice i.role ∙ passed (is_empty (trim i.role)) role_missing role.1 in
    subst ReadBack (ok-injective c.2) (
      validate-ReadBack _ c.0 stable.version_given stable.model_given role_given adds.creation
        adds.in_total stable.again refl refl stable.on_grid)
