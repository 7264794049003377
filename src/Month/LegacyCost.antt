-- ===== src/Month/LegacyCost.antt =====
-- The cost of a record of the first schema (`conservativeLegacyCost`).
use portfolio_manager.Base.{
  ℕ, ◌+◌, ◌≤◌, ◌≡◌, sym, ap, String, All, arith, Outcome-cases, inl, inr, ok, ok-injective,
}
use mathlib.Core.Path.{subst}
use native.Mathlib.Nat.{mul-le-mul_left}
use portfolio_manager.Budget.Reservations.{round_usd}
use portfolio_manager.Month.Pricing.{
  Rates, rates, Usage, Priced, model_rates, resolve_model_pricing, cost_at,
}
use portfolio_manager.Month.PriceTable.{resolve-ResolvedFrom}
use portfolio_manager.Month.Usage.{Costed, costed, legacy_usage}

-- A write that is kept for an hour is not cheaper than one that is kept for five minutes.
abbrev HourDearer : Rates → Type 0
HourDearer r = r.cache_write_5m ≤ r.cache_write_1h

rates-HourDearer : (a b : ℕ) → HourDearer (rates a b)
unfolding rates
rates-HourDearer a b = omega arith

abbrev DearerModel : String × Rates → Type 0
DearerModel e = HourDearer e.1

table-HourDearer : (a b : ℕ) → All DearerModel (model_rates a b)
unfolding model_rates
table-HourDearer a b =
    let d = rates-HourDearer in
    (d 10 50, (d 5 25, (d 5 25, (d 5 25, (d 5 25, (d a b, (d 3 15, (d 3 15, (d 1 5, tt)))))))))

resolve-HourDearer :
    (model version : String) {p : Priced}
    → resolve_model_pricing model version ≡ ok p
    → HourDearer p.model_prices
resolve-HourDearer model version h =
    let r = resolve-ResolvedFrom DearerModel table-HourDearer model version h in
    subst (λ q. HourDearer q.model_prices) r.result r.holds

rounded_le : (a b : ℕ) → a ≤ b → round_usd a ≤ round_usd b
unfolding round_usd
rounded_le a b h = omega (arith, h)

legacy_le :
    (r : Rates) (u : Usage)
    → HourDearer r
    → cost_at r u
      ≤ cost_at r (
          legacy_usage u.input_tokens u.output_tokens
            (u.cache_creation_5m + u.cache_creation_1h)
            u.cache_read)
unfolding cost_at
legacy_le r u h = omega (arith, mul-le-mul_left u.cache_creation_5m h)

-- Where a usage has a cost, the cost of the same tokens with all cache writes at the rate of an hour, as a record of the first schema is priced, is no less, whatever
-- part of the writes was kept for five minutes.
pub legacy_cost-covers :
    (model version : String) (u : Usage) (c d : Costed)
    → costed model version u ≡ ok c
    → costed model version (
        legacy_usage u.input_tokens u.output_tokens
          (u.cache_creation_5m + u.cache_creation_1h)
          u.cache_read)
      ≡ ok d
    → c.cost ≤ d.cost
unfolding costed
legacy_cost-covers model version u c d h k =
    elim (Outcome-cases (resolve_model_pricing model version)) [
      | inr e ↦ let g = rw (e.1, costed) at h in cc g
      | inl e ↦
          let g = rw (e.1, costed) at h in
          let l = rw (e.1, costed) at k in
          let x = ap (λ o. o.cost) (ok-injective g) in
          let y = ap (λ o. o.cost) (ok-injective l) in
          rw (sym x, sym y)
            (rounded_le _ _ (legacy_le e.0.model_prices u (resolve-HourDearer model version e.1)))
    ]
