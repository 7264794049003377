-- ===== src/Month/Bound.antt =====
-- The bound of a request and the cost of its call (lib/anthropic-pricing.js).
use portfolio_manager.Base.{
  ℕ, ◌+◌, ◌*◌, ◌≤◌, ◌≡◌, sym, ap, ◌∙◌, arith, Option, none, some, not, ltb, ok, >>=-eq-ok,
  ok-injective, String, throw_if,
}
use native.Mathlib.Nat.{mul-le-mul_left, mul-le-mul_right}
use portfolio_manager.Base.Text.{◌=s=◌, trim}
use portfolio_manager.Budget.Reservations.{round_usd}
use portfolio_manager.Month.Pricing.{
  Rates, Usage, Request, Bound, Priced, PricingError, cost_at, bound_at, ceil_usd, worst_input_rate,
  token_overhead, estimate_usage_cost, request_upper_bound, resolve_model_pricing, some_or_throw,
  request_invalid,
}

-- The tokens of an answer stay within the request: as many input tokens of all classes as it has bytes and
-- overhead at most, and as many output tokens as it allows at most.
pub record FitsRequest (u : Usage) (bytes max_output : ℕ) : Type 0 where
  pub inputs :
      u.input_tokens + u.cache_creation_5m + u.cache_creation_1h + u.cache_read
      ≤ bytes + token_overhead
  pub outputs : u.output_tokens ≤ max_output

-- Classes of tokens at their rates, against all of them at the worst rate.
weighed :
    (x y z v o a b c d e w n m : ℕ)
    → a ≤ w
    → b ≤ w
    → c ≤ w
    → d ≤ w
    → x + y + z + v ≤ n
    → o ≤ m
    → x * a + y * b + z * c + v * d + o * e ≤ n * w + m * e
weighed x y z v o a b c d e w n m ha hb hc hd hn hm = omega (
  arith,
  mul-le-mul_left x ha,
  mul-le-mul_left y hb,
  mul-le-mul_left z hc,
  mul-le-mul_left v hd,
  mul-le-mul_right w hn,
  mul-le-mul_right e hm,
)

-- Rounding to 12 places and rounding up to 12 places keep an order.
rounded : (a b : ℕ) → a ≤ b → round_usd a ≤ ceil_usd b
unfolding round_usd ceil_usd
rounded a b h = omega (arith, h)

-- At any rates, an answer that stays within its request costs no more than the bound of the request.
pub cost_at-le-bound_at :
    (r : Rates) (u : Usage) (bytes max_output : ℕ)
    → FitsRequest u bytes max_output
    → round_usd (cost_at r u) ≤ bound_at r bytes max_output
unfolding cost_at bound_at
cost_at-le-bound_at r u bytes max_output fits = rounded _ _ (
    weighed u.input_tokens u.cache_creation_5m u.cache_creation_1h u.cache_read u.output_tokens
      r.input r.cache_write_5m r.cache_write_1h r.cache_read r.output (worst_input_rate r)
      (bytes + token_overhead) max_output (omega arith) (omega arith) (omega arith) (omega arith)
      fits.inputs fits.outputs)

-- What a bound that is returned was computed from.
pub record BoundFrom (model version : String) (r : Request) (b : Bound) : Type 0 where
  pub p : Priced
  pub priced : resolve_model_pricing model version ≡ ok p
  pub max_output : ℕ
  pub has_max : r.max_tokens ≡ some max_output
  pub bound : b.upper_bound ≡ bound_at p.model_prices b.request_bytes max_output

pub some_or_throw-ok :
    {A : Type 0} (o : Option A) (e : PricingError) {a : A} → some_or_throw o e ≡ ok a → o ≡ some a
unfolding some_or_throw
some_or_throw-ok none e h = cc
some_or_throw-ok (some a) e h = ap some (ok-injective h)

some-injective : {a b : ℕ} → some a ≡ some b → a ≡ b
some-injective h = cc

pub request_upper_bound-BoundFrom :
    (model version : String) (r : Request) (b : Bound)
    → request_upper_bound model version (some r) ≡ ok b
    → BoundFrom model version r b
unfolding request_upper_bound
request_upper_bound-BoundFrom model version r b h =
    let same = >>=-eq-ok (throw_if (not (trim r.model =s= trim model)) request_invalid) _ h in
    let tokens = >>=-eq-ok (some_or_throw r.max_tokens request_invalid) _ same.2 in
    let some_tokens = >>=-eq-ok (throw_if (not (ltb 0 tokens.0)) request_invalid) _ tokens.2 in
    let bytes = >>=-eq-ok (some_or_throw r.request_bytes request_invalid) _ some_tokens.2 in
    let price = >>=-eq-ok (resolve_model_pricing model version) _ bytes.2 in
    let result = ok-injective price.2 in
    record {
      p = price.0;
      priced = price.1;
      max_output = tokens.0;
      has_max = some_or_throw-ok r.max_tokens request_invalid tokens.1;
      bound =
          sym (ap (λ o. o.upper_bound) result)
          ∙ ap (λ o. bound_at price.0.model_prices o.request_bytes tokens.0) result;
    }

-- Where a request has a bound, an answer that stays within the request has a cost no more than the bound.
pub usage_cost-le-bound :
    (model version : String) (r : Request) (b : Bound) (u : Usage) (max_output : ℕ) (name : String)
    (cost : ℕ)
    → request_upper_bound model version (some r) ≡ ok b
    → r.max_tokens ≡ some max_output
    → FitsRequest u b.request_bytes max_output
    → estimate_usage_cost model version u ≡ ok (name, cost)
    → cost ≤ b.upper_bound
unfolding estimate_usage_cost
usage_cost-le-bound model version r b u max_output name cost h m fits e =
    let f = request_upper_bound-BoundFrom model version r b h in
    let g = rw f.priced at e in
    let c = ap (λ o. o.1) (ok-injective g) in
    let same_max : f.max_output ≡ max_output = some-injective (sym f.has_max ∙ m) in
    let le = cost_at-le-bound_at f.p.model_prices u b.request_bytes max_output fits in
    rw (sym c, f.bound, same_max) le
