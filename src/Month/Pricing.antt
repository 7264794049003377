-- ===== src/Month/Pricing.antt =====
-- lib/anthropic-pricing.js: the price table, the cost of a usage, and the bound of a request before it
-- is sent. Token counts are whole numbers, and a rate counts grains for one token.
use portfolio_manager.Base.{
  ℕ, ◌+◌, ◌*◌, ◌/◌, not, Option, none, some, List, [], ◌∷◌, if◌then◌else◌, ltb, String, Outcome, ok,
  thrown, throw_if, ◌>>=◌, ◌>>◌,
}
use Prim.Native.Nat.{max}
use portfolio_manager.Base.Text.{◌=s=◌, trim, is_empty, ltb_str}
use portfolio_manager.Budget.Reservations.{round_usd}

pub data PricingError : Type 0 where
  version_unknown model_unpriced request_invalid : PricingError

pub record Rates : Type 0 where
  pub input : ℕ
  pub cache_write_5m : ℕ
  pub cache_write_1h : ℕ
  pub cache_read : ℕ
  pub output : ℕ

-- `rates(input, output)`, from dollars for a million tokens
unfoldable pub rates : ℕ → ℕ → Rates
rates input output = record {
  input = input * 100_000_000;
  cache_write_5m = input * 125_000_000;
  cache_write_1h = input * 200_000_000;
  cache_read = input * 10_000_000;
  output = output * 100_000_000;
}

abbrev pub Table : Type 0
Table = List (String × Rates)

-- `table[key]`
unfoldable pub rates_of : String → Table → Option Rates
rates_of model [] = none
rates_of model ((name, r) ∷ xs) = if name =s= model then some r else rates_of model xs

unfoldable pub model_rates : ℕ → ℕ → Table
unfolding rates
model_rates sonnet5_input sonnet5_output =
    ("claude-fable-5", rates 10 50)
    ∷ ("claude-opus-4-8", rates 5 25)
    ∷ ("claude-opus-4-7", rates 5 25)
    ∷ ("claude-opus-4-6", rates 5 25)
    ∷ ("claude-opus-4-5", rates 5 25)
    ∷ ("claude-sonnet-5", rates sonnet5_input sonnet5_output)
    ∷ ("claude-sonnet-4-6", rates 3 15)
    ∷ ("claude-sonnet-4-5", rates 3 15)
    ∷ ("claude-haiku-4-5", rates 1 5)
    ∷ []

abbrev pub default_version : String
default_version = "anthropic-global-standard-2026-07-14"

abbrev pub september_version : String
september_version = "anthropic-global-standard-2026-09-01"

-- `ANTHROPIC_PRICING_VERSIONS[version]?.models`
unfoldable pub models_of : String → Option Table
unfolding model_rates
models_of version =
    if version =s= default_version
    then some (model_rates 2 10)
    else if version =s= september_version
    then some (model_rates 3 15)
    else none

unfoldable pub model_alias : String → String
model_alias requested =
    if requested =s= "claude-haiku-4-5-20251001"
    then "claude-haiku-4-5"
    else if requested =s= "claude-opus-4-5-20251101"
    then "claude-opus-4-5"
    else if requested =s= "claude-sonnet-4-5-20250929"
    then "claude-sonnet-4-5"
    else requested

-- The date is the first ten characters of an ISO instant.
unfoldable pub pricing_version_for_date : String → String
pricing_version_for_date date =
    if ltb_str date "2026-09-01" then default_version else september_version

-- `resolveAnthropicPricingVersion`: the text of ANTHROPIC_PRICING_VERSION, or the version of the date.
unfoldable pub resolve_pricing_version : String → String → Outcome PricingError String
unfolding models_of pricing_version_for_date
resolve_pricing_version setting date =
    let version = if is_empty (trim setting) then pricing_version_for_date date else trim setting in
    elim (models_of version) [ none ↦ thrown version_unknown | some table ↦ ok version ]

pub record Priced : Type 0 where
  pub canonical_model : String
  pub model_prices : Rates

-- A value that is missing throws.
unfoldable pub some_or_throw {ℓ} : {A : Type ℓ} → Option A → PricingError → Outcome PricingError A
some_or_throw none problem = thrown problem
some_or_throw (some a) problem = ok a

unfoldable pub resolve_model_pricing : String → String → Outcome PricingError Priced
unfolding models_of model_alias rates_of some_or_throw
resolve_model_pricing model version = some_or_throw (models_of version) version_unknown >>= λ table.
    some_or_throw (rates_of (model_alias (trim model)) table) model_unpriced >>= λ r.
    ok (record { canonical_model = model_alias (trim model); model_prices = r })

pub record Usage : Type 0 where
  pub input_tokens : ℕ
  pub output_tokens : ℕ
  pub cache_creation_5m : ℕ
  pub cache_creation_1h : ℕ
  pub cache_read : ℕ

-- The five classes of `breakdown`, added.
unfoldable pub cost_at : Rates → Usage → ℕ
cost_at r u =
    u.input_tokens * r.input
    + u.cache_creation_5m * r.cache_write_5m
    + u.cache_creation_1h * r.cache_write_1h
    + u.cache_read * r.cache_read
    + u.output_tokens * r.output

-- `estimateAnthropicUsageCost`, the canonical model and the cost to 12 places.
unfoldable pub estimate_usage_cost : String → String → Usage → Outcome PricingError (String × ℕ)
unfolding resolve_model_pricing cost_at round_usd
estimate_usage_cost model version u = resolve_model_pricing model version >>= λ p.
    ok (p.canonical_model, round_usd (cost_at p.model_prices u))

-- A request: its model, its `max_tokens` where that is a safe integer, and the length of its JSON text in bytes,
-- where it has one. The text is the platform's.
pub record Request : Type 0 where
  pub model : String
  pub max_tokens : Option ℕ
  pub request_bytes : Option ℕ

pub record Bound : Type 0 where
  pub request_bytes : ℕ
  pub upper_bound : ℕ

abbrev pub token_overhead : ℕ
token_overhead = 8_192

abbrev pub worst_input_rate : Rates → ℕ
worst_input_rate r = max (max (max r.input r.cache_write_5m) r.cache_write_1h) r.cache_read

-- `Math.ceil(x * 1e12) / 1e12`
unfoldable pub ceil_usd : ℕ → ℕ
ceil_usd n = (n + 99) / 100 * 100

unfoldable pub bound_at : Rates → ℕ → ℕ → ℕ
unfolding ceil_usd
bound_at r bytes max_output =
    ceil_usd ((bytes + token_overhead) * worst_input_rate r + max_output * r.output)

-- `estimateAnthropicRequestUpperBound`
unfoldable pub request_upper_bound : String → String → Option Request → Outcome PricingError Bound
unfolding resolve_model_pricing bound_at some_or_throw
request_upper_bound model version request = some_or_throw request request_invalid >>= λ r.
    throw_if (not (trim r.model =s= trim model)) request_invalid
    >> (some_or_throw r.max_tokens request_invalid >>= λ max_output.
        throw_if (not (ltb 0 max_output)) request_invalid
        >> (some_or_throw r.request_bytes request_invalid >>= λ bytes.
            resolve_model_pricing model version >>= λ p. ok (record {
              request_bytes = bytes;
              upper_bound = bound_at p.model_prices bytes max_output;
            })))
