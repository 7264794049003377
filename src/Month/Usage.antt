-- ===== src/Month/Usage.antt =====
-- lib/anthropic-usage.js: the record of a paid call, and the sum of the records of a month. A count of tokens is a
-- whole number; a value that is none is `some none`, and a missing one is `none`.
use Prim.Native.String.{◌++◌ as str_append}
use portfolio_manager.Base.{
  ℕ, ◌+◌, ◌*◌, String, Bool, true, false, not, ◌&&◌, ◌||◌, ◌==◌, Option, none, some, List, [], ◌∷◌,
  if◌then◌else◌, or_else, Outcome, ok, thrown, throw_if, ◌>>=◌, ◌>>◌,
}
use portfolio_manager.Base.Text.{◌=s=◌, trim, is_empty}
use portfolio_manager.Budget.Reservations.{round_usd}
use portfolio_manager.Capital.Signing.{given_text}
use portfolio_manager.Month.Pricing.{
  Rates, Usage, resolve_model_pricing, resolve_pricing_version, cost_at,
}

pub data UsageError : Type 0 where
  count_invalid cache_sum_wrong cache_lifetime_unknown role_missing model_missing version_missing :
      UsageError
  not_priced cost_differs breakdown_differs total_differs unreadable_record outside_month other_day
        unknown_schema :
      UsageError

abbrev pub Count : Type 0
Count = Option (Option ℕ)

-- `numberOrZero`
unfoldable pub number_or_zero : Count → Outcome UsageError ℕ
number_or_zero none = ok 0
number_or_zero (some none) = thrown count_invalid
number_or_zero (some (some n)) = ok n

-- The usage of the provider's answer; the pair is its `cache_creation` object.
pub record RawUsage : Type 0 where
  pub input_tokens : Count
  pub output_tokens : Count
  pub cache_creation_input_tokens : Count
  pub cache_read_input_tokens : Count
  pub cache_creation : Option (Count × Count)

-- `cacheCreationBreakdown`, for the total it has read
unfoldable pub cache_creation_breakdown :
    Option (Count × Count) → Option String → ℕ → Outcome UsageError (ℕ × ℕ)
unfolding number_or_zero
cache_creation_breakdown (some details) lifetime total = number_or_zero details.0 >>= λ five.
    number_or_zero details.1 >>= λ hour.
    if five + hour == total then ok (five, hour) else thrown cache_sum_wrong
cache_creation_breakdown none lifetime total =
    if total == 0
    then ok (0, 0)
    else if or_else lifetime "" =s= "5m"
    then ok (total, 0)
    else if or_else lifetime "" =s= "1h"
    then ok (0, total)
    else thrown cache_lifetime_unknown

pub record Extracted : Type 0 where
  pub usage : Usage
  pub cache_creation_input_tokens : ℕ
  pub total_input_tokens : ℕ
  pub usage_complete : Bool

abbrev pub is_given : Count → Bool
is_given none = false
is_given (some n) = true

-- `extractUsage`
unfoldable pub extract_usage : RawUsage → Option String → Outcome UsageError Extracted
unfolding number_or_zero cache_creation_breakdown
extract_usage raw lifetime = number_or_zero raw.input_tokens >>= λ input.
    number_or_zero raw.output_tokens >>= λ output.
    number_or_zero raw.cache_creation_input_tokens >>= λ creation.
    number_or_zero raw.cache_read_input_tokens >>= λ read.
    cache_creation_breakdown raw.cache_creation lifetime creation >>= λ classes. ok (record {
      usage = record {
        input_tokens = input;
        output_tokens = output;
        cache_creation_5m = classes.0;
        cache_creation_1h = classes.1;
        cache_read = read;
      };
      cache_creation_input_tokens = creation;
      total_input_tokens = input + creation + read;
      usage_complete = is_given raw.input_tokens && is_given raw.output_tokens;
    })

-- `costBreakdownUsd`: the five classes, to 12 places
abbrev pub Breakdown : Type 0
Breakdown = List ℕ

unfoldable pub breakdown_at : Rates → Usage → Breakdown
unfolding round_usd
breakdown_at r u =
    round_usd (u.input_tokens * r.input)
    ∷ round_usd (u.cache_creation_5m * r.cache_write_5m)
    ∷ round_usd (u.cache_creation_1h * r.cache_write_1h)
    ∷ round_usd (u.cache_read * r.cache_read)
    ∷ round_usd (u.output_tokens * r.output)
    ∷ []

pub record Costed : Type 0 where
  pub canonical_model : String
  pub cost : ℕ
  pub breakdown : Breakdown

-- `estimateAnthropicUsageCost`, with the breakdown
unfoldable pub costed : String → String → Usage → Outcome UsageError Costed
unfolding resolve_model_pricing round_usd breakdown_at
costed model version u = elim (resolve_model_pricing model version) [
  | thrown e ↦ thrown not_priced
  | ok p ↦ ok (record {
    canonical_model = p.canonical_model;
    cost = round_usd (cost_at p.model_prices u);
    breakdown = breakdown_at p.model_prices u;
  })
]

-- A record of the second schema; a breakdown with other keys is none.
pub record V2Record : Type 0 where
  pub pricing_version : String
  pub model : String
  pub role : String
  pub usage : Usage
  pub cache_creation_input_tokens : ℕ
  pub total_input_tokens : ℕ
  pub estimated_cost : ℕ
  pub cost_breakdown : Option Breakdown

pub record UsageInput : Type 0 where
  pub role : String
  pub model : String
  pub usage : RawUsage
  pub cache_write_ttl : Option String
  pub pricing_version : Option String
  pub version_setting : String
  pub created_day : String

-- `pricingVersion || resolveAnthropicPricingVersion(...)`
unfoldable pub version_of_record : UsageInput → Outcome UsageError String
unfolding resolve_pricing_version
version_of_record i = elim (given_text i.pricing_version) [
  | some v ↦ ok v
  | none ↦ elim (resolve_pricing_version i.version_setting i.created_day) [
    | ok v ↦ ok v
    | thrown e ↦ thrown not_priced
  ]
]

-- `buildAnthropicUsageRecord`, the fields that are priced
unfoldable pub build_usage_record : UsageInput → Outcome UsageError V2Record
unfolding extract_usage costed version_of_record
build_usage_record i =
    throw_if (is_empty (trim i.role)) role_missing
    >> (throw_if (is_empty (trim i.model)) model_missing
        >> (extract_usage i.usage i.cache_write_ttl >>= λ x. version_of_record i >>= λ version.
            costed i.model version x.usage >>= λ c. ok (record {
              pricing_version = version;
              model = c.canonical_model;
              role = trim i.role;
              usage = x.usage;
              cache_creation_input_tokens = x.cache_creation_input_tokens;
              total_input_tokens = x.total_input_tokens;
              estimated_cost = c.cost;
              cost_breakdown = some c.breakdown;
            })))

abbrev pub same_amounts : List ℕ → List ℕ → Bool
same_amounts [] [] = true
same_amounts (a ∷ as') (b ∷ bs) = a == b && same_amounts as' bs
same_amounts _ _ = false

abbrev pub same_breakdown : Option Breakdown → Breakdown → Bool
same_breakdown none ys = false
same_breakdown (some xs) ys = same_amounts xs ys

-- What a record adds to the month: its cost, model, role and bucket, and whether it is of the first schema.
pub record Repriced : Type 0 where
  pub cost : ℕ
  pub model : String
  pub role : String
  pub pricing_bucket : String
  pub is_legacy : Bool

-- `validateAndRepriceV2`
unfoldable pub validate_and_reprice_v2 : V2Record → Outcome UsageError Repriced
unfolding costed
validate_and_reprice_v2 rec =
    throw_if (is_empty (trim rec.pricing_version)) version_missing
    >> (throw_if (is_empty (trim rec.model) || is_empty (trim rec.role)) model_missing
        >> (throw_if
              (not (
                rec.usage.cache_creation_5m + rec.usage.cache_creation_1h
                == rec.cache_creation_input_tokens))
              cache_sum_wrong
            >> (throw_if
                  (not (
                    rec.total_input_tokens
                    == rec.usage.input_tokens + rec.cache_creation_input_tokens
                      + rec.usage.cache_read))
                  total_differs
                >> (costed rec.model rec.pricing_version rec.usage >>= λ c.
                    throw_if (not (rec.estimated_cost == c.cost)) cost_differs
                    >> (throw_if (not (same_breakdown rec.cost_breakdown c.breakdown))
                          breakdown_differs
                        >> ok (record {
                          cost = c.cost;
                          model = c.canonical_model;
                          role = trim rec.role;
                          pricing_bucket = rec.pricing_version;
                          is_legacy = false;
                        }))))))

-- A record of the first schema, without a cost.
pub record LegacyRecord : Type 0 where
  pub model : String
  pub role : String
  pub input_tokens : Count
  pub output_tokens : Count
  pub cache_creation_input_tokens : Count
  pub cache_read_input_tokens : Count

-- Every cache write at the rate of an hour.
abbrev pub legacy_usage : ℕ → ℕ → ℕ → ℕ → Usage
legacy_usage input output creation read = record {
  input_tokens = input;
  output_tokens = output;
  cache_creation_5m = 0;
  cache_creation_1h = creation;
  cache_read = read;
}

-- `conservativeLegacyCost`, for the day of the record
unfoldable pub conservative_legacy_cost : String → LegacyRecord → Outcome UsageError Repriced
unfolding number_or_zero costed resolve_pricing_version
conservative_legacy_cost day rec = elim (resolve_pricing_version "" day) [
  | thrown e ↦ thrown not_priced
  | ok version ↦ number_or_zero rec.input_tokens >>= λ input.
      number_or_zero rec.output_tokens >>= λ output.
      number_or_zero rec.cache_creation_input_tokens >>= λ creation.
      number_or_zero rec.cache_read_input_tokens >>= λ read.
      throw_if (is_empty (trim rec.model) || is_empty (trim rec.role)) model_missing
      >> (costed rec.model version (legacy_usage input output creation read) >>= λ c. ok (record {
        cost = c.cost;
        model = c.canonical_model;
        role = trim rec.role;
        pricing_bucket = str_append version ":legacy-conservative-1h-cache";
        is_legacy = true;
      }))
]
