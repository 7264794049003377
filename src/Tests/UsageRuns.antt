-- ===== src/Tests/UsageRuns.antt =====
-- Records of paid calls, written and read back.
use portfolio_manager.Base.Text.{trim, trim, trim, lt_codes, trim}
use portfolio_manager.Base.{◌+◌, ◌≤◌, ◌≡◌, refl, none, some, [], ◌∷◌, ok}
use portfolio_manager.Month.Pricing.{cost_at, cost_at, cost_at, Usage}
use portfolio_manager.Month.Usage.{
  UsageInput, V2Record, Costed, build_usage_record, costed, legacy_usage,
}
use portfolio_manager.Month.UsageSum.{is_expected, second, DayRecord, aggregate_usage_records}
use portfolio_manager.Month.UsageComplete.{WrittenIn, carried_total, aggregate_complete}
use portfolio_manager.Month.LegacyCost.{legacy_cost-covers}

-- A dated model, whose record names the canonical one.
abbrev paid_call : UsageInput
paid_call = record {
  role = "generator";
  model = "claude-haiku-4-5-20251001";
  usage = record {
    input_tokens = some (some 900);
    output_tokens = some (some 400);
    cache_creation_input_tokens = some (some 100);
    cache_read_input_tokens = none;
    cache_creation = none;
  };
  cache_write_ttl = some "5m";
  pricing_version = none;
  version_setting = "";
  created_day = "2026-07-20";
}

abbrev paid_usage : Usage
paid_usage = record {
  input_tokens = 900;
  output_tokens = 400;
  cache_creation_5m = 100;
  cache_creation_1h = 0;
  cache_read = 0;
}

abbrev paid_record : V2Record
paid_record = record {
  pricing_version = "anthropic-global-standard-2026-07-14";
  model = "claude-haiku-4-5";
  role = "generator";
  usage = paid_usage;
  cache_creation_input_tokens = 100;
  total_input_tokens = 1_000;
  estimated_cost = 302_500_000_000;
  cost_breakdown = some (90_000_000_000 ∷ 12_500_000_000 ∷ 0 ∷ 0 ∷ 200_000_000_000 ∷ []);
}

paid_record-build : build_usage_record paid_call ≡ ok paid_record
unfolding build_usage_record trim lt_codes cost_at
paid_record-build = refl

abbrev paid_day : DayRecord
paid_day = record {
  stored = second paid_record;
  created_day = "2026-07-20";
  expected_day = some "2026-07-20";
}

paid_day-WrittenIn : WrittenIn "2026-07" paid_day
unfolding trim is_expected
paid_day-WrittenIn = record {
  i = paid_call;
  rec = paid_record;
  built = paid_record-build;
  stored = refl;
  in_month = refl;
  on_day = refl;
}

aggregate_complete_example :
    aggregate_usage_records "2026-07" (paid_day ∷ paid_day ∷ []) 0 0 ≡ record {
      telemetry_status = "COMPLETE";
      estimated_cost = some (carried_total (paid_day ∷ paid_day ∷ []));
    }
aggregate_complete_example =
    aggregate_complete "2026-07" (paid_day ∷ paid_day ∷ [])
      (paid_day-WrittenIn, (paid_day-WrittenIn, tt))

abbrev exact_cost : Costed
exact_cost = record {
  canonical_model = "claude-haiku-4-5";
  cost = 302_500_000_000;
  breakdown = 90_000_000_000 ∷ 12_500_000_000 ∷ 0 ∷ 0 ∷ 200_000_000_000 ∷ [];
}

abbrev hour_cost : Costed
hour_cost = record {
  canonical_model = "claude-haiku-4-5";
  cost = 310_000_000_000;
  breakdown = 90_000_000_000 ∷ 0 ∷ 20_000_000_000 ∷ 0 ∷ 200_000_000_000 ∷ [];
}

exact_cost-costed :
    costed "claude-haiku-4-5" "anthropic-global-standard-2026-07-14" paid_usage ≡ ok exact_cost
unfolding costed trim cost_at
exact_cost-costed = refl

hour_cost-costed :
    costed "claude-haiku-4-5" "anthropic-global-standard-2026-07-14"
      (legacy_usage 900 400 (100 + 0) 0)
    ≡ ok hour_cost
unfolding costed trim cost_at
hour_cost-costed = refl

legacy_cost-covers_example : 302_500_000_000 ≤ 310_000_000_000
legacy_cost-covers_example =
    legacy_cost-covers "claude-haiku-4-5" "anthropic-global-standard-2026-07-14" paid_usage
      exact_cost hour_cost exact_cost-costed hour_cost-costed
