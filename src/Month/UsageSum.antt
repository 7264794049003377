-- ===== src/Month/UsageSum.antt =====
-- lib/anthropic-usage.js: `aggregateAnthropicUsageRecords`.
use text.Mathlib.Text.{starts_with}
use Prim.Native.String.{◌++◌ as str_append}
use portfolio_manager.Base.{
  ℕ, suc, ◌+◌, String, Bool, true, not, ◌||◌, ◌==◌, Option, none, some, List, [], ◌∷◌, ◌++◌, length,
  if◌then◌else◌, Outcome, ok, thrown, throw_if, ◌>>◌,
}
use portfolio_manager.Base.Text.{◌=s=◌, trim, is_empty}
use portfolio_manager.Budget.Reservations.{round_usd}
use portfolio_manager.Month.Report.{MonthUsage}
use portfolio_manager.Month.Usage.{
  UsageError, V2Record, LegacyRecord, Repriced, validate_and_reprice_v2, conservative_legacy_cost,
  unreadable_record, outside_month, other_day, unknown_schema,
}

-- A stored value, by its schema; one that is no JSON object is unreadable.
pub data Stored : Type 0 where
  unreadable_value other_schema : Stored
  second : V2Record → Stored
  first : LegacyRecord → Stored

-- A value with the day of its `createdAt`, and the day of the list that it was read from.
pub record DayRecord : Type 0 where
  pub stored : Stored
  pub created_day : String
  pub expected_day : Option String

unfoldable pub is_expected : Option String → String → Bool
is_expected none day = true
is_expected (some d) day = is_empty d || day =s= d

unfoldable pub reprice_stored : String → Stored → Outcome UsageError Repriced
unfolding validate_and_reprice_v2 conservative_legacy_cost
reprice_stored day unreadable_value = thrown unreadable_record
reprice_stored day other_schema = thrown unknown_schema
reprice_stored day (second rec) = validate_and_reprice_v2 rec
reprice_stored day (first rec) = conservative_legacy_cost day rec

-- The body of the loop that may throw.
unfoldable pub reprice_record : String → DayRecord → Outcome UsageError Repriced
unfolding reprice_stored is_expected
reprice_record month d =
    throw_if (not (starts_with d.created_day (str_append month "-"))) outside_month
    >> (throw_if (not (is_expected d.expected_day d.created_day)) other_day
        >> reprice_stored d.created_day d.stored)

-- `addCost`: the sum under a label
unfoldable pub add_cost : String → ℕ → List (String × ℕ) → List (String × ℕ)
unfolding round_usd
add_cost label cost [] = (label, round_usd cost) ∷ []
add_cost label cost ((name, sum) ∷ xs) =
    let rest = add_cost label cost xs in
    if name =s= label then (name, round_usd (sum + cost)) ∷ xs else (name, sum) ∷ rest

-- `String(key ?? "UNKNOWN").trim() || "UNKNOWN"`
abbrev pub label_of : String → String
label_of key = if is_empty (trim key) then "UNKNOWN" else trim key

pub record Totals : Type 0 where
  pub estimated_cost : ℕ
  pub records : ℕ
  pub legacy_repriced : ℕ
  pub by_model : List (String × ℕ)
  pub by_role : List (String × ℕ)
  pub by_pricing_version : List (String × ℕ)
  pub issues : List UsageError

abbrev pub no_totals : Totals
no_totals = record {
  estimated_cost = 0;
  records = 0;
  legacy_repriced = 0;
  by_model = [];
  by_role = [];
  by_pricing_version = [];
  issues = [];
}

unfoldable pub add_repriced : Repriced → Totals → Totals
unfolding add_cost round_usd
add_repriced r t = record t {
  estimated_cost = round_usd (t.estimated_cost + r.cost);
  records = suc t.records;
  legacy_repriced = if r.is_legacy then suc t.legacy_repriced else t.legacy_repriced;
  by_model = add_cost (label_of r.model) r.cost t.by_model;
  by_role = add_cost (label_of r.role) r.cost t.by_role;
  by_pricing_version = add_cost (label_of r.pricing_bucket) r.cost t.by_pricing_version;
}

unfoldable pub add_outcome : Outcome UsageError Repriced → Totals → Totals
unfolding add_repriced
add_outcome (ok r) t = add_repriced r t
add_outcome (thrown e) t = record t { issues = t.issues ++ (e ∷ []) }

-- The loop over the records.
unfoldable pub add_records : String → List DayRecord → Totals → Totals
unfolding reprice_record add_outcome
add_records month [] t = t
add_records month (d ∷ ds) t = add_records month ds (add_outcome (reprice_record month d) t)

-- The status, from the issues of records, the days whose list is full, and the reads that failed.
unfoldable pub telemetry_status : ℕ → ℕ → ℕ → String
telemetry_status issues truncated_days read_errors =
    if not (read_errors == 0)
    then "UNREADABLE"
    else if not (issues + truncated_days == 0)
    then "INCOMPLETE"
    else "COMPLETE"

-- `aggregateAnthropicUsageRecords`, as the report of a month reads it
unfoldable pub aggregate_usage_records : String → List DayRecord → ℕ → ℕ → MonthUsage
unfolding add_records telemetry_status
aggregate_usage_records month ds truncated_days read_errors =
    let t = add_records month ds no_totals in
    record {
      telemetry_status = telemetry_status (length t.issues) truncated_days read_errors;
      estimated_cost = some t.estimated_cost;
    }
