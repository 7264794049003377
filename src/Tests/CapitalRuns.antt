-- ===== src/Tests/CapitalRuns.antt =====
-- The ledger, its pricing and the withdrawal on small inputs, and the theorems at them.
use portfolio_manager.Base.{
  ℕ, ◌≡◌, refl, ◌++◌, String, true, false, none, some, List, [], ◌∷◌, any, ok,
}
use portfolio_manager.Base.Int.{pos, ◌+ℤ◌, ◌-ℤ◌, ◌*ℤ◌, ◌≤ℤ◌}
use portfolio_manager.Base.Money.{whole, neg, micro, round4, round_div}
use portfolio_manager.Base.Text.{lt_codes, trim, is_date, to_lower}
use portfolio_manager.Risk.Breaker.{PerformanceRow}
use portfolio_manager.Capital.Nav.{
  select_pre_deposit_contribution_nav, select_contribution_nav_snapshot,
  select_latest_contribution_nav, first_close, all_dates, prior_dates, dates_descending,
  insert_date, the_only_close, is_valid_close, has_source, slot_of,
}
use portfolio_manager.Capital.PreDeposit.{
  PricesDeposit, select_pre_deposit_contribution_nav-PricesDeposit,
}
use portfolio_manager.Capital.Signing.{
  Entry, Crypto, normalize_email, default_investor_id, compute_investor_ledger_hmac, canonical,
}
use portfolio_manager.Capital.Ledger.{
  Request, EntryResult, calculate_investor_ledger_entry, build_investor_ledger_entry, choose_nav,
  units_for, matched_entries, entry_matches_investor, sum_units, resolved_id, is_conflicting,
}
use portfolio_manager.Capital.Overdraw.{
  calculate_investor_ledger_entry-covered, calculate_investor_ledger_entry_total,
}

abbrev row : String → String → ℕ → PerformanceRow
row date slot nav = record {
  date = date;
  source_invocation_id = some slot;
  nav_per_unit = some (whole nav);
  portfolio_value = some (whole 1000);
  units_outstanding = some (whole 500);
}

-- Two closes, and an intraday row between them.
abbrev history : List PerformanceRow
history =
    row "2026-07-01" "2026-07-01/16:30" 2
    ∷ row "2026-07-02" "2026-07-02/16:30" 3
    ∷ row "2026-07-03" "2026-07-03/10:00" 4
    ∷ []

pre_deposit :
    select_pre_deposit_contribution_nav history " 2026-07-03 "
    ≡ ok (row "2026-07-02" "2026-07-02/16:30" 3)
unfolding select_pre_deposit_contribution_nav select_contribution_nav_snapshot prior_dates
    dates_descending insert_date the_only_close is_valid_close has_source slot_of lt_codes trim
    is_date
pre_deposit = refl

latest : select_latest_contribution_nav history ≡ ok (row "2026-07-02" "2026-07-02/16:30" 3)
unfolding select_latest_contribution_nav first_close all_dates select_contribution_nav_snapshot
    dates_descending insert_date the_only_close is_valid_close has_source slot_of lt_codes trim
    is_date
latest = refl

select_pre_deposit_contribution_nav-PricesDeposit_example :
    PricesDeposit history " 2026-07-03 " (row "2026-07-02" "2026-07-02/16:30" 3)
select_pre_deposit_contribution_nav-PricesDeposit_example =
    select_pre_deposit_contribution_nav-PricesDeposit history " 2026-07-03 "
      (row "2026-07-02" "2026-07-02/16:30" 3) pre_deposit

abbrev held : Entry
held = record {
  date = "2026-06-01";
  email = "ana@fund.org";
  name = "Ana";
  entry_type = "Contribution";
  amount = whole 100;
  nav_per_unit = some (whole 1);
  units = whole 100;
  investor_id = "ana";
  entry_id = some "e1";
  row_hmac = none;
}

-- The digest is not looked at here.
abbrev plain : Crypto
plain = record { digest = λ secret c. secret; decode_hex = λ s. [] }

abbrev withdrawal : ℕ → Request
withdrawal amount = record {
  ledger = held ∷ [];
  performance_history = history;
  email = "Ana@fund.org";
  name = "Ana";
  amount = some (whole amount);
  is_withdrawal = true;
  is_seed_owner = false;
  investor_id = some "ana";
  is_existing_capital_attribution = false;
  existing_capital_nav_per_unit = none;
  pricing_nav_per_unit = some (some (whole 2));
  entry_id = some "w1";
  uuid = "";
  today = "2026-07-03";
  secret = none;
}

abbrev withdrawn : Entry
withdrawn = record {
  date = "2026-07-03";
  email = "ana@fund.org";
  name = "Ana";
  entry_type = "Withdrawal";
  amount = whole 30;
  nav_per_unit = some (whole 2);
  units = neg 1_500_000_000_000_000;
  investor_id = "ana";
  entry_id = some "w1";
  row_hmac = none;
}

abbrev fifteen_units : EntryResult
fifteen_units = record {
  entry = withdrawn;
  nav_per_unit = whole 2;
  seeded = false;
  units = neg 1_500_000_000_000_000;
  units_outstanding_after = whole 85;
  investor_units_after = whole 85;
}

computed : calculate_investor_ledger_entry plain (withdrawal 30) ≡ ok fifteen_units
unfolding calculate_investor_ledger_entry build_investor_ledger_entry choose_nav units_for
    matched_entries entry_matches_investor resolved_id is_conflicting normalize_email
    default_investor_id compute_investor_ledger_hmac canonical ◌+ℤ◌ ◌-ℤ◌ ◌*ℤ◌ round_div round4 trim
    to_lower
computed = refl

calculate_investor_ledger_entry-covered_example :
    (pos 0 ≤ℤ whole 85 +ℤ micro)
    × (any
          (is_conflicting (resolved_id (withdrawal 30)))
          (matched_entries (resolved_id (withdrawal 30)) "Ana@fund.org" (held ∷ []))
        ≡ false)
calculate_investor_ledger_entry-covered_example =
    calculate_investor_ledger_entry-covered plain (withdrawal 30) fifteen_units refl computed

calculate_investor_ledger_entry_total_example :
    sum_units ((held ∷ []) ++ (withdrawn ∷ [])) ≡ whole 85
calculate_investor_ledger_entry_total_example =
    calculate_investor_ledger_entry_total plain (withdrawal 30) fifteen_units computed
