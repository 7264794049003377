-- ===== src/Capital/Ledger.antt =====
-- lib/investor-ledger.js: the entry that a contribution or a withdrawal appends, and the capital
-- that no entry accounts for.
use text.Mathlib.Text.{starts_with}
use portfolio_manager.Base.{
  String, Bool, true, false, not, ◌&&◌, ◌||◌, Option, none, some, List, filter, any, if◌then◌else◌,
  or_else, get_last?, Outcome, ok, thrown, ◌>>=◌, ◌>>◌, throw_if,
}
use portfolio_manager.Base.Int.{ℤ, pos, pos_part, ◌+ℤ◌, ◌-ℤ◌, ◌*ℤ◌, ltb_ℤ, leb_ℤ, abs_ℤ, sum_by}
use portfolio_manager.Base.Money.{Num, whole, micro, round_div, round2, round4, round4_grains}
use portfolio_manager.Base.Text.{◌=s=◌, trim, is_empty}
use portfolio_manager.Lots.Lot.{require_positive, text_or}
use portfolio_manager.Risk.Breaker.{PerformanceRow}
use portfolio_manager.Capital.Signing.{
  Crypto, Entry, LedgerError, amount_not_positive, compute_investor_ledger_hmac,
  default_investor_id, existing_nav_required, identity_conflict, normalize_email,
  pricing_nav_missing, seed_owner_required, signed_nav_required, units_short,
}

-- A matching investor id, or a matching email whatever the ids are.
unfoldable pub entry_matches_investor : String → String → Entry → Bool
entry_matches_investor investor_id email e =
    not (is_empty investor_id) && e.investor_id =s= investor_id
    || normalize_email e.email =s= normalize_email email

unfoldable pub matched_entries : String → String → List Entry → List Entry
matched_entries investor_id email ledger = filter (entry_matches_investor investor_id email) ledger

abbrev pub sum_units : List Entry → ℤ
sum_units = sum_by (λ e. e.units)

-- An id that is there, is another one, and is not made from an email.
unfoldable pub is_conflicting : String → Entry → Bool
is_conflicting resolved e =
    not (is_empty (trim e.investor_id))
    && not (trim e.investor_id =s= resolved)
    && not (starts_with (trim e.investor_id) "email:")

-- `entry_id` is that of the caller or else the UUID drawn; `today` is the date in New York.
-- A pricing NAV that is null is `none`, and one that is not finite is `some none`.
pub record Request : Type 0 where
  pub ledger : List Entry
  pub performance_history : List PerformanceRow
  pub email : String
  pub name : String
  pub amount : Num
  pub is_withdrawal : Bool
  pub is_seed_owner : Bool
  pub investor_id : Option String
  pub is_existing_capital_attribution : Bool
  pub existing_capital_nav_per_unit : Num
  pub pricing_nav_per_unit : Option Num
  pub entry_id : Option String
  pub uuid : String
  pub today : String
  pub secret : Option String

pub record EntryResult : Type 0 where
  pub entry : Entry
  pub nav_per_unit : ℤ
  pub seeded : Bool
  pub units : ℤ
  pub units_outstanding_after : ℤ
  pub investor_units_after : ℤ

-- `performanceHistory[last]?.portfolioValue ?? 0`
abbrev last_value : List PerformanceRow → ℤ
last_value rows = elim (get_last? rows) [
  | none ↦ pos 0
  | some r ↦ or_else r.portfolio_value (pos 0)
]

-- The NAV per unit that prices the entry, and whether it seeds the ledger.
unfoldable pub choose_nav : Request → ℤ → Outcome LedgerError (ℤ × Bool)
choose_nav r outstanding =
    if leb_ℤ outstanding (pos 0)
    then (if not r.is_seed_owner
          && not r.is_existing_capital_attribution
          && ltb_ℤ (whole 1) (last_value r.performance_history)
        then thrown seed_owner_required
        else ok (whole 1, true))
    else if r.is_existing_capital_attribution
    then (require_positive r.existing_capital_nav_per_unit existing_nav_required >>= λ nav.
        ok (nav, false))
    else elim r.pricing_nav_per_unit [
      | none ↦ thrown pricing_nav_missing
      | some nav ↦ require_positive nav signed_nav_required >>= λ nav'. ok (nav', false)
    ]

-- `round4((isWithdrawal ? -1 : 1) * (amount / navPerUnit))`
unfoldable pub units_for : Bool → ℤ → ℤ → ℤ
units_for is_withdrawal amount nav =
    let signed = if is_withdrawal then pos 0 -ℤ amount else amount in
    round_div (signed *ℤ pos 10_000) (pos_part nav) *ℤ pos round4_grains

unfoldable pub resolved_id : Request → String
resolved_id r = trim (text_or r.investor_id (default_investor_id r.email))

module _ (crypto : Crypto) where
  unfoldable pub build_investor_ledger_entry : Request → ℤ → ℤ → ℤ → Entry
  build_investor_ledger_entry r amount nav units =
      let entry : Entry = record {
        date = r.today;
        email = normalize_email r.email;
        name = trim r.name;
        entry_type = if r.is_withdrawal then "Withdrawal" else "Contribution";
        amount = amount;
        nav_per_unit = some nav;
        units = units;
        investor_id = trim (text_or (some (resolved_id r)) (default_investor_id r.email));
        entry_id = some (text_or r.entry_id r.uuid);
        row_hmac = none;
      } in
      record entry { row_hmac = compute_investor_ledger_hmac crypto entry r.secret }

  unfoldable pub calculate_investor_ledger_entry : Request → Outcome LedgerError EntryResult
  calculate_investor_ledger_entry r = do
    amount ← require_positive r.amount amount_not_positive
    let outstanding = sum_units r.ledger
    priced ← choose_nav r outstanding
    let units = units_for r.is_withdrawal amount priced.0
    let matched = matched_entries (resolved_id r) r.email r.ledger
    throw_if (any (is_conflicting (resolved_id r)) matched) identity_conflict
    let held = sum_units matched
    throw_if (r.is_withdrawal && ltb_ℤ (held +ℤ micro) (abs_ℤ units)) units_short
    ok (record {
      entry = build_investor_ledger_entry r amount (round4 priced.0) (round4 units);
      nav_per_unit = priced.0;
      seeded = priced.1;
      units = units;
      units_outstanding_after = outstanding +ℤ units;
      investor_units_after = held +ℤ units;
    })

-- `computeUnattributedCapital`: a cost basis or a cash balance that is not finite counts as 0.
pub record Unattributed : Type 0 where
  pub amount : ℤ
  pub capital_in : ℤ
  pub net_contributions : ℤ
  pub detected : Bool

abbrev typed : String → List Entry → List Entry
typed t = filter (λ e. e.entry_type =s= t)

unfoldable pub compute_unattributed_capital : List Num → Num → List Entry → Unattributed
compute_unattributed_capital cost_bases cash ledger =
    let capital_in = or_else cash (pos 0) +ℤ sum_by (λ b. or_else b (pos 0)) cost_bases in
    let net =
      sum_by (λ e. e.amount) (typed "Contribution" ledger)
      -ℤ sum_by (λ e. e.amount) (typed "Withdrawal" ledger) in
    let amount = round2 (capital_in -ℤ net) in
    record {
      amount = amount;
      capital_in = capital_in;
      net_contributions = net;
      detected = ltb_ℤ (whole 1) amount;
    }
