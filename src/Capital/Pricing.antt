-- ===== src/Capital/Pricing.antt =====
-- lib/withdrawal-pricing.js: the signed close and the ledger entry of a withdrawal.
use portfolio_manager.Base.{
  String, Bool, true, false, not, ◌&&◌, Option, none, some, List, any, Outcome, ok, thrown, ◌>>=◌,
  ◌>>◌, throw_if,
}
use portfolio_manager.Base.Money.{Num}
use portfolio_manager.Base.Text.{is_empty}
use portfolio_manager.Risk.Breaker.{PerformanceRow}
use portfolio_manager.Capital.Nav.{NavError, select_latest_contribution_nav}
use portfolio_manager.Capital.Signing.{Entry, Crypto, LedgerError}
use portfolio_manager.Capital.Ledger.{Request, EntryResult, calculate_investor_ledger_entry}
use portfolio_manager.Capital.Plan.{names_operation}
use portfolio_manager.Capital.Replay.{same_text?, same_num}

pub data PricingError : Type 0 where
  nav_refused : NavError → PricingError
  snapshot_mismatch : PricingError
  entry_refused : LedgerError → PricingError

unfoldable pub select_signed_withdrawal_nav :
    List PerformanceRow → Outcome PricingError PerformanceRow
select_signed_withdrawal_nav history = elim (select_latest_contribution_nav history) [
  | ok row ↦ ok row
  | thrown e ↦ thrown (nav_refused e)
]

-- `uuid` is not used: an entry id is given. A missing id of the investor is `none`.
pub record WithdrawalRequest : Type 0 where
  pub ledger : List Entry
  pub performance_history : List PerformanceRow
  pub email : String
  pub name : String
  pub amount : Num
  pub investor_id : Option String
  pub entry_id : Option String
  pub nav_snapshot : Option PerformanceRow
  pub uuid : String
  pub today : String
  pub secret : Option String

abbrev pub same_snapshot : PerformanceRow → PerformanceRow → Bool
same_snapshot a b =
    same_text? a.source_invocation_id b.source_invocation_id
    && same_num a.nav_per_unit b.nav_per_unit

abbrev pub snapshot_conflicts : Option PerformanceRow → PerformanceRow → Bool
snapshot_conflicts none authoritative = false
snapshot_conflicts (some row) authoritative = not (same_snapshot row authoritative)

abbrev pub as_request : WithdrawalRequest → Num → Request
as_request r nav = record {
  ledger = r.ledger;
  performance_history = r.performance_history;
  email = r.email;
  name = r.name;
  amount = r.amount;
  is_withdrawal = true;
  is_seed_owner = false;
  investor_id = r.investor_id;
  is_existing_capital_attribution = false;
  existing_capital_nav_per_unit = none;
  pricing_nav_per_unit = some nav;
  entry_id = r.entry_id;
  uuid = r.uuid;
  today = r.today;
  secret = r.secret;
}

abbrev pub or_authoritative : Option PerformanceRow → PerformanceRow → PerformanceRow
or_authoritative none authoritative = authoritative
or_authoritative (some row) authoritative = row

unfoldable pub prepare_signed_withdrawal_ledger_entry :
    Crypto → WithdrawalRequest → Outcome PricingError (PerformanceRow × EntryResult)
prepare_signed_withdrawal_ledger_entry crypto r = do
  authoritative ← select_signed_withdrawal_nav r.performance_history
  throw_if (snapshot_conflicts r.nav_snapshot authoritative) snapshot_mismatch
  let snapshot = or_authoritative r.nav_snapshot authoritative
  elim (calculate_investor_ledger_entry crypto (as_request r snapshot.nav_per_unit)) [
    | ok result ↦ ok (snapshot, result)
    | thrown e ↦ thrown (entry_refused e)
  ]

-- A missing or empty key is never recorded.
unfoldable pub withdrawal_commit_already_recorded : List Entry → Option String → Bool
withdrawal_commit_already_recorded ledger none = false
withdrawal_commit_already_recorded ledger (some id) =
    not (is_empty id) && any (names_operation id) ledger
