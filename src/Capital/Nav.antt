-- ===== src/Capital/Nav.antt =====
-- lib/contribution-nav.js: the one signed close that may price a capital entry.
use Prim.Native.String.{◌++◌ as str_append}
use portfolio_manager.Base.{
  String, Bool, false, not, ◌&&◌, none, some, List, [], ◌∷◌, filter, any, map, if◌then◌else◌,
  is_some, Outcome, ok, thrown, ◌>>◌, throw_if,
}
use portfolio_manager.Base.Text.{◌=s=◌, ltb_str, trim, is_date}
use portfolio_manager.Risk.Breaker.{PerformanceRow, positive?}

pub data NavError : Type 0 where
  bad_date no_snapshot multiple_snapshots invalid_snapshot no_prior_date no_history no_close :
      NavError

-- `${date}/${NAV_SLOT_ET}`
unfoldable pub slot_of : String → String
slot_of date = str_append date "/16:30"

-- `row?.sourceInvocationId === id`
unfoldable pub has_source : String → PerformanceRow → Bool
has_source id row = elim row.source_invocation_id [ none ↦ false | some s ↦ s =s= id ]

-- The row names its date, and its three numbers are positive.
unfoldable pub is_valid_close : String → PerformanceRow → Bool
is_valid_close date row =
    row.date =s= date
    && is_some (positive? row.nav_per_unit)
    && is_some (positive? row.portfolio_value)
    && is_some (positive? row.units_outstanding)

-- On the rows that match: there is one, and it is valid.
unfoldable pub the_only_close : String → List PerformanceRow → Outcome NavError PerformanceRow
the_only_close date [] = thrown no_snapshot
the_only_close date (row ∷ []) = if is_valid_close date row then ok row else thrown invalid_snapshot
the_only_close date (row ∷ (row' ∷ rows)) = thrown multiple_snapshots

unfoldable pub select_contribution_nav_snapshot :
    List PerformanceRow → String → Outcome NavError PerformanceRow
select_contribution_nav_snapshot history date = do
  let target = trim date
  throw_if (not (is_date target)) bad_date
  the_only_close target (filter (has_source (slot_of target)) history)

-- `[...new Set(dates)].sort(descending)`, as insertion
unfoldable pub insert_date : String → List String → List String
insert_date d [] = d ∷ []
insert_date d (e ∷ es) =
    if d =s= e then e ∷ es else if ltb_str e d then d ∷ (e ∷ es) else e ∷ insert_date d es

unfoldable pub dates_descending : List String → List String
dates_descending [] = []
dates_descending (d ∷ ds) = insert_date d (dates_descending ds)

abbrev pub row_date : PerformanceRow → String
row_date row = row.date

unfoldable pub prior_dates : List PerformanceRow → String → List String
prior_dates history target =
    dates_descending (filter (λ d. is_date d && ltb_str d target) (map row_date history))

abbrev pub price_first : List PerformanceRow → List String → Outcome NavError PerformanceRow
price_first history [] = thrown no_prior_date
price_first history (d ∷ ds) = select_contribution_nav_snapshot history d

-- The latest date before the deposit; its close prices the deposit or nothing does.
unfoldable pub select_pre_deposit_contribution_nav :
    List PerformanceRow → String → Outcome NavError PerformanceRow
select_pre_deposit_contribution_nav history deposit_date = do
  let target = trim deposit_date
  throw_if (not (is_date target)) bad_date
  price_first history (prior_dates history target)

unfoldable pub all_dates : List PerformanceRow → List String
all_dates history = dates_descending (filter is_date (map row_date history))

-- The loop of `selectLatestContributionNav`: the first date that has a close decides.
unfoldable pub first_close : List PerformanceRow → List String → Outcome NavError PerformanceRow
first_close history [] = thrown no_close
first_close history (d ∷ ds) =
    if any (has_source (slot_of d)) history
    then select_contribution_nav_snapshot history d
    else first_close history ds

unfoldable pub select_latest_contribution_nav :
    List PerformanceRow → Outcome NavError PerformanceRow
select_latest_contribution_nav history = elim (all_dates history) [
  | [] ↦ thrown no_history
  | d ∷ ds ↦ first_close history (d ∷ ds)
]
