-- ===== src/Capital/PreDeposit.antt =====
-- lib/contribution-nav.js: which close prices an entry.
use portfolio_manager.Base.{
  and_split, ◌≡◌, refl, ap, sym, ◌∙◌, String, Bool, true, false, not, ◌&&◌, List, [], ◌∷◌, filter,
  map, All, All-imp, filter-All, Bool-cases, inl, inr, arith, Outcome, ok, thrown, throw_if,
  >>=-eq-ok, ok-injective, if◌then◌else◌,
}
use mathlib.Core.Path.{subst}
use text.Mathlib.TextEquality.{eq_iff}
use portfolio_manager.Base.Dates.{trim_date}
use portfolio_manager.Base.Text.{◌=s=◌, ltb_str, trim, is_date, ltb_str_asym, ltb_str_ge_trans}
use portfolio_manager.Risk.Breaker.{PerformanceRow}
use portfolio_manager.Capital.Nav.{
  NavError, bad_date, invalid_snapshot, price_first, slot_of, has_source, is_valid_close,
  the_only_close, select_contribution_nav_snapshot, insert_date, dates_descending, row_date,
  prior_dates, select_pre_deposit_contribution_nav,
}

-- The one row under the slot of a date, and its numbers are positive.
pub record OnlyClose (history : List PerformanceRow) (date : String) (row : PerformanceRow)
    : Type 0 where
  pub only : filter (has_source (slot_of date)) history ≡ row ∷ []
  pub valid : is_valid_close date row ≡ true

if-eq-ok :
    (b : Bool) (e : NavError) {x y : PerformanceRow}
    → ◌≡◌ {A = Outcome NavError PerformanceRow} (if b then ok x else thrown e) (ok y)
    → (x ≡ y) × (b ≡ true)
if-eq-ok true e h = (ok-injective h, refl)
if-eq-ok false e h = cc

the_only_close-eq-ok :
    (date : String) (rows : List PerformanceRow) {row : PerformanceRow}
    → the_only_close date rows ≡ ok row
    → (rows ≡ row ∷ []) × (is_valid_close date row ≡ true)
unfolding the_only_close
the_only_close-eq-ok date [] h = cc
the_only_close-eq-ok date (r ∷ []) h =
    let k = if-eq-ok (is_valid_close date r) invalid_snapshot h in
    (ap (λ x. x ∷ []) k.0, rw⁻¹ k.0 k.1)
the_only_close-eq-ok date (r ∷ (r' ∷ rows)) h = cc

module _ (P : String → Type 0) where
  insert_date-All : (d : String) (es : List String) → P d → All P es → All P (insert_date d es)
  unfolding insert_date
  insert_date-All d [] p ps = (p, tt)
  insert_date-All d (e ∷ es) p ps = ground (arith, insert_date-All d es)

  dates_descending-All : (ds : List String) → All P ds → All P (dates_descending ds)
  unfolding dates_descending
  dates_descending-All [] ps = tt
  dates_descending-All (d ∷ ds) ps =
      insert_date-All d (dates_descending ds) ps.0 (dates_descending-All ds ps.1)

valid_date :
    (date : String) (row : PerformanceRow) → is_valid_close date row ≡ true → row.date ≡ date
unfolding is_valid_close
valid_date date row h = ground (arith, eq_iff row.date date)

irreflexive : (d : String) → ltb_str d d ≡ false
irreflexive d = elim (Bool-cases (ltb_str d d)) [ inl e ↦ ltb_str_asym d d e | inr e ↦ e ]

-- No date comes after the first of the list.
abbrev Latest : String → List String → Type 0
Latest t ds = All (λ x. ltb_str t x ≡ false) ds

abbrev Heads : List String → List String → Type 0
Heads [] ds = ds ≡ []
Heads (t ∷ ts) ds = Latest t ds

insert_date-Heads :
    (d : String) (es ds : List String) → Heads es ds → Heads (insert_date d es) (d ∷ ds)
unfolding insert_date
insert_date-Heads d [] ds h = (irreflexive d, rw h tt)
insert_date-Heads d (e ∷ es) ds h = elim (Bool-cases (d =s= e)) [
  | inl k ↦ rw k (rw ((eq_iff d e).0 k) (irreflexive e), h)
  | inr k ↦ elim (Bool-cases (ltb_str e d)) [
    | inl l ↦
        rw (k, l) (irreflexive d, All-imp (λ x. ltb_str_ge_trans d e x (ltb_str_asym e d l)) ds h)
    | inr l ↦ rw (k, l) (l, h)
  ]
]

dates_descending-Heads : (ds : List String) → Heads (dates_descending ds) ds
unfolding dates_descending
dates_descending-Heads [] = refl
dates_descending-Heads (d ∷ ds) =
    insert_date-Heads d (dates_descending ds) ds (dates_descending-Heads ds)

-- What is known of the row that prices a deposit.
pub record PricesDeposit (history : List PerformanceRow) (deposit : String) (row : PerformanceRow)
    : Type 0 where
  pub before : ltb_str row.date (trim deposit) ≡ true
  pub latest :
      Latest row.date (filter (λ d. is_date d && ltb_str d (trim deposit)) (map row_date history))
  pub close : OnlyClose history row.date row

select-OnlyClose :
    (history : List PerformanceRow) (d : String) {row : PerformanceRow}
    → is_date d ≡ true
    → select_contribution_nav_snapshot history d ≡ ok row
    → (row.date ≡ d) × OnlyClose history row.date row
unfolding select_contribution_nav_snapshot
select-OnlyClose history d {row = row} date h =
    let checked = >>=-eq-ok (throw_if (not (is_date (trim d))) bad_date) _ h in
    let found = the_only_close-eq-ok (trim d) _ checked.2 in
    let same = valid_date (trim d) row found.1 ∙ trim_date d date in
    (
      same,
      subst (λ x. OnlyClose history x row) (sym (valid_date (trim d) row found.1))
          (record { only = found.0; valid = found.1 }),
    )

prior_dates-eq-cons :
    (history : List PerformanceRow) (target : String) {d : String} {ds : List String}
    → prior_dates history target ≡ d ∷ ds
    → (is_date d && ltb_str d target ≡ true)
      × Latest d (filter (λ d. is_date d && ltb_str d target) (map row_date history))
unfolding prior_dates
prior_dates-eq-cons history target e =
    let kept = filter (λ d. is_date d && ltb_str d target) (map row_date history) in
    let passed =
      dates_descending-All (λ d. is_date d && ltb_str d target ≡ true) kept
        (filter-All _ (map row_date history)) in
    let heads = dates_descending-Heads kept in
    (
      (subst (All (λ d. is_date d && ltb_str d target ≡ true)) e passed).0,
      subst (λ l. Heads l kept) e heads,
    )

price_first-eq-ok :
    (history : List PerformanceRow) (dates : List String) {row : PerformanceRow}
    → price_first history dates ≡ ok row
    → (d : String) × ((ds : List String) × ((dates ≡ d ∷ ds)
          × (select_contribution_nav_snapshot history d ≡ ok row)))
price_first-eq-ok history [] h = cc
price_first-eq-ok history (d ∷ ds) h = (d, (ds, (refl, h)))

-- The close that prices a deposit is that of the latest date before the deposit on which the
-- history has a row; it is the only row under its slot, and its three numbers are positive.
pub select_pre_deposit_contribution_nav-PricesDeposit :
    (history : List PerformanceRow) (deposit : String) (row : PerformanceRow)
    → select_pre_deposit_contribution_nav history deposit ≡ ok row
    → PricesDeposit history deposit row
unfolding select_pre_deposit_contribution_nav
select_pre_deposit_contribution_nav-PricesDeposit history deposit row h =
    let checked = >>=-eq-ok (throw_if (not (is_date (trim deposit))) bad_date) _ h in
    let first = price_first-eq-ok history _ checked.2 in
    let prior = prior_dates-eq-cons history (trim deposit) first.1.1.0 in
    let test = and_split prior.0 in
    let close = select-OnlyClose history first.0 test.0 first.1.1.1 in
    record { before = rw close.0 test.1; latest = rw close.0 prior.1; close = close.1 }
