-- ===== src/Lots/ClosureSafety.antt =====
-- When the shares of a lot are written off (`planBrokerZeroLotClosure`).
use portfolio_manager.Base.{
  String, Bool, true, false, none, not, ◌&&◌, ◌||◌, Option, some, List, [], ◌∷◌, find?, any, All,
  if◌then◌else◌, or_else, Outcome, ok, thrown, throw_if, ◌≡◌, ◌≢◌, refl, sym, ap, >>=-eq-ok, passed,
  and_split, or_split, not-false, ok-injective,
}
use mathlib.Core.Path.{subst}
use portfolio_manager.Base.Int.{
  ℤ, pos, ltb_ℤ, eqb_ℤ, eqb_ℤ→eq, ltb_ℤ→lt, ltb_ℤ→ge, ◌-ℤ◌, ◌<ℤ◌, ◌≤ℤ◌,
}
use portfolio_manager.Base.Money.{Num}
use portfolio_manager.Base.Text.{◌=s=◌}
use portfolio_manager.Records.Cells.{Cell, Conversions, cell_at, number_in}
use portfolio_manager.Lots.Lot.{Lot, closed, LotStatus, still_open, is_open}
use portfolio_manager.Lots.Closure.{
  ClosureRequest, Closure, ClosureError, QuoteSnapshot, max_broker_snapshot_age_ms,
  normalized_ticker, is_holding, check_zero, readable_array, filled_array, open_lot_found,
  is_residual, given_array, quote_time, parsed_time, is_row_of, check_raw_rows,
  assert_broker_zero_holding_snapshot, plan_broker_zero_lot_closure, quote_stale, lot_not_open,
  still_reported, residual_changed,
}

-- The snapshot has a time, which is not after `now` and at most twelve hours before it.
abbrev pub Fresh : (String → Option ℤ) → Option QuoteSnapshot → ℤ → Type 0
Fresh date_parse snapshot now =
    (q : QuoteSnapshot) × (snapshot ≡ some q)
    × ((time : ℤ) × (date_parse (or_else q.quote_timestamp "") ≡ some time)
        × (pos 0 ≤ℤ now -ℤ time)
        × (now -ℤ time ≤ℤ pos max_broker_snapshot_age_ms))

-- A raw row that, if it is of the ticker, reports exactly zero shares.
abbrev pub ReportsZero : Conversions → String → List Cell → Type 0
ReportsZero conv wanted row =
    is_row_of conv wanted row ≡ true → number_in conv (cell_at 2 row) ≡ some (pos 0)

pub record SoldOut (conv : Conversions) (date_parse : String → Option ℤ) (r : ClosureRequest)
    (ticker : String) : Type 0 where
  pub fresh : Fresh date_parse r.quote_snapshot r.now
  pub projected : or_else r.holdings [] ≢ []
  pub rows_zero : All (ReportsZero conv (normalized_ticker ticker)) (or_else r.raw_rows [])
  pub none_held : any (is_holding (normalized_ticker ticker)) (or_else r.holdings []) ≡ false

pub record Closes (conv : Conversions) (date_parse : String → Option ℤ) (r : ClosureRequest)
    (c : Closure) : Type 0 where
  pub found : find? (λ row. row.lot_id =s= r.lot_id) (or_else r.lots []) ≡ some c.original_lot
  pub was_open : c.original_lot.status ≡ still_open
  pub had_shares : pos 0 <ℤ c.original_lot.shares_open
  pub expected : r.expected_shares_open ≡ some c.original_lot.shares_open
  pub sold_out : SoldOut conv date_parse r c.original_lot.ticker
  pub emptied : c.updated_lot ≡ record c.original_lot { shares_open = pos 0; status = closed }
  pub nothing_held : c.broker_shares ≡ pos 0

given_array-eq {ℓ} :
    {A : Type ℓ} (o : Option (List A)) (xs : List A) → given_array o ≡ ok xs → or_else o [] ≡ xs
given_array-eq none xs h = cc
given_array-eq (some ys) xs h = ok-injective h

readable_array-eq {ℓ} :
    {A : Type ℓ} (o : Option (List A)) (xs : List A) → readable_array o ≡ ok xs → or_else o [] ≡ xs
readable_array-eq none xs h = cc
readable_array-eq (some ys) xs h = ok-injective h

filled_array-eq {ℓ} :
    {A : Type ℓ} (o : Option (List A)) (xs : List A)
    → filled_array o ≡ ok xs
    → (or_else o [] ≡ xs) × (or_else o [] ≢ [])
filled_array-eq none xs h = cc
filled_array-eq (some []) xs h = cc
filled_array-eq (some (y ∷ ys)) xs h = (ok-injective h, λ e. cc e)

check_zero-eq : (n : Num) {u : Unit {0}} → check_zero n ≡ ok u → n ≡ some (pos 0)
check_zero-eq none h = cc
check_zero-eq (some n) h =
    ap some (eqb_ℤ→eq n (pos 0) (not-false (passed (not (eqb_ℤ n (pos 0))) still_reported h)))

accepted :
    {A : Type 0} (b : Bool) (x y : A) (e : ClosureError)
    → (if b then ok x else thrown e) ≡ ok y
    → (b ≡ true) × (x ≡ y)
accepted true x y e h = (refl, ok-injective h)
accepted false x y e h = cc

is_open-eq : (s : LotStatus) → is_open s ≡ true → s ≡ still_open
is_open-eq still_open h = refl
is_open-eq closed h = cc

open_lot_found-Open :
    (o : Option Lot) (lot : Lot)
    → open_lot_found o ≡ ok lot
    → (o ≡ some lot) × (lot.status ≡ still_open) × (pos 0 <ℤ lot.shares_open)
open_lot_found-Open none lot h = cc
open_lot_found-Open (some l) lot h =
    let Good : Lot → Type 0 = λ k. (k.status ≡ still_open) × (pos 0 <ℤ k.shares_open) in
    let a = accepted (is_open l.status && ltb_ℤ (pos 0) l.shares_open) l lot lot_not_open h in
    let both = and_split a.0 in
    let good = subst Good a.1 (is_open-eq l.status both.0, ltb_ℤ→lt (pos 0) l.shares_open both.1) in
    (ap some a.1, good.0, good.1)

is_residual-eq : (n : Num) (lot : Lot) → not (is_residual n lot) ≡ false → n ≡ some lot.shares_open
is_residual-eq none lot h = cc
is_residual-eq (some n) lot h =
    ap some (sym (eqb_ℤ→eq lot.shares_open n (and_split (not-false h)).1))

parsed_time-eq :
    (missing : Bool) (o : Option ℤ) (time : ℤ) → parsed_time missing o ≡ ok time → o ≡ some time
parsed_time-eq missing none time h = cc
parsed_time-eq true (some t) time h = cc
parsed_time-eq false (some t) time h = ap some (ok-injective h)

row_checked :
    (b : Bool) (call : Outcome ClosureError (Unit {0})) {u : Unit {0}}
    → b ≡ true
    → (if b then call else ok tt) ≡ ok u
    → call ≡ ok u
row_checked true call same h = h
row_checked false call same h = cc same

module _ (conv : Conversions) where
  check_raw_rows-zero :
      (wanted : String) (rows : List (List Cell)) {u : Unit {0}}
      → check_raw_rows conv wanted rows ≡ ok u
      → All (ReportsZero conv wanted) rows
  unfolding check_raw_rows
  check_raw_rows-zero wanted [] h = tt
  check_raw_rows-zero wanted (row ∷ rows) h =
      let first =
        >>=-eq-ok
          (if is_row_of conv wanted row then check_zero (number_in conv (cell_at 2 row)) else ok tt)
          _ h in
      let call : ReportsZero conv wanted row = λ same.
        check_zero-eq (number_in conv (cell_at 2 row))
          (row_checked (is_row_of conv wanted row) _ same first.1) in
      (call, check_raw_rows-zero wanted rows first.2)

module _ (conv : Conversions) (date_parse : String → Option ℤ) where
  quote_time-eq :
      (snapshot : Option QuoteSnapshot) (time : ℤ)
      → quote_time date_parse snapshot ≡ ok time
      → (q : QuoteSnapshot) × (snapshot ≡ some q)
        × (date_parse (or_else q.quote_timestamp "") ≡ some time)
  quote_time-eq none time h = cc
  quote_time-eq (some q) time h = (q, refl, parsed_time-eq _ _ time h)

  assert_broker_zero_holding_snapshot-SoldOut :
      (r : ClosureRequest) (ticker : String) (shares : ℤ)
      → assert_broker_zero_holding_snapshot conv date_parse r ticker ≡ ok shares
      → SoldOut conv date_parse r ticker × (shares ≡ pos 0)
  unfolding assert_broker_zero_holding_snapshot
  assert_broker_zero_holding_snapshot-SoldOut r ticker shares h =
      let timed = >>=-eq-ok (quote_time date_parse r.quote_snapshot) _ h in
      let age = r.now -ℤ timed.0 in
      let late =
        >>=-eq-ok
          (throw_if (ltb_ℤ age (pos 0) || ltb_ℤ (pos max_broker_snapshot_age_ms) age) quote_stale) _
          timed.2 in
      let held = >>=-eq-ok (filled_array r.holdings) _ late.2 in
      let rows = >>=-eq-ok (readable_array r.raw_rows) _ held.2 in
      let raw = >>=-eq-ok (check_raw_rows conv (normalized_ticker ticker) rows.0) _ rows.2 in
      let none_left =
        >>=-eq-ok (throw_if (any (is_holding (normalized_ticker ticker)) held.0) still_reported) _
          raw.2 in
      let q = quote_time-eq r.quote_snapshot timed.0 timed.1 in
      let in_time = or_split (passed _ quote_stale late.1) in
      let some_held = filled_array-eq r.holdings held.0 held.1 in
      (
        record {
          fresh = (
            q.0,
            q.1,
            (
              timed.0,
              q.2,
              ltb_ℤ→ge age (pos 0) in_time.0,
              ltb_ℤ→ge (pos max_broker_snapshot_age_ms) age in_time.1,
            ),
          );
          projected = some_held.1;
          rows_zero =
              rw (readable_array-eq r.raw_rows rows.0 rows.1)
                (check_raw_rows-zero conv (normalized_ticker ticker) rows.0 raw.1);
          none_held = rw some_held.0 (passed _ still_reported none_left.1);
        },
        sym (ok-injective none_left.2),
      )

  -- A lot is closed only if it is the first one under the id, is open and has exactly the
  -- positive number of shares that the request expects; the broker's snapshot is from the last
  -- twelve hours and not from the future, its holdings are not empty and none of them is of the
  -- lot's ticker with a positive number of shares, and every raw row of that ticker reports
  -- zero. The lot is then closed with no shares, and nothing else about it changes.
  pub plan_broker_zero_lot_closure-Closes :
      (r : ClosureRequest) (c : Closure)
      → plan_broker_zero_lot_closure conv date_parse r ≡ ok c
      → Closes conv date_parse r c
  unfolding plan_broker_zero_lot_closure
  plan_broker_zero_lot_closure-Closes r c h =
      let lots = >>=-eq-ok (given_array r.lots) _ h in
      let holdings = >>=-eq-ok (given_array r.holdings) _ lots.2 in
      let lot =
        >>=-eq-ok (open_lot_found (find? (λ row. row.lot_id =s= r.lot_id) lots.0)) _ holdings.2 in
      let residual =
        >>=-eq-ok (throw_if (not (is_residual r.expected_shares_open lot.0)) residual_changed) _
          lot.2 in
      let broker =
        >>=-eq-ok (assert_broker_zero_holding_snapshot conv date_parse r lot.0.ticker) _
          residual.2 in
      let o = open_lot_found-Open _ lot.0 lot.1 in
      let zero = assert_broker_zero_holding_snapshot-SoldOut r lot.0.ticker broker.0 broker.1 in
      subst (Closes conv date_parse r) (ok-injective broker.2) (record {
        found = rw (given_array-eq r.lots lots.0 lots.1) o.0;
        was_open = o.1;
        had_shares = o.2;
        expected =
            is_residual-eq r.expected_shares_open lot.0 (passed _ residual_changed residual.1);
        sold_out = zero.0;
        emptied = refl;
        nothing_held = zero.1;
      })
