-- ===== src/Lots/Closure.antt =====
-- lib/lot-reconciliation.js: closing a lot whose shares the broker no longer reports. The arrays
-- may be missing; the rows of the arrays are not.
use portfolio_manager.Base.{
  ℕ, String, Bool, true, false, not, ◌&&◌, ◌||◌, Option, none, some, List, [], ◌∷◌, find?, any,
  if◌then◌else◌, or_else, Outcome, ok, thrown, throw_if, ◌>>=◌, ◌>>◌,
}
use portfolio_manager.Base.Int.{ℤ, pos, ltb_ℤ, eqb_ℤ, ◌-ℤ◌}
use portfolio_manager.Base.Money.{Num, Number, not_a_number, below_all, above_all, finite}
use portfolio_manager.Base.Text.{◌=s=◌, is_empty, trim, to_upper}
use portfolio_manager.Records.Cells.{Cell, Conversions, cell_at, number_in, string_in}
use portfolio_manager.Lots.Lot.{Lot, closed, is_open}

-- `Number(row.shares) > 0`
abbrev pub exceeds_zero : Number → Bool
exceeds_zero not_a_number = false
exceeds_zero below_all = false
exceeds_zero above_all = true
exceeds_zero (finite n) = ltb_ℤ (pos 0) n

pub record Holding : Type 0 where
  pub ticker : Option String
  pub shares : Number

pub record QuoteSnapshot : Type 0 where
  pub quote_timestamp : Option String

-- What the script read of the broker, and the request for one lot. `now` is in milliseconds.
pub record ClosureRequest : Type 0 where
  pub lots : Option (List Lot)
  pub holdings : Option (List Holding)
  pub raw_rows : Option (List (List Cell))
  pub quote_snapshot : Option QuoteSnapshot
  pub lot_id : String
  pub expected_shares_open : Num
  pub now : ℤ

pub data ClosureError : Type 0 where
  arrays_missing lot_not_open residual_changed : ClosureError
  quote_invalid quote_stale projection_empty : ClosureError
  shares_unreadable still_reported : ClosureError

pub record Closure : Type 0 where
  pub original_lot : Lot
  pub updated_lot : Lot
  pub broker_shares : ℤ

abbrev pub max_broker_snapshot_age_ms : ℕ
max_broker_snapshot_age_ms = 43_200_000

-- Of a text, or of `""` where there is none.
abbrev pub normalized_ticker : String → String
normalized_ticker s = to_upper (trim s)

abbrev pub is_holding : String → Holding → Bool
is_holding wanted h = normalized_ticker (or_else h.ticker "") =s= wanted && exceeds_zero h.shares

-- The checks of a raw row of the ticker.
abbrev pub check_zero : Num → Outcome ClosureError (Unit {0})
check_zero none = thrown shares_unreadable
check_zero (some n) = throw_if (not (eqb_ℤ n (pos 0))) still_reported

-- An array that is there; for `holdings` it must also hold a row.
abbrev pub readable_array {ℓ} : {A : Type ℓ} → Option (List A) → Outcome ClosureError (List A)
readable_array none = thrown projection_empty
readable_array (some xs) = ok xs

abbrev pub filled_array {ℓ} : {A : Type ℓ} → Option (List A) → Outcome ClosureError (List A)
filled_array none = thrown projection_empty
filled_array (some []) = thrown projection_empty
filled_array (some (x ∷ xs)) = ok (x ∷ xs)

-- `lot.status === "OPEN"`, with shares that are positive; the shares of a lot are finite.
abbrev pub open_lot_found : Option Lot → Outcome ClosureError Lot
open_lot_found none = thrown lot_not_open
open_lot_found (some lot) =
    if is_open lot.status && ltb_ℤ (pos 0) lot.shares_open then ok lot else thrown lot_not_open

abbrev pub is_residual : Num → Lot → Bool
is_residual none lot = false
is_residual (some n) lot = ltb_ℤ (pos 0) n && eqb_ℤ lot.shares_open n

abbrev pub given_array {ℓ} : {A : Type ℓ} → Option (List A) → Outcome ClosureError (List A)
given_array none = thrown arrays_missing
given_array (some xs) = ok xs

-- The time of a timestamp; an empty text is refused with those that are no dates.
abbrev pub parsed_time : Bool → Option ℤ → Outcome ClosureError ℤ
parsed_time missing none = thrown quote_invalid
parsed_time missing (some t) = if missing then thrown quote_invalid else ok t

-- `date_parse` is `Date.parse`, with `none` for NaN.
module _ (date_parse : String → Option ℤ) where
  abbrev pub quote_time : Option QuoteSnapshot → Outcome ClosureError ℤ
  quote_time none = thrown quote_invalid
  quote_time (some q) =
      let text = or_else q.quote_timestamp "" in parsed_time (is_empty text) (date_parse text)

module _ (conv : Conversions) where
  abbrev pub is_row_of : String → List Cell → Bool
  is_row_of wanted row = normalized_ticker (string_in conv (cell_at 0 row)) =s= wanted

  unfoldable pub check_raw_rows : String → List (List Cell) → Outcome ClosureError (Unit {0})
  check_raw_rows wanted [] = ok tt
  check_raw_rows wanted (row ∷ rows) =
      (if is_row_of wanted row then check_zero (number_in conv (cell_at 2 row)) else ok tt)
      >> check_raw_rows wanted rows

module _ (conv : Conversions) (date_parse : String → Option ℤ) where
  -- What is returned is `brokerShares`; the snapshot is the caller's.
  unfoldable pub assert_broker_zero_holding_snapshot :
      ClosureRequest → String → Outcome ClosureError ℤ
  assert_broker_zero_holding_snapshot r ticker = do
    time ← quote_time date_parse r.quote_snapshot
    let age = r.now -ℤ time
    throw_if (ltb_ℤ age (pos 0) || ltb_ℤ (pos max_broker_snapshot_age_ms) age) quote_stale
    holdings ← filled_array r.holdings
    rows ← readable_array r.raw_rows
    let wanted = normalized_ticker ticker
    check_raw_rows conv wanted rows
    throw_if (any (is_holding wanted) holdings) still_reported
    ok (pos 0)

  unfoldable pub plan_broker_zero_lot_closure : ClosureRequest → Outcome ClosureError Closure
  plan_broker_zero_lot_closure r = do
    lots ← given_array r.lots
    holdings ← given_array r.holdings
    lot ← open_lot_found (find? (λ row. row.lot_id =s= r.lot_id) lots)
    throw_if (not (is_residual r.expected_shares_open lot)) residual_changed
    broker ← assert_broker_zero_holding_snapshot r lot.ticker
    ok (record {
      original_lot = lot;
      updated_lot = record lot { shares_open = pos 0; status = closed };
      broker_shares = broker;
    })
