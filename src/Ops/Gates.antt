-- ===== src/Ops/Gates.antt =====
-- lib/data-gates.js: whether the data about a stock is there, fresh, and liquid enough.
use portfolio_manager.Base.{
  ℕ, ◌+◌, ◌-◌, ◌*◌, ◌/◌, Bool, true, false, not, ◌&&◌, ◌||◌, Option, List, [], ◌∷◌, ◌++◌, length,
  if◌then◌else◌, or_else,
}
use portfolio_manager.Base.Int.{ℤ, pos, ◌-ℤ◌, ltb_ℤ}
use portfolio_manager.Base.Money.{whole}

-- A value of the input: null, NaN, or a number.
pub data Reading : Type 0 where
  absent nan : Reading
  reading : ℤ → Reading

pub data Field : Type 0 where
  price trailing_eps forward_eps margin_trend rsi recent_bars market_cap avg_dollar_volume : Field

-- `last_bar` and `now` are times in milliseconds.
pub record GateInput : Type 0 where
  pub price_value : Reading
  pub trailing_eps_value : Reading
  pub forward_eps_value : Reading
  pub gross_margins : Reading
  pub profit_margins : Reading
  pub rsi_value : Reading
  pub last_bar : Reading
  pub market_cap_value : Reading
  pub avg_dollar_volume_value : Reading

pub record GateOptions : Type 0 where
  pub micro_cap_floor : Option ℤ
  pub now : ℤ
  pub max_bar_age_days : ℕ

pub data Reason : Type 0 where
  missing_data stale_bars thin_volume : Reason

pub record Gates : Type 0 where
  pub ok_to_trade : Bool
  pub stale : Bool
  pub missing : List Field
  pub reasons : List Reason
  pub available_data_score : ℕ

-- `requirePresent`: null and NaN are missing.
unfoldable pub require_present : Reading → Field → List Field
require_present absent f = f ∷ []
require_present nan f = f ∷ []
require_present (reading v) f = []

-- `x == null`, of which NaN is not one
abbrev pub is_null : Reading → Bool
is_null absent = true
is_null nan = false
is_null (reading v) = false

-- `x < limit`, which is false of NaN
abbrev pub is_below : Reading → ℤ → Bool
is_below (reading v) limit = ltb_ℤ v limit
is_below absent limit = false
is_below nan limit = false

abbrev pub missing_if : Bool → Field → List Field
missing_if true f = f ∷ []
missing_if false f = []

-- `ageDays > maxBarAgeDays`, in milliseconds
unfoldable pub is_stale : GateOptions → Reading → Bool
is_stale o (reading t) = ltb_ℤ (pos (o.max_bar_age_days * 86_400_000)) (o.now -ℤ t)
is_stale o absent = false
is_stale o nan = false

abbrev pub microcap_ceiling : ℤ
microcap_ceiling = whole 300_000_000

unfoldable pub is_micro_cap : GateInput → Bool
is_micro_cap i = is_below i.market_cap_value microcap_ceiling

unfoldable pub volume_floor : GateOptions → ℤ
volume_floor o = or_else o.micro_cap_floor (whole 3_000_000)

unfoldable pub missing_fields : GateInput → List Field
missing_fields i =
    require_present i.price_value price
    ++ (require_present i.trailing_eps_value trailing_eps
        ++ (require_present i.forward_eps_value forward_eps
            ++ (missing_if (is_null i.gross_margins && is_null i.profit_margins) margin_trend
                ++ (require_present i.rsi_value rsi
                    ++ (missing_if (is_null i.last_bar) recent_bars
                        ++ (missing_if (is_null i.market_cap_value) market_cap
                            ++ missing_if (is_micro_cap i && is_null i.avg_dollar_volume_value)
                                avg_dollar_volume))))))

abbrev pub reason_if : Bool → Reason → List Reason
reason_if true r = r ∷ []
reason_if false r = []

unfoldable pub is_thin : GateOptions → GateInput → Bool
is_thin o i = is_micro_cap i && is_below i.avg_dollar_volume_value (volume_floor o)

abbrev pub is_none_of {ℓ} : {A : Type ℓ} → List A → Bool
is_none_of [] = true
is_none_of (x ∷ xs) = false

-- Seven fields are required of every stock, and the volume of a micro-cap if it is null or below the floor.
unfoldable pub required_count : GateOptions → GateInput → ℕ
required_count o i =
    if is_micro_cap i && is_null i.avg_dollar_volume_value || is_thin o i then 8 else 7

-- `Math.round((required - missing) / required * 100)`, no field being listed twice
unfoldable pub data_score : ℕ → ℕ → ℕ
data_score required missing = (200 * (required - missing) + required) / (2 * required)

unfoldable pub evaluate_data_gates : GateInput → GateOptions → Gates
evaluate_data_gates i o =
    let missing = missing_fields i in
    let stale = is_stale o i.last_bar in
    let found = reason_if stale stale_bars ++ reason_if (is_thin o i) thin_volume in
    let reasons = reason_if (not (is_none_of missing)) missing_data ++ found in
    record {
      ok_to_trade = is_none_of missing && not stale && is_none_of reasons;
      stale = stale;
      missing = missing;
      reasons = reasons;
      available_data_score = data_score (required_count o i) (length missing);
    }
