-- ===== src/Risk/Breaker.antt =====
-- lib/circuit-breaker.js.
use portfolio_manager.Base.{
  ℕ, ◌-◌, ◌*◌, String, Bool, true, false, Option, none, some, List, [], ◌∷◌, if◌then◌else◌, or_else,
  length, ltb, get_last?,
}
use Prim.Native.Nat.{max}
use portfolio_manager.Base.Int.{ℤ, pos, ◌-ℤ◌, ◌*ℤ◌, ltb_ℤ, leb_ℤ, max_ℤ}
use portfolio_manager.Base.Money.{Num, nano, cent_grains, round_div}
use portfolio_manager.Base.Text.{◌=s=◌, is_date, trim, ltb_str}

pub data Tier : Type 0 where
  unrestricted reduce no_new_buys exits_only halt unknown : Tier

-- The value of `Number.isFinite(x) && x > 0`, with the number.
abbrev pub positive? : Num → Num
positive? none = none
positive? (some x) = if ltb_ℤ (pos 0) x then some x else none

-- `drawdownPct >= t`, for a drawdown of `loss / hwm * 100` percent, multiplied out.
unfoldable pub drawdown_reaches : ℕ → ℤ → ℤ → Bool
drawdown_reaches t loss hwm = leb_ℤ (pos t *ℤ hwm) (pos 100 *ℤ loss)

-- `TIERS.find(...)`, the table from the top
unfoldable pub tier_of : ℤ → ℤ → Tier
tier_of loss hwm =
    if drawdown_reaches 20 loss hwm
    then halt
    else if drawdown_reaches 15 loss hwm
    then exits_only
    else if drawdown_reaches 12 loss hwm
    then no_new_buys
    else if drawdown_reaches 8 loss hwm
    then reduce
    else unrestricted

-- `drawdown_pct` is rounded to two places, and counts grains.
pub record Assessment : Type 0 where
  pub tier : Tier
  pub drawdown_pct : Option ℤ
  pub high_water_mark : Num

abbrev divisor : ℤ → ℕ
divisor (pos n) = n
divisor _ = 0

-- `Math.round((loss / hwm) * 100 * 100) / 100`
unfoldable pub drawdown_rounded : ℤ → ℤ → ℤ
drawdown_rounded loss hwm = round_div (pos 10_000 *ℤ loss) (divisor hwm) *ℤ pos cent_grains

-- On the positive observation, if there is one.
unfoldable pub assess_from : Num → Num → Assessment
assess_from none high_water_mark = record {
  tier = unknown;
  drawdown_pct = none;
  high_water_mark = high_water_mark;
}
assess_from (some now) high_water_mark =
    let hwm = max_ℤ now (or_else high_water_mark (pos 0)) in
    record {
      tier = tier_of (hwm -ℤ now) hwm;
      drawdown_pct = some (drawdown_rounded (hwm -ℤ now) hwm);
      high_water_mark = some hwm;
    }

-- A `current` that is null, not finite or not positive is refused.
unfoldable pub assess_circuit_breaker : Num → Num → Assessment
assess_circuit_breaker current high_water_mark = assess_from (positive? current) high_water_mark

pub record Restricted : Type 0 where
  pub allowed : Bool
  pub amount_dollars : ℤ

abbrev pass : ℤ → Restricted
pass amount = record { allowed = true; amount_dollars = amount }

abbrev block : Restricted
block = record { allowed = false; amount_dollars = pos 0 }

-- `Math.round((amountDollars / 2) * 100) / 100`
unfoldable pub halved : ℤ → ℤ
halved amount = round_div amount (2 * cent_grains) *ℤ pos cent_grains

-- The notes, which are texts for the log, are left out.
unfoldable pub apply_breaker_to_proposal : Tier → String → ℤ → Restricted
apply_breaker_to_proposal unrestricted side amount = pass amount
apply_breaker_to_proposal reduce side amount =
    if side =s= "BUY"
    then record { allowed = ltb_ℤ (pos 0) (halved amount); amount_dollars = halved amount }
    else pass amount
apply_breaker_to_proposal no_new_buys side amount = if side =s= "BUY" then block else pass amount
apply_breaker_to_proposal exits_only side amount = if side =s= "BUY" then block else pass amount
apply_breaker_to_proposal halt side amount = block
apply_breaker_to_proposal unknown side amount = if side =s= "BUY" then block else pass amount

-- What Redis keeps of the last run, if its basis is `navPerUnit`.
pub record StoredMark : Type 0 where
  pub value : Num
  pub daily_rows : Option ℕ

pub data Issue : Type 0 where
  ledger_high_water_mark_decreased signed_daily_row_count_decreased : Issue

pub record Reconciled : Type 0 where
  pub high_water_mark : Num
  pub daily_rows : Option ℕ
  pub observed_daily_rows : Option ℕ
  pub ledger_high_water_mark : Num
  pub issues : List Issue

-- The larger of two numbers of which either may be invalid.
abbrev pub larger : Num → Num → Num
larger none b = b
larger (some a) none = some a
larger (some a) (some b) = some (max_ℤ a b)

abbrev pub larger_count : Option ℕ → Option ℕ → Option ℕ
larger_count none b = b
larger_count (some a) none = some a
larger_count (some a) (some b) = some (max a b)

abbrev fell : Num → Num → Bool
fell (some stored) (some ledger) = ltb_ℤ ledger (stored -ℤ nano)
fell _ _ = false

abbrev count_fell : Option ℕ → Option ℕ → Bool
count_fell (some stored) (some observed) = ltb observed stored
count_fell _ _ = false

abbrev issue_if : Bool → Issue → List Issue → List Issue
issue_if true i is = i ∷ is
issue_if false i is = is

-- A row count is `none` where it is no integer of zero or more; a stored record of another basis
-- is `none`. The alert key and the flag made from it, which are texts, are left out.
unfoldable pub reconcile_nav_high_water_mark : Num → Option ℕ → Option StoredMark → Reconciled
reconcile_nav_high_water_mark ledger_mark observed stored =
    let ledger = positive? ledger_mark in
    let kept : Num = elim stored [ none ↦ none | some s ↦ positive? s.value ] in
    let kept_rows : Option ℕ = elim stored [ none ↦ none | some s ↦ s.daily_rows ] in
    record {
      high_water_mark = larger kept ledger;
      daily_rows = larger_count kept_rows observed;
      observed_daily_rows = observed;
      ledger_high_water_mark = ledger;
      issues =
          issue_if (fell kept ledger) ledger_high_water_mark_decreased
            (issue_if (count_fell kept_rows observed) signed_daily_row_count_decreased []);
    }

-- A row of the Performance sheet, as far as the breaker and the pricing of capital read it.
pub record PerformanceRow : Type 0 where
  pub date : String
  pub nav_per_unit : Num
  pub portfolio_value : Num
  pub units_outstanding : Num
  pub source_invocation_id : Option String

pub record DailyRow : Type 0 where
  pub date : String
  pub nav_per_unit : ℤ
  pub units_outstanding : ℤ

-- `latestByDate.set(date, row)`, with the dates in order as the sort leaves them.
unfoldable pub set_by_date : DailyRow → List DailyRow → List DailyRow
set_by_date r [] = r ∷ []
set_by_date r (m ∷ ms) =
    if r.date =s= m.date
    then r ∷ ms
    else if ltb_str r.date m.date
    then r ∷ (m ∷ ms)
    else m ∷ set_by_date r ms

-- The row that an entry sets, if it is eligible.
unfoldable pub eligible : PerformanceRow → Option DailyRow
eligible entry = elim (positive? entry.nav_per_unit) [
  | none ↦ none
  | some nav ↦ elim (positive? entry.units_outstanding) [
    | none ↦ none
    | some units ↦
        if is_date (trim entry.date)
        then some (record { date = trim entry.date; nav_per_unit = nav; units_outstanding = units })
        else none
  ]
]

unfoldable pub add_entry : List DailyRow → PerformanceRow → List DailyRow
add_entry rows entry = elim (eligible entry) [ none ↦ rows | some r ↦ set_by_date r rows ]

unfoldable pub daily_rows : List DailyRow → List PerformanceRow → List DailyRow
daily_rows rows [] = rows
daily_rows rows (e ∷ es) = daily_rows (add_entry rows e) es

pub record Basis : Type 0 where
  pub current : Num
  pub high_water_mark : Num
  pub current_date : Option String
  pub row_count : ℕ
  pub ignored_rows : ℕ

abbrev pub max_nav : List DailyRow → Num
max_nav [] = none
max_nav (r ∷ rs) = larger (some r.nav_per_unit) (max_nav rs)

unfoldable pub derive_daily_nav_breaker_basis : List PerformanceRow → Basis
derive_daily_nav_breaker_basis entries =
    let rows = daily_rows [] entries in
    elim (get_last? rows) [
      | none ↦ record {
        current = none;
        high_water_mark = none;
        current_date = none;
        row_count = 0;
        ignored_rows = length entries;
      }
      | some last ↦ record {
        current = some last.nav_per_unit;
        high_water_mark = max_nav rows;
        current_date = some last.date;
        row_count = length rows;
        ignored_rows = length entries - length rows;
      }
    ]
