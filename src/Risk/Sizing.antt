-- ===== src/Risk/Sizing.antt =====
-- lib/proposal-sizing.js. Dollars and percentages are numbers of grains. What the code divides
-- is kept as a fraction of grains, `num / den` with a positive `den`, and rounded to the cent once.
use portfolio_manager.Base.{
  ℕ, ◌*◌, String, Bool, true, false, not, ◌&&◌, ◌||◌, Option, none, some, List, any, if◌then◌else◌,
  or_else, ltb,
}
use portfolio_manager.Base.Int.{ℤ, pos, pos_part, ◌-ℤ◌, ◌*ℤ◌, ltb_ℤ, leb_ℤ, max_ℤ}
use portfolio_manager.Base.Money.{whole, round_div, cent_grains, unit_grains}
use portfolio_manager.Base.Text.{◌=s=◌}
use portfolio_manager.Lots.Attribution.{is_given}

pub data Action : Type 0 where
  buy sell hold : Action

-- The limits of an agent that sizing reads; a missing one is `none`.
pub record SizingLimits : Type 0 where
  pub min_cash_reserve_pct : Option ℤ
  pub percentage_sizing_min_portfolio_value : Option ℤ
  pub starter_portfolio_max_positions : Option ℤ
  pub starter_portfolio_cash_reserve_pct : Option ℤ

pub record SizingInput : Type 0 where
  pub action : Action
  pub target_weight_pct : Option ℤ
  pub total_portfolio_value : ℤ
  pub current_position_value : ℤ
  pub cash_available : Option ℤ

pub record Fraction : Type 0 where
  pub num : ℤ
  pub den : ℕ

pub record Sized : Type 0 where
  pub amount_dollars : ℤ
  pub clamped : Bool
  pub starter_sized : Bool
  pub cash_clamped : Bool

-- 100, in grains
abbrev pub hundred : ℕ
hundred = 100 * unit_grains

abbrev pub max_amount_dollars : ℤ
max_amount_dollars = whole 10_000

-- `x > y` for a fraction and a number
abbrev pub exceeds : Fraction → ℤ → Bool
exceeds x y = ltb_ℤ (y *ℤ pos x.den) x.num

abbrev pub of_dollars : ℤ → Fraction
of_dollars a = record { num = a; den = 1 }

-- `total * pct / 100`
unfoldable pub percent_of : ℤ → ℤ → Fraction
percent_of total pct = record { num = total *ℤ pct; den = hundred }

-- `Math.max(0, cash - total * reserve / 100)`
unfoldable pub deployable_cash : ℤ → SizingLimits → ℤ → Fraction
deployable_cash total limits cash =
    let reserve = max_ℤ (pos 0) (or_else limits.min_cash_reserve_pct (pos 0)) in
    record { num = max_ℤ (pos 0) (cash *ℤ pos hundred -ℤ total *ℤ reserve); den = hundred }

-- The starter allocation: `total * max(0, 1 - reserve / 100) / max(1, slots)`.
unfoldable pub starter_raw : ℤ → SizingLimits → Fraction
starter_raw total limits =
    let reserve =
      or_else limits.starter_portfolio_cash_reserve_pct
        (or_else limits.min_cash_reserve_pct (pos 0)) in
    let slots = max_ℤ (whole 1) (or_else limits.starter_portfolio_max_positions (whole 2)) in
    record {
      num = total *ℤ max_ℤ (pos 0) (pos hundred -ℤ reserve) *ℤ whole 1;
      den = hundred * pos_part slots;
    }

-- `((target - max(0, position) / total * 100) / 100) * total`, which is
-- `target * total / 100 - max(0, position)`.
unfoldable pub increment_raw : ℤ → ℤ → ℤ → Fraction
increment_raw total position target = record {
  num = target *ℤ total -ℤ max_ℤ (pos 0) position *ℤ pos hundred;
  den = hundred;
}

abbrev pub is_starter : SizingInput → SizingLimits → Bool
is_starter i limits =
    let threshold = or_else limits.percentage_sizing_min_portfolio_value (pos 0) in
    leb_ℤ i.current_position_value (pos 0)
    && ltb_ℤ (pos 0) threshold
    && ltb_ℤ i.total_portfolio_value threshold

-- `raw > y` for two fractions
abbrev pub above : Fraction → Fraction → Bool
above x y = ltb_ℤ (y.num *ℤ pos x.den) (x.num *ℤ pos y.den)

-- `Math.round(x * 100) / 100`
unfoldable pub round_fraction : Fraction → ℤ
round_fraction x = round_div x.num (x.den * cent_grains) *ℤ pos cent_grains

-- The last lines: nothing for what is not positive, and the cap of $10,000.
unfoldable pub finish : Fraction → Bool → Bool → Option Sized
finish raw starter cash_clamped =
    if leb_ℤ raw.num (pos 0)
    then none
    else (let clamped = exceeds raw max_amount_dollars in
        some (record {
          amount_dollars = round_fraction (if clamped then of_dollars max_amount_dollars else raw);
          clamped = clamped;
          starter_sized = starter;
          cash_clamped = cash_clamped;
        }))

-- The cash clamp of a BUY; a cash balance that is not known clamps nothing.
unfoldable pub clamp_to_cash : Option Fraction → Fraction → Bool → Option Sized
clamp_to_cash none raw starter = finish raw starter false
clamp_to_cash (some cash) raw starter =
    if above raw cash then finish cash starter true else finish raw starter false

abbrev pub no_cash : Option Fraction → Bool
no_cash none = false
no_cash (some cash) = leb_ℤ cash.num (pos 0)

unfoldable pub deployable : SizingInput → SizingLimits → Option Fraction
deployable i limits = elim i.cash_available [
  | none ↦ none
  | some cash ↦ some (deployable_cash i.total_portfolio_value limits cash)
]

unfoldable pub size_buy : SizingInput → SizingLimits → Option Sized
size_buy i limits =
    let cash = deployable i limits in
    let raw =
      increment_raw i.total_portfolio_value i.current_position_value
        (or_else i.target_weight_pct (pos 0)) in
    if leb_ℤ i.total_portfolio_value (pos 0)
    then none
    else if no_cash cash
    then none
    else if is_starter i limits
    then clamp_to_cash cash (starter_raw i.total_portfolio_value limits) true
    else if leb_ℤ raw.num (pos 0)
    then none
    else clamp_to_cash cash raw false

unfoldable pub size_by_action : Action → SizingInput → SizingLimits → Option Sized
size_by_action buy i limits = size_buy i limits
size_by_action sell i limits =
    if leb_ℤ i.current_position_value (pos 0)
    then none
    else finish (of_dollars i.current_position_value) false false
size_by_action hold i limits = none

unfoldable pub size_proposal_amount : SizingInput → SizingLimits → Option Sized
size_proposal_amount i limits = size_by_action i.action i limits

-- A proposal as the two re-queueing checks read it; `created_at` is `Date.parse` of
-- `createdAt ?? updatedAt`, in milliseconds, or `none` for NaN.
pub record QueuedProposal : Type 0 where
  pub agent_id : String
  pub ticker : String
  pub side : String
  pub status : String
  pub fulfilled_at : Option String
  pub created_at : Option ℕ

unfoldable pub is_open_for : String → String → String → QueuedProposal → Bool
is_open_for agent_id ticker side p =
    p.agent_id =s= agent_id
    && p.ticker =s= ticker
    && p.side =s= side
    && (p.status =s= "Pending"
        || p.status =s= "ApprovedForBrokerReview" && not (is_given p.fulfilled_at))

unfoldable pub has_open_proposal : List QueuedProposal → String → String → String → Bool
has_open_proposal proposals agent_id ticker side = any (is_open_for agent_id ticker side) proposals

-- The window starts at `now - cooldownDays * 24 * 60 * 60 * 1000`.
unfoldable pub is_recent_for : String → String → String → ℤ → QueuedProposal → Bool
is_recent_for agent_id ticker side cutoff p =
    p.agent_id =s= agent_id
    && p.ticker =s= ticker
    && p.side =s= side
    && (elim p.created_at [ none ↦ false | some ts ↦ leb_ℤ cutoff (pos ts) ])

unfoldable pub has_recent_proposal : List QueuedProposal → String → String → String → ℕ → ℕ → Bool
has_recent_proposal proposals agent_id ticker side cooldown_days now =
    if ltb 0 cooldown_days
    then any (is_recent_for agent_id ticker side (pos now -ℤ pos (cooldown_days * 86_400_000)))
        proposals
    else false
