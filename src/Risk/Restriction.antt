-- ===== src/Risk/Restriction.antt =====
-- What the breaker does to orders, by the drawdown (lib/circuit-breaker.js).
use portfolio_manager.Base.{ℕ, ◌≤◌, ◌*◌, String, true, false, ◌≡◌, ◌≢◌, refl, ◌↔◌, arith}
use portfolio_manager.Base.Int.{pos, ◌*ℤ◌, ◌≤ℤ◌}
use portfolio_manager.Base.Money.{round_div}
use portfolio_manager.Risk.Breaker.{
  Tier, unrestricted, reduce, no_new_buys, exits_only, halt, unknown, drawdown_reaches, tier_of,
  apply_breaker_to_proposal, halved,
}

halved_le : (n : ℕ) → (pos 0 ≤ℤ halved (pos n)) × (halved (pos n) ≤ℤ pos n)
unfolding halved round_div ◌*ℤ◌
halved_le n = ground arith

-- Whatever the tier and the side, the breaker never enlarges an order of an amount that is not
-- negative, never makes it negative, and leaves a refused order no amount.
pub apply_breaker_restricts :
    (tier : Tier) (side : String) (n : ℕ)
    → let r = apply_breaker_to_proposal tier side (pos n) in
      (r.amount_dollars ≤ℤ pos n)
      × (pos 0 ≤ℤ r.amount_dollars)
      × (r.allowed ≡ false → r.amount_dollars ≡ pos 0)
unfolding apply_breaker_to_proposal
apply_breaker_restricts unrestricted side n = ground arith
apply_breaker_restricts reduce side n = ground (arith, halved_le n)
apply_breaker_restricts no_new_buys side n = ground arith
apply_breaker_restricts exits_only side n = ground arith
apply_breaker_restricts halt side n = ground arith
apply_breaker_restricts unknown side n = ground arith

-- The drawdown, as the comments of the source give it: losses of 8, 12, 15 and 20 percent.
abbrev pub severity : Tier → ℕ
severity unrestricted = 0
severity reduce = 1
severity no_new_buys = 2
severity exits_only = 3
severity halt = 4
severity unknown = 2

reaches_iff : (t l h : ℕ) → (drawdown_reaches t (pos l) (pos h) ≡ true) ↔ (t * h ≤ 100 * l)
unfolding drawdown_reaches ◌*ℤ◌
reaches_iff t l h = (λ e. ground arith, λ e. ground arith)

-- For a loss `l` from a mark `h`, neither negative, the tier is at its four levels of severity
-- exactly when the loss has reached 8, 12, 15 and 20 percent of the mark.
tier_of_thresholds :
    (l h : ℕ)
    → ((tier_of (pos l) (pos h) ≡ halt) ↔ (20 * h ≤ 100 * l))
      × ((3 ≤ severity (tier_of (pos l) (pos h))) ↔ (15 * h ≤ 100 * l))
      × ((2 ≤ severity (tier_of (pos l) (pos h))) ↔ (12 * h ≤ 100 * l))
      × ((1 ≤ severity (tier_of (pos l) (pos h))) ↔ (8 * h ≤ 100 * l))
unfolding tier_of
tier_of_thresholds l h =
    ground (arith, reaches_iff 20 l h, reaches_iff 15 l h, reaches_iff 12 l h, reaches_iff 8 l h)

tier_of_mono :
    (l m h : ℕ) → l ≤ m → severity (tier_of (pos l) (pos h)) ≤ severity (tier_of (pos m) (pos h))
unfolding tier_of
tier_of_mono l m h le = ground (
  arith,
  reaches_iff 20 l h,
  reaches_iff 15 l h,
  reaches_iff 12 l h,
  reaches_iff 8 l h,
  reaches_iff 20 m h,
  reaches_iff 15 m h,
  reaches_iff 12 m h,
  reaches_iff 8 m h,
)

severity_amount :
    (s t : Tier) (n : ℕ)
    → s ≢ unknown
    → severity s ≤ severity t
    → (apply_breaker_to_proposal t "BUY" (pos n)).amount_dollars
      ≤ℤ (apply_breaker_to_proposal s "BUY" (pos n)).amount_dollars
unfolding apply_breaker_to_proposal
severity_amount unrestricted t n k le = (apply_breaker_restricts t "BUY" n).0
severity_amount unknown t n k le = absurd (k refl)
severity_amount s unrestricted n k le = absurd (omega arith)
severity_amount reduce reduce n k le = omega arith
severity_amount s reduce n k le = absurd (omega arith)
severity_amount reduce t n k le = (halved_le n).0
severity_amount s t n k le = omega arith

tier_of_known : (l h : ℕ) → tier_of (pos l) (pos h) ≢ unknown
unfolding tier_of
tier_of_known l h = ground arith

-- A larger loss from the same mark, none of them negative, never lets a larger BUY through.
pub deeper_drawdown_buys_less :
    (l m h n : ℕ)
    → l ≤ m
    → (apply_breaker_to_proposal (tier_of (pos m) (pos h)) "BUY" (pos n)).amount_dollars
      ≤ℤ (apply_breaker_to_proposal (tier_of (pos l) (pos h)) "BUY" (pos n)).amount_dollars
deeper_drawdown_buys_less l m h n le =
    severity_amount (tier_of (pos l) (pos h)) (tier_of (pos m) (pos h)) n (tier_of_known l h)
      (tier_of_mono l m h le)
