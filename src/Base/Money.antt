-- ===== src/Base/Money.antt =====
-- Numbers. A finite JavaScript number is an integer of grains, 10^-14 of a unit, on which sums,
-- differences, products and comparisons are exact; `Num` adds the values that are not finite.
use Prim.Native.Nat.{ℕ, zero, suc, ◌%◌, ◌+◌, ◌-◌, ◌*◌, ◌/◌}
use mathlib.Core.Path.{◌≡◌}
use mathlib.Core.Option.{Option, none, some}
use native.Mathlib.Omega.{arith}
use portfolio_manager.Base.Int.{ℤ, pos, negsuc, pos_part, neg_part, ◌+ℤ◌, ◌*ℤ◌, ◌≤ℤ◌}

-- `none` is NaN, an infinity, or what `Number.isFinite` refuses because it is no number.
abbrev pub Num : Type 0
Num = Option ℤ

-- A number with its infinities, where the code compares before it asks whether it is finite.
pub data Number : Type 0 where
  not_a_number below_all above_all : Number
  finite : ℤ → Number

abbrev pub finite_part : Number → Num
finite_part not_a_number = none
finite_part below_all = none
finite_part above_all = none
finite_part (finite n) = some n

-- Grains in one unit, in a cent, in 1e-4, 1e-6, 1e-8, 1e-9.
abbrev pub unit_grains : ℕ
unit_grains = 100_000_000_000_000

abbrev pub cent_grains : ℕ
cent_grains = 1_000_000_000_000

abbrev pub round4_grains : ℕ
round4_grains = 10_000_000_000

abbrev pub share_grains : ℕ
share_grains = 1_000_000

abbrev pub micro : ℤ
micro = pos 100_000_000

abbrev pub nano : ℤ
nano = pos 100_000

abbrev pub whole : ℕ → ℤ
whole n = pos (n * unit_grains)

-- -n, as an integer
abbrev pub neg : ℕ → ℤ
neg zero = pos 0
neg (suc k) = negsuc k

-- `Math.round(a / q)`: the nearest integer, a tie upwards.
unfoldable pub round_div : ℤ → ℕ → ℤ
round_div (pos n) q = pos ((2 * n + q) / (2 * q))
round_div (negsuc n) q = neg ((2 * suc n + (q - 1)) / (2 * q))

-- The multiple of `q` that is nearest to `a`, a tie upwards.
unfoldable pub round_to : ℕ → ℤ → ℤ
round_to q (pos n) = pos ((2 * n + q) / (2 * q) * q)
round_to q (negsuc n) = neg ((2 * suc n + (q - 1)) / (2 * q) * q)

-- `Math.round(a * 100) / 100`
unfoldable pub round2 : ℤ → ℤ
unfolding round_to
round2 a = round_to cent_grains a

-- `Math.round(a * 10000) / 10000`
unfoldable pub round4 : ℤ → ℤ
unfolding round_to
round4 a = round_to round4_grains a

-- `Math.round(a * 1e8) / 1e8`
unfoldable pub round_shares : ℤ → ℤ
unfolding round_to
round_shares a = round_to share_grains a

-- A product of two numbers of grains counts grains of grains; this is its value to the cent.
unfoldable pub round2_product : ℤ → ℤ
unfolding round_div
round2_product p = round_div p (cent_grains * unit_grains) *ℤ pos cent_grains

-- Rounding to a cent moves a number by half a cent at most.
pub round2_near :
    (a : ℤ) → (round2 a ≤ℤ a +ℤ pos 500_000_000_000) × (a ≤ℤ round2 a +ℤ pos 500_000_000_000)
unfolding round2 ◌+ℤ◌
round2_near (pos n) = (ground arith, ground arith)
round2_near (negsuc n) = (ground arith, ground arith)

-- A number of shares in whole grains of 1e-8.
pub record IsShares (a : ℤ) : Type 0 where
  pub nonneg : neg_part a ≡ 0
  pub on_grid : pos_part a % 1_000_000 ≡ 0

pub round_shares_same : (a : ℤ) → IsShares a → round_shares a ≡ a
unfolding round_shares
round_shares_same (pos n) h = ground arith
round_shares_same (negsuc n) h = ground arith
