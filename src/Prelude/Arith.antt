-- ===== src/Prelude/Arith.antt =====
-- Division with rounding, as the amounts of the components use it.
use Prim.Native.Nat.{ℕ, ◌*◌, ◌/◌, ◌≤◌, ◌<◌}
use native.Mathlib.Omega.{arith}
use native.Mathlib.Nat.{
  le_trans, le-div_iff_mul-le, div-mul-le_self, div-le_of_le-mul, mul-le-mul_right,
}

pub div_mono : (k m n : ℕ) → 0 < k → m ≤ n → m / k ≤ n / k
div_mono k m n p h = (le-div_iff_mul-le p).1 (le_trans (div-mul-le_self m k) h)

-- A fraction of an amount is at most the amount.
pub share-le : (m a b : ℕ) → a ≤ b → m * a / b ≤ m
share-le m a b h = div-le_of_le-mul b (grind arith)

-- The quotient is the largest number whose multiple fits.
pub le-div : (k x y : ℕ) → 0 < k → x * k ≤ y → x ≤ y / k
le-div k x y p h = (le-div_iff_mul-le p).1 h

pub div-mul-le : (k y : ℕ) → y / k * k ≤ y
div-mul-le k y = div-mul-le_self y k

pub mul_mono : (k m n : ℕ) → m ≤ n → m * k ≤ n * k
mul_mono k m n h = mul-le-mul_right k h
