-- ===== src/Prelude/Int.antt =====
-- Signed integers over the native numbers, under the library's names, and math/big's *big.Int.
use takapu_protocol_sdk.Prelude.Tests.{leb, ltb, if◌then◌else◌}
use Prim.Native.Nat.{ℕ, ◌+◌, ◌-◌, ◌<◌, ◌^◌}
use mathlib.Core.Path.{◌≡◌}
use mathlib.Core.Bool.{Bool, true, false}
use mathlib.Core.Option.{Option, none, some}
use native.Mathlib.Omega.{arith}

-- `negsuc n` is -(n + 1).
pub data ℤ : Type 0 where
  pos : ℕ → ℤ
  negsuc : ℕ → ℤ

-- A *big.Int: `none` is the nil pointer.
abbrev pub BigInt : Type 0
BigInt = Option ℤ

-- The number that a non-nil, nonnegative pointer holds. The code reaches such a read only after
-- the check that excludes the other cases, for which the value here is 0.
abbrev pub magnitude : BigInt → ℕ
magnitude (some (pos n)) = n
magnitude (some (negsuc n)) = 0
magnitude none = 0

-- `v == nil || v.Sign() < 0 || v.BitLen() > bits || (positive && v.Sign() == 0)`
abbrev pub out_of_range : ℕ → Bool → BigInt → Bool
out_of_range bits positive none = true
out_of_range bits positive (some (negsuc n)) = true
out_of_range bits true (some (pos n)) = if ltb 0 n then leb (2 ^ bits) n else true
out_of_range bits false (some (pos n)) = leb (2 ^ bits) n

pub out_of_range-false :
    (bits : ℕ) (v : BigInt) → out_of_range bits false v ≡ false → magnitude v < 2 ^ bits
out_of_range-false bits none h = cc
out_of_range-false bits (some (negsuc n)) h = cc
out_of_range-false bits (some (pos n)) h = ground arith

pub out_of_range-false_pos :
    (bits : ℕ) (v : BigInt)
    → out_of_range bits true v ≡ false
    → (0 < magnitude v) × (magnitude v < 2 ^ bits)
out_of_range-false_pos bits none h = cc
out_of_range-false_pos bits (some (negsuc n)) h = cc
out_of_range-false_pos bits (some (pos n)) h = ground arith

-- a - b, as an integer.
abbrev pub sub_ℕ : ℕ → ℕ → ℤ
sub_ℕ a b = if leb b a then pos (a - b) else negsuc (b - a - 1)

-- a - n for a number n.
abbrev pub minus : ℤ → ℕ → ℤ
minus (pos a) n = sub_ℕ a n
minus (negsuc a) n = negsuc (a + n)
