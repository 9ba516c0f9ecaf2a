-- ===== src/Decimal/Digits.antt =====
-- Digit strings: `String` and `SetString(_, 10)` of math/big's Int on nonnegative numbers.
use takapu_protocol_sdk.Prelude.{
  ℕ, zero, suc, ◌+◌, ◌-◌, ◌*◌, ◌/◌, ◌%◌, ◌^◌, ◌≤◌, ◌<◌, ◌≡◌, refl, Bool, true, ◌&&◌, List, [], ◌∷◌,
  ◌++◌, arith, ltb, leb, if◌then◌else◌, length, All, All-append, length-append, replicate,
}
use native.Mathlib.Nat.{pow-suc}
use native.Mathlib.Numerals.{add-one}

-- The bytes of a string.
abbrev pub Text : Type 0
Text = List ℕ

abbrev pub IsDigit : ℕ → Type 0
IsDigit c = (48 ≤ c) × (c ≤ 57)

-- `'0' <= ch && ch <= '9'` for every byte.
unfoldable pub all_digits : Text → Bool
all_digits [] = true
all_digits (c ∷ cs) = leb 48 c && leb c 57 && all_digits cs

-- The number that a digit string writes, from the digits read so far.
unfoldable pub read_digits : ℕ → Text → ℕ
read_digits acc [] = acc
read_digits acc (c ∷ cs) = read_digits (acc * 10 + (c - 48)) cs

abbrev pub set_string : Text → ℕ
set_string s = read_digits 0 s

-- The last digit comes from the remainder; `n` has at most `fuel` digits.
unfoldable pub print_digits : ℕ → ℕ → Text
print_digits zero n = []
print_digits (suc fuel) n =
    let front = print_digits fuel (n / 10) in
    if ltb n 10 then (48 + n) ∷ [] else front ++ (48 + n % 10) ∷ []

-- `n.String()`. A number n has at most n + 1 digits.
unfoldable pub to_string : ℕ → Text
to_string n = print_digits (n + 1) n

pub read_digits-append :
    (acc : ℕ) (s t : Text) → read_digits acc (s ++ t) ≡ read_digits (read_digits acc s) t
unfolding read_digits
read_digits-append acc [] t = refl
read_digits-append acc (c ∷ s) t = read_digits-append (acc * 10 + (c - 48)) s t

pub read_digits_zeros : (acc k : ℕ) → read_digits acc (replicate k 48) ≡ acc * 10 ^ k
unfolding read_digits
read_digits_zeros acc zero = omega arith
read_digits_zeros acc (suc k) = rw (read_digits_zeros (acc * 10 + 0) k, pow-suc) (omega arith)

pub print_digits-read : (fuel n : ℕ) → n < fuel → set_string (print_digits fuel n) ≡ n
unfolding print_digits read_digits
print_digits-read zero n h = absurd (omega arith)
print_digits-read (suc fuel) n h = ground (
  arith,
  print_digits-read fuel (n / 10),
  read_digits-append 0 (print_digits fuel (n / 10)) ((48 + n % 10) ∷ []),
)

pub print_digits-IsDigit : (fuel n : ℕ) → All IsDigit (print_digits fuel n)
unfolding print_digits
print_digits-IsDigit zero n = tt
print_digits-IsDigit (suc fuel) n = ground (
  arith,
  print_digits-IsDigit fuel (n / 10),
  All-append IsDigit (print_digits fuel (n / 10)) ((48 + n % 10) ∷ []),
)

pub to_string-read : (n : ℕ) → set_string (to_string n) ≡ n
unfolding to_string
to_string-read n = print_digits-read (n + 1) n (omega arith)

pub to_string-IsDigit : (n : ℕ) → All IsDigit (to_string n)
unfolding to_string
to_string-IsDigit n = print_digits-IsDigit (n + 1) n

pub to_string_pos : (n : ℕ) → 0 < length (to_string n)
unfolding to_string print_digits
to_string_pos n =
    rw add-one (ground (arith, length-append (print_digits n (n / 10)) ((48 + n % 10) ∷ [])))
