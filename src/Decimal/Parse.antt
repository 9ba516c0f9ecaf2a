-- ===== src/Decimal/Parse.antt =====
-- quoteDecimal of pkg/router/quote.go.
use takapu_protocol_sdk.Prelude.{
  ℕ, suc, ◌-◌, ◌^◌, Bool, true, false, not, ◌&&◌, ◌||◌, [], ◌∷◌, ◌++◌, leb, ltb, ◌==◌,
  if◌then◌else◌, length, replicate, take, drop, ℤ, pos, negsuc, minus, Result, ok, err, fail_if,
  ◌>>=◌, ◌>>◌,
}
use takapu_protocol_sdk.Decimal.Digits.{Text, all_digits, set_string}
use takapu_protocol_sdk.Decimal.Print.{is_empty}

-- The errors of `quoteDecimal`.
pub data DecimalError : Type 0 where
  bad_length not_plain not_exact not_positive_uint256 : DecimalError

pub record Cut : Type 0 where
  pub before : Text
  pub after : Text
  pub found : Bool

-- `strings.Cut(value, ".")`
unfoldable pub cut_dot : Text → Cut
cut_dot [] = record { before = []; after = []; found = false }
cut_dot (c ∷ cs) =
    let rest = cut_dot cs in
    if c == b'.'
    then record { before = []; after = cs; found = true }
    else record { before = c ∷ rest.before; after = rest.after; found = rest.found }

-- `strings.Trim(s, "0") == ""`
unfoldable pub all_zeros : Text → Bool
all_zeros [] = true
all_zeros (c ∷ cs) = c == b'0' && all_zeros cs

-- The digits moved by `shift` places; a negative shift drops zeros only.
unfoldable pub shift_digits : Text → ℤ → Result DecimalError Text
shift_digits digits (negsuc k) =
    let end = length digits - suc k in
    if leb (length digits) (suc k) || not (all_zeros (drop end digits))
    then err not_exact
    else ok (take end digits)
shift_digits digits (pos k) = ok (digits ++ replicate k b'0')

-- `quoteDecimal`. The number that `out.SetString` stores is the result.
unfoldable pub quote_decimal : Text → ℤ → Result DecimalError ℕ
quote_decimal value scale = do
  fail_if (length value == 0 || ltb 64 (length value)) bad_length
  let parts = cut_dot value
  fail_if (is_empty parts.before || parts.found && is_empty parts.after) not_plain
  fail_if (not (all_digits (parts.before ++ parts.after))) not_plain
  digits ← shift_digits (parts.before ++ parts.after) (minus scale (length parts.after))
  fail_if (set_string digits == 0 || leb (2 ^ 256) (set_string digits)) not_positive_uint256
  ok (set_string digits)
