-- ===== src/Decimal/Tests.antt =====
-- Concrete decimals through pkg/frame/decimal.go and quoteDecimal of pkg/router/quote.go.
use takapu_protocol_sdk.Prelude.{◌≡◌, refl, arith, [], ◌∷◌, ok, pos}
use takapu_protocol_sdk.Decimal.Digits.{to_string, print_digits}
use takapu_protocol_sdk.Decimal.Print.{decimal, point_in, trim_right, pad_left}
use takapu_protocol_sdk.Decimal.Parse.{quote_decimal}
use takapu_protocol_sdk.Decimal.RoundTrip.{quote_decimal-decimal}

quote_decimal-decimal_example : quote_decimal (decimal 1_250_000 (pos 6)) (pos 6) ≡ ok 1_250_000
unfolding decimal point_in trim_right pad_left to_string print_digits
quote_decimal-decimal_example =
    quote_decimal-decimal 1_250_000 (pos 6) (omega arith) (omega arith) (omega arith)

decimal_quarter : decimal 1_250_000 (pos 6) ≡ b'1' ∷ b'.' ∷ b'2' ∷ b'5' ∷ []
unfolding decimal point_in trim_right pad_left to_string print_digits
decimal_quarter = refl
