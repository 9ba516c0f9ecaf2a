-- ===== src/Decimal.antt =====
-- Decimal text, as pkg/frame/decimal.go prints it and pkg/router/quote.go reads it. A string is the
-- list of its bytes; `(*big.Int).String` and `SetString(_, 10)` of math/big are modelled here.
pub mod Digits
pub mod Print
pub mod Parse
pub mod RoundTrip
mod Tests
