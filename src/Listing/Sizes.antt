-- ===== src/Listing/Sizes.antt =====
-- pkg/listing/pair_params.go.
use takapu_protocol_sdk.Prelude.{
  ℕ, ◌^◌, [], ◌∷◌, not, ◌||◌, ltb, leb, ◌==◌, if◌then◌else◌, length, some, pos, Result, ok, fail_if,
  wrap, ◌>>=◌, ◌>>◌,
}
use takapu_protocol_sdk.Decimal.Digits.{Text, all_digits, set_string}
use takapu_protocol_sdk.Frame.Types.{PairParams, validate_pair}
use takapu_protocol_sdk.Listing.Types.{
  Field, ListingError, Pair, price_tick_size, lot_size, raw_size, invalid_pair,
}

-- `strings.TrimLeft(value, "0")`
abbrev pub trim_left_zeros : Text → Text
trim_left_zeros [] = []
trim_left_zeros (c ∷ cs) = if c == 48 then trim_left_zeros cs else c ∷ cs

-- The checks of `parseRawSize` behind the trimming.
unfoldable pub parse_digits : Field → Text → Result ListingError ℕ
parse_digits name digits = do
  fail_if (length digits == 0 || ltb 39 (length digits)) (raw_size name)
  fail_if (leb (2 ^ 128) (set_string digits)) (raw_size name)
  ok (set_string digits)

-- `parseRawSize`
unfoldable pub parse_raw_size : Text → Field → Result ListingError ℕ
parse_raw_size value name = do
  fail_if (not (all_digits value)) (raw_size name)
  parse_digits name (trim_left_zeros value)

abbrev pub params_with : Pair → ℕ → ℕ → PairParams
params_with p tick lot = record {
  pair_id = p.pair_id;
  base_token = p.base_token;
  quote_token = p.quote_token;
  base_decimals = p.base_decimals;
  quote_decimals = p.quote_decimals;
  price_tick_size = some (pos tick);
  lot_size = some (pos lot);
}

-- `FrameParams`
unfoldable pub frame_params : Pair → Result ListingError PairParams
frame_params p = do
  tick ← parse_raw_size p.price_tick_size price_tick_size
  lot ← parse_raw_size p.lot_size lot_size
  wrap invalid_pair (validate_pair (params_with p tick lot))
  ok (params_with p tick lot)
