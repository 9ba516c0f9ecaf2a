-- ===== src/Listing/Tests.antt =====
-- A pair of pkg/listing as its server answers.
use takapu_protocol_sdk.Prelude.{ℕ, ◌≡◌, refl, [], ◌∷◌, true, none, some, ok}
use takapu_protocol_sdk.Decimal.Digits.{all_digits, read_digits}
use takapu_protocol_sdk.Frame.Types.{PairParams, validate_pair}
use takapu_protocol_sdk.Frame.Tests.{text}
use takapu_protocol_sdk.Listing.Types.{
  chain_id, pair_id, base_token, quote_token, base_decimals, quote_decimals, price_tick_size,
  lot_size, tax, Raw, Object, Json, Pair,
}
use takapu_protocol_sdk.Listing.Sizes.{parse_digits, parse_raw_size, frame_params}
use takapu_protocol_sdk.Listing.Pair.{
  address_field, positive_uint128_string, decode_tax, identity_of, details_of, flags_of, pair_of,
  decode_pair, list_pair,
}
use takapu_protocol_sdk.Listing.Pair.Params.{list_pair-frame_params}

abbrev first_byte : Raw → ℕ
first_byte [] = 0
first_byte (b ∷ bs) = b

abbrev answer : Object
answer chain_id = some (1 ∷ [])
answer pair_id = some (7 ∷ [])
answer base_token = some (0x11 ∷ [])
answer quote_token = some (0x22 ∷ [])
answer base_decimals = some (18 ∷ [])
answer quote_decimals = some (6 ∷ [])
answer price_tick_size = some (b'0' ∷ b'1' ∷ b'0' ∷ b'0' ∷ [])
answer lot_size = some (b'5' ∷ [])
answer tax = some (b'n' ∷ b'u' ∷ b'l' ∷ b'l' ∷ [])
answer other = some []

-- A reading of JSON for the answer: a number is its first byte, a string is the bytes.
abbrev json : Json
json = record {
  unmarshal_number = λ bits raw. some (first_byte raw);
  unmarshal_string = λ raw. some raw;
  unmarshal_bool = λ raw. some true;
  unmarshal_object = λ raw. some (some answer);
  unmarshal_array = λ raw. none;
  trim_space = λ raw. raw;
}

abbrev weth_usdc : Pair
weth_usdc = record {
  chain_id = 1;
  pair_id = 7;
  base_token = 0x11;
  quote_token = 0x22;
  base_symbol = [];
  quote_symbol = [];
  base_decimals = 18;
  quote_decimals = 6;
  price_tick_size = b'0' ∷ b'1' ∷ b'0' ∷ b'0' ∷ [];
  lot_size = b'5' ∷ [];
  active = true;
  gray = true;
  tax = none;
}

listed : list_pair json text (λ chain id. ok []) 1 7 ≡ ok weth_usdc
unfolding list_pair decode_pair pair_of identity_of details_of flags_of address_field
    positive_uint128_string decode_tax parse_raw_size parse_digits all_digits read_digits
listed = refl

list_pair-frame_params_example :
    (weth_usdc.chain_id ≡ 1)
    × (weth_usdc.pair_id ≡ 7)
    × ((params : PairParams) × (frame_params weth_usdc ≡ ok params)
        × (params.pair_id ≡ weth_usdc.pair_id)
        × (validate_pair params ≡ ok tt))
list_pair-frame_params_example =
    list_pair-frame_params json text (λ chain id. ok []) 1 7 weth_usdc listed
