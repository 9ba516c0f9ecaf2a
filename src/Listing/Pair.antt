-- ===== src/Listing/Pair.antt =====
-- pkg/listing: decode.go, and ListPairs and ListPair of pairs.go. The keys of a JSON object are those
-- of constants.go.
pub mod Params
use takapu_protocol_sdk.Prelude.{
  ℕ, ◌+◌, ◌^◌, List, [], ◌∷◌, Bool, true, false, not, ◌&&◌, ◌||◌, ltb, leb, ◌==◌, if◌then◌else◌,
  length, same_bytes, Option, none, some, pos, Result, ok, err, fail_if, wrap, ◌>>=◌, ◌>>◌,
}
use takapu_protocol_sdk.Decimal.Digits.{Text, all_digits, set_string}
use takapu_protocol_sdk.Wire.{AddressText}
use takapu_protocol_sdk.Frame.Types.{Address, PairParams, validate_pair}
use takapu_protocol_sdk.Frame.Errors.{FrameError}
use takapu_protocol_sdk.Listing.Types.{
  Field, ListingError, Raw, Object, Json, Tax, Pair, chain_id, pair_id, base_token, quote_token,
  base_symbol, quote_symbol, base_decimals, quote_decimals, price_tick_size, lot_size, tax, active,
  gray, tax_token, tax_token_symbol, tax_rate_ppm, raw_size, missing_field, field_format,
  not_address, chain_id_range, pair_id_range, tokens, tax_missing, tax_token_foreign,
  tax_rate_range, not_object, not_json, in_tax, at_index, chain_mismatch, detail_mismatch,
  invalid_pair, input_chain_id, input_pair_id,
}
use takapu_protocol_sdk.Listing.Sizes.{
  trim_left_zeros, parse_digits, parse_raw_size, params_with, frame_params,
}

abbrev pub json_null : Text
json_null = b'n' ∷ b'u' ∷ b'l' ∷ b'l' ∷ []

-- `isNull`
abbrev pub is_null : Json → Raw → Bool
is_null json raw = same_bytes (json.trim_space raw) json_null

module _ {ℓ} {A : Type ℓ} where
  abbrev pub formatted : Field → Option A → Result ListingError A
  formatted name none = err (field_format name)
  formatted name (some v) = ok v

  -- `required` on what the map holds.
  abbrev pub required_in : Json → (Raw → Option A) → Field → Option Raw → Result ListingError A
  required_in json unmarshal name none = err (missing_field name)
  required_in json unmarshal name (some raw) =
      if is_null json raw then err (missing_field name) else formatted name (unmarshal raw)

-- `required` at the types that are used.
abbrev pub required {ℓ} :
    {A : Type ℓ} → Json → (Raw → Option A) → Object → Field → Result ListingError A
required json unmarshal fields name = required_in json unmarshal name (fields name)

-- `addressField`
unfoldable pub address_field : Json → AddressText → Object → Field → Result ListingError Address
address_field json text fields name = do
  value ← required json json.unmarshal_string fields name
  fail_if (not (text.is_hex_address value)) (not_address name)
  ok (text.hex_to_address value)

-- `positiveUint128String`
unfoldable pub positive_uint128_string : Json → Object → Field → Result ListingError Text
positive_uint128_string json fields name = do
  value ← required json json.unmarshal_string fields name
  size ← parse_raw_size value name
  ok value

abbrev pub parts_per_million : ℕ
parts_per_million = 1_000_000

-- `decodeTax` on the fields of the tax.
unfoldable pub tax_of :
    Json → AddressText → Address → Address → Object → Result ListingError (Option Tax)
tax_of json text base quote fields = do
  token ← wrap in_tax (address_field json text fields tax_token)
  fail_if (not (token == base) && not (token == quote)) tax_token_foreign
  symbol ← wrap in_tax (required json json.unmarshal_string fields tax_token_symbol)
  rate ← wrap in_tax (required json (json.unmarshal_number 32) fields tax_rate_ppm)
  fail_if (leb parts_per_million rate) tax_rate_range
  ok (some (record { token = token; symbol = symbol; rate_ppm = rate }))

-- A nil map has no fields.
abbrev pub or_empty : Option Object → Object
or_empty none = λ name. none
or_empty (some fields) = fields

abbrev pub decode_tax_in :
    Json → AddressText → Address → Address → Object → Option Raw → Result ListingError (Option Tax)
decode_tax_in json text base quote fields none = err tax_missing
decode_tax_in json text base quote fields (some raw) =
    if is_null json raw
    then ok none
    else required json json.unmarshal_object fields tax >>= λ inner.
        tax_of json text base quote (or_empty inner)

-- `decodeTax`
unfoldable pub decode_tax :
    Json → AddressText → Address → Address → Object → Result ListingError (Option Tax)
decode_tax json text base quote fields = decode_tax_in json text base quote fields (fields tax)

-- The last fields, on the pair that has the others.
unfoldable pub flags_of : Json → AddressText → Object → Pair → Result ListingError Pair
flags_of json text fields p = do
  fee ← decode_tax json text p.base_token p.quote_token fields
  is_active ← required json json.unmarshal_bool fields active
  is_gray ← required json json.unmarshal_bool fields gray
  ok (record p { tax = fee; active = is_active; gray = is_gray })

-- The fields from the symbols to the sizes, on the pair that has its ids and tokens.
unfoldable pub details_of : Json → Object → Pair → Result ListingError Pair
details_of json fields p = do
  base_name ← required json json.unmarshal_string fields base_symbol
  quote_name ← required json json.unmarshal_string fields quote_symbol
  base_places ← required json (json.unmarshal_number 8) fields base_decimals
  quote_places ← required json (json.unmarshal_number 8) fields quote_decimals
  tick ← positive_uint128_string json fields price_tick_size
  lot ← positive_uint128_string json fields lot_size
  ok (record p {
    base_symbol = base_name;
    quote_symbol = quote_name;
    base_decimals = base_places;
    quote_decimals = quote_places;
    price_tick_size = tick;
    lot_size = lot;
  })

-- The ids and the tokens, on the zero value of a pair.
unfoldable pub identity_of : Json → AddressText → Object → Result ListingError Pair
identity_of json text fields = do
  chain ← required json (json.unmarshal_number 64) fields chain_id
  fail_if (chain == 0 || leb (2 ^ 63) chain) chain_id_range
  id ← required json (json.unmarshal_number 32) fields pair_id
  fail_if (leb (2 ^ 31) id) pair_id_range
  base ← address_field json text fields base_token
  quote ← address_field json text fields quote_token
  fail_if (base == 0 || quote == 0 || base == quote) tokens
  ok (record {
    chain_id = chain;
    pair_id = id;
    base_token = base;
    quote_token = quote;
    base_symbol = [];
    quote_symbol = [];
    base_decimals = 0;
    quote_decimals = 0;
    price_tick_size = [];
    lot_size = [];
    active = false;
    gray = false;
    tax = none;
  })

-- `decodePair` on the fields of an object.
unfoldable pub pair_of : Json → AddressText → Object → Result ListingError Pair
pair_of json text fields = do
  named ← identity_of json text fields
  sized ← details_of json fields named
  flags_of json text fields sized

abbrev pub pair_of_object : Json → AddressText → Option (Option Object) → Result ListingError Pair
pair_of_object json text none = err not_json
pair_of_object json text (some none) = err not_object
pair_of_object json text (some (some fields)) = pair_of json text fields

-- `decodePair`
unfoldable pub decode_pair : Json → AddressText → Raw → Result ListingError Pair
decode_pair json text raw = pair_of_object json text (json.unmarshal_object raw)

-- The loop of `decodePairs`.
unfoldable pub decode_items :
    Json → AddressText → ℕ → ℕ → List Raw → Result ListingError (List Pair)
decode_items json text chain i [] = ok []
decode_items json text chain i (item ∷ items) = do
  pair ← wrap (at_index i) (decode_pair json text item)
  fail_if (not (pair.chain_id == chain)) (chain_mismatch i)
  rest ← decode_items json text chain (i + 1) items
  ok (pair ∷ rest)

abbrev pub decode_array :
    Json → AddressText → ℕ → Option (List Raw) → Result ListingError (List Pair)
decode_array json text chain none = err not_json
decode_array json text chain (some items) = decode_items json text chain 0 items

-- `decodePairs`
unfoldable pub decode_pairs : Json → AddressText → Raw → ℕ → Result ListingError (List Pair)
decode_pairs json text raw chain = decode_array json text chain (json.unmarshal_array raw)

-- `validateChainID`
abbrev pub validate_chain_id : ℕ → Result ListingError (Unit {0})
validate_chain_id chain = fail_if (chain == 0 || leb (2 ^ 63) chain) input_chain_id

-- `ListPairs`, with the data that `get` returns or its error.
unfoldable pub list_pairs :
    Json → AddressText → (ℕ → Result ListingError Raw) → ℕ → Result ListingError (List Pair)
list_pairs json text get chain = do
  validate_chain_id chain
  raw ← get chain
  decode_pairs json text raw chain

-- `ListPair`
unfoldable pub list_pair :
    Json → AddressText → (ℕ → ℕ → Result ListingError Raw) → ℕ → ℕ → Result ListingError Pair
list_pair json text get chain id = do
  validate_chain_id chain
  fail_if (id == 0 || leb (2 ^ 31) id) input_pair_id
  raw ← get chain id
  pair ← decode_pair json text raw
  fail_if (not (pair.chain_id == chain) || not (pair.pair_id == id)) detail_mismatch
  ok pair
