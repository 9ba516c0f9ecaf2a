-- ===== src/Listing/Types.antt =====
-- The data of pkg/listing: the pairs of pairs.go, the keys of constants.go, the errors, and what the
-- package uses of encoding/json.
use takapu_protocol_sdk.Prelude.{ℕ, List, Bool, Option}
use takapu_protocol_sdk.Decimal.Digits.{Text}
use takapu_protocol_sdk.Frame.Types.{Address}
use takapu_protocol_sdk.Frame.Errors.{FrameError}

-- The fields of a pair, and those of its tax.
pub data Field : Type 0 where
  chain_id pair_id base_token quote_token base_symbol quote_symbol : Field
  base_decimals quote_decimals price_tick_size lot_size tax active gray : Field
  tax_token tax_token_symbol tax_rate_ppm : Field

pub data ListingError : Type 0 where
  raw_size missing_field field_format not_address : Field → ListingError
  chain_id_range pair_id_range tokens tax_missing tax_token_foreign tax_rate_range : ListingError
  not_object not_json : ListingError
  in_tax : ListingError → ListingError
  at_index : ℕ → ListingError → ListingError
  chain_mismatch : ℕ → ListingError
  detail_mismatch : ListingError
  invalid_pair : FrameError → ListingError
  input_chain_id input_pair_id : ListingError

-- A `json.RawMessage`, and the object that it decodes to.
abbrev pub Raw : Type 0
Raw = List ℕ

abbrev pub Object : Type 0
Object = Field → Option Raw

-- What is used of encoding/json and bytes: `Unmarshal` at each type, and `TrimSpace`. An object may
-- be nil.
pub record Json : Type 0 where
  pub unmarshal_number : ℕ → Raw → Option ℕ
  pub unmarshal_string : Raw → Option Text
  pub unmarshal_bool : Raw → Option Bool
  pub unmarshal_object : Raw → Option (Option Object)
  pub unmarshal_array : Raw → Option (List Raw)
  pub trim_space : Raw → Raw

pub record Tax : Type 0 where
  pub token : Address
  pub symbol : Text
  pub rate_ppm : ℕ

pub record Pair : Type 0 where
  pub chain_id : ℕ
  pub pair_id : ℕ
  pub base_token : Address
  pub quote_token : Address
  pub base_symbol : Text
  pub quote_symbol : Text
  pub base_decimals : ℕ
  pub quote_decimals : ℕ
  pub price_tick_size : Text
  pub lot_size : Text
  pub active : Bool
  pub gray : Bool
  pub tax : Option Tax
