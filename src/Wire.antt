-- ===== src/Wire.antt =====
-- The messages of pkg/types/marketstream.pb.go that the SDK reads and writes: their fields, without
-- the generated codec. A nil message pointer is `none`; a string is the list of its bytes.
use takapu_protocol_sdk.Prelude.{ℕ, List, Option, Bool}
use takapu_protocol_sdk.Decimal.Digits.{Text}

pub record PriceLevel : Type 0 where
  pub price : Text
  pub amount : Text

pub record PairKey : Type 0 where
  pub chain_id : ℕ
  pub pair_id : ℕ
  pub base_token : Text
  pub quote_token : Text

-- The compact frame's words, as byte strings of any length.
pub record FrameWords : Type 0 where
  pub header : List ℕ
  pub bid_levels : List ℕ
  pub ask_levels : List ℕ

pub record MarketFrame : Type 0 where
  pub updated_at : ℕ
  pub pair : Option PairKey
  pub bids : List PriceLevel
  pub asks : List PriceLevel
  pub frame : Option FrameWords
  pub signature : List ℕ
  pub maker_addr : Text

pub record PairFilter : Type 0 where
  pub pair : Option PairKey
  pub maker : Text
  pub allow_pair_gray : Bool
  pub allow_maker_gray : Bool

pub record FrameAck : Type 0 where
  pub pair : Option PairKey
  pub major_version : ℕ
  pub minor_version : ℕ
  pub accepted : Bool
  pub reject_step : Text
  pub reject_reason : Text

pub record ConnectionAck : Type 0 where
  pub success : Bool
  pub identity : Text

pub record Heartbeat : Type 0 where
  pub ping : Bool
  pub pong : Bool

pub record ServerError : Type 0 where
  pub code : Text
  pub message : Text

-- The reading of hexadecimal addresses by go-ethereum's `common` package, which this repository only
-- calls: `IsHexAddress`, `HexToAddress` and `Address.Hex`.
pub record AddressText : Type 0 where
  pub is_hex_address : Text → Bool
  pub hex_to_address : Text → ℕ
  pub address_to_hex : ℕ → Text
