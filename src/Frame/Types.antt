-- ===== src/Frame/Types.antt =====
-- The data of pkg/frame: Level, CompactFrame and Header of codec.go, PairParams, FrameSpec and
-- ValidatePair of frame.go. A uintN field is a number; its range stands with the theorems.
use takapu_protocol_sdk.Prelude.{
  ℕ, List, true, ◌||◌, ◌==◌, BigInt, out_of_range, Result, fail_if, ◌>>◌,
}
use takapu_protocol_sdk.Frame.Words.{Word}
use takapu_protocol_sdk.Frame.Errors.{
  FrameError, pair_id_zero, pair_tokens, price_tick_size_range, lot_size_range,
}

-- An address is the number that its 20 bytes write; 0 is `common.Address{}`.
abbrev pub Address : Type 0
Address = ℕ

-- `CodecVersion`, `MaxLevels`, `MaxTick` of constants.go
abbrev pub supported_codec_version : ℕ
supported_codec_version = 1

abbrev pub max_levels : ℕ
max_levels = 5

abbrev pub max_tick : ℕ
max_tick = 0xffffff

pub record Level : Type 0 where
  pub offset : ℕ
  pub qty_lots : ℕ

pub record CompactFrame : Type 0 where
  pub header : Word
  pub bid_levels : Word
  pub ask_levels : Word

pub record Header : Type 0 where
  pub updated_at : ℕ
  pub major_version : ℕ
  pub minor_version : ℕ
  pub base_tick : ℕ
  pub pair_id : ℕ
  pub codec_version : ℕ
  pub bid_filled_lots : ℕ
  pub ask_filled_lots : ℕ
  pub written_at : ℕ
  pub reserved : ℕ

pub record PairParams : Type 0 where
  pub pair_id : ℕ
  pub base_token : Address
  pub quote_token : Address
  pub base_decimals : ℕ
  pub quote_decimals : ℕ
  pub price_tick_size : BigInt
  pub lot_size : BigInt

pub record FrameSpec : Type 0 where
  pub chain_id : ℕ
  pub protocol : Address
  pub maker : Address
  pub pair : PairParams
  pub base_tick : ℕ
  pub bids : List Level
  pub asks : List Level
  pub updated_at : ℕ
  pub major_version : ℕ
  pub minor_version : ℕ
  pub codec_version : ℕ

unfoldable pub validate_pair : PairParams → Result FrameError (Unit {0})
validate_pair pair = do
  fail_if (pair.pair_id == 0) pair_id_zero
  fail_if (pair.base_token == 0 || pair.quote_token == 0 || pair.base_token == pair.quote_token)
      pair_tokens
  fail_if (out_of_range 128 true pair.price_tick_size) price_tick_size_range
  fail_if (out_of_range 128 true pair.lot_size) lot_size_range
