-- ===== src/Frame/Prepare.antt =====
-- pkg/frame/prepare.go, and humanLevels of decimal.go: a quote with its readable levels.
pub mod Readable
pub mod Signed
use takapu_protocol_sdk.Prelude.{
  ℕ, ◌+◌, ◌-◌, ◌*◌, ◌%◌, ◌^◌, List, [], ◌∷◌, Bool, true, false, ◌||◌, ltb, ◌==◌, if◌then◌else◌,
  length, magnitude, ℤ, pos, sub_ℕ, Option, none, some, Result, ok, err, fail_if, ◌>>=◌, ◌>>◌,
}
use takapu_protocol_sdk.Decimal.Digits.{Text}
use takapu_protocol_sdk.Decimal.Print.{decimal}
use takapu_protocol_sdk.Wire.{PriceLevel, MarketFrame, AddressText}
use takapu_protocol_sdk.Frame.Words.{Word}
use takapu_protocol_sdk.Frame.Types.{
  Address, Level, PairParams, FrameSpec, CompactFrame, validate_pair,
}
use takapu_protocol_sdk.Frame.Errors.{FrameError, maker_zero, decimal_too_long, uninitialized}
use takapu_protocol_sdk.Frame.Codec.{encode_compact_frame}
use takapu_protocol_sdk.Frame.Signing.{
  Crypto, SigningDomain, SignedFrame, Signer, Context, validate_domain, digest, normalize_signature,
  verify_signature, sign_frame,
}

-- `maxDecimalLength`
abbrev pub max_decimal_length : ℕ
max_decimal_length = 64

-- The tick of a level, in the arithmetic of uint64.
abbrev pub tick_of : ℕ → Bool → Level → ℕ
tick_of base true level = (base + 2 ^ 64 - level.offset) % 2 ^ 64
tick_of base false level = (base + level.offset) % 2 ^ 64

-- `18 + int(pair.QuoteDecimals) - int(pair.BaseDecimals)`
abbrev pub readable_scale : PairParams → ℤ
readable_scale pair = sub_ℕ (18 + pair.quote_decimals) pair.base_decimals

-- The body of the loop of `humanLevels`, which ValidatePair precedes.
unfoldable pub human_level : ℕ → Bool → PairParams → Level → Result FrameError PriceLevel
human_level base bid pair level = do
  let price =
      decimal (tick_of base bid level * magnitude pair.price_tick_size) (readable_scale pair)
  let amount = decimal (level.qty_lots * magnitude pair.lot_size) (pos pair.base_decimals)
  fail_if (ltb max_decimal_length (length price) || ltb max_decimal_length (length amount))
      decimal_too_long
  ok (record { price = price; amount = amount })

-- `humanLevels`
unfoldable pub human_levels :
    ℕ → Bool → PairParams → List Level → Result FrameError (List PriceLevel)
human_levels base bid pair [] = ok []
human_levels base bid pair (level ∷ levels) = do
  first ← human_level base bid pair level
  rest ← human_levels base bid pair levels
  ok (first ∷ rest)

pub record Payload : Type 0 where
  pub domain : SigningDomain
  pub maker : Address
  pub frame : CompactFrame
  pub digest : Word

pub record PreparedFrame : Type 0 where
  pub payload : Payload
  pub wire : MarketFrame

-- `PrepareSigningPayload`
unfoldable pub prepare_signing_payload : Crypto → FrameSpec → Result FrameError Payload
prepare_signing_payload crypto spec = do
  let domain : SigningDomain = record { chain_id = spec.chain_id; protocol = spec.protocol }
  validate_domain domain
  fail_if (spec.maker == 0) maker_zero
  validate_pair spec.pair
  f ← encode_compact_frame spec
  ok (record {
    domain = domain;
    maker = spec.maker;
    frame = f;
    digest = digest crypto domain spec.maker f;
  })

-- The message that `Prepare` builds.
unfoldable pub wire_of :
    AddressText → FrameSpec → Payload → List PriceLevel → List PriceLevel → MarketFrame
wire_of text spec payload bids asks = record {
  updated_at = spec.updated_at;
  pair = some (record {
    chain_id = spec.chain_id;
    pair_id = spec.pair.pair_id;
    base_token = text.address_to_hex spec.pair.base_token;
    quote_token = text.address_to_hex spec.pair.quote_token;
  });
  bids = bids;
  asks = asks;
  frame = some (record {
    header = payload.frame.header;
    bid_levels = payload.frame.bid_levels;
    ask_levels = payload.frame.ask_levels;
  });
  signature = [];
  maker_addr = text.address_to_hex spec.maker;
}

-- `Prepare`
unfoldable pub prepare : Crypto → AddressText → FrameSpec → Result FrameError PreparedFrame
prepare crypto text spec = do
  payload ← prepare_signing_payload crypto spec
  bids ← human_levels spec.base_tick true spec.pair spec.bids
  asks ← human_levels spec.base_tick false spec.pair spec.asks
  ok (record { payload = payload; wire = wire_of text spec payload bids asks })

-- `AttachSignature`; `none` is an uninitialized frame.
unfoldable pub attach_signature :
    Crypto → Option PreparedFrame → List ℕ → Address → Result FrameError MarketFrame
attach_signature crypto none sig expected_signer = err uninitialized
attach_signature crypto (some p) sig expected_signer = do
  normalized ← normalize_signature crypto sig
  let value : SignedFrame = record {
    frame = p.payload.frame;
    maker = p.payload.maker;
    signature = normalized;
  }
  verify_signature crypto p.payload.domain value expected_signer
  ok (record p.wire { signature = normalized })

-- `BuildAndSign`
unfoldable pub build_and_sign :
    Crypto
    → AddressText
    → Option Context
    → FrameSpec
    → Option Signer
    → Result FrameError MarketFrame
build_and_sign crypto text ctx spec signer = do
  p ← prepare crypto text spec
  signed ← sign_frame crypto ctx p.payload.domain p.payload.maker p.payload.frame signer
  ok (record p.wire { signature = signed.signature })
