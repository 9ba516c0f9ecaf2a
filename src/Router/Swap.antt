-- ===== src/Router/Swap.antt =====
-- pkg/router/swap.go.
pub mod Carried
pub mod Signed
use takapu_protocol_sdk.Prelude.{
  ℕ, ◌+◌, ◌%◌, List, [], ◌∷◌, Bool, true, false, not, ◌&&◌, ◌||◌, ltb, ◌==◌, if◌then◌else◌, length,
  set, Option, none, some, BigInt, Result, ok, err, fail_if, wrap, ◌>>=◌, ◌>>◌,
}
use takapu_protocol_sdk.Wire.{PairKey, FrameWords, MarketFrame, AddressText}
use takapu_protocol_sdk.Frame.Types.{Address}
use takapu_protocol_sdk.Frame.Words.{byte_at}
use takapu_protocol_sdk.Frame.Signing.{Crypto, SignedFrame}
use takapu_protocol_sdk.Protocol.Errors.{ProtocolError}
use takapu_protocol_sdk.Protocol.Client.{Codecs}
use takapu_protocol_sdk.Protocol.Swap.{
  SwapMethod, swap, swap_exact_in, SwapParams, encode_swap_call,
}

pub data SwapError : Type 0 where
  frame_required word_length token_direction : SwapError
  encoding : ProtocolError → SwapError

-- The calldata with its parameters.
pub record SwapCall : Type 0 where
  pub params : SwapParams
  pub calldata : List ℕ

-- What the caller of BuildSwap asks for.
pub record SwapRequest : Type 0 where
  pub token_in : Address
  pub token_out : Address
  pub amount_in : BigInt
  pub min_amount_out : BigInt
  pub recipient : Address

abbrev pub is_sell : SwapRequest → Address → Address → Bool
is_sell request base quote = request.token_in == base && request.token_out == quote

abbrev pub is_buy : SwapRequest → Address → Address → Bool
is_buy request base quote = request.token_in == quote && request.token_out == base

-- The recovery id of a signature of 65 bytes as 27 or 28, in the arithmetic of bytes.
abbrev pub normalized : List ℕ → List ℕ
normalized sig =
    if length sig == 65 && ltb (byte_at sig 64) 2
    then set sig 64 ((byte_at sig 64 + 27) % 256)
    else sig

abbrev pub signed_update : AddressText → MarketFrame → FrameWords → SignedFrame
signed_update text value words = record {
  frame = record {
    header = words.header;
    bid_levels = words.bid_levels;
    ask_levels = words.ask_levels;
  };
  maker = text.hex_to_address value.maker_addr;
  signature = normalized value.signature;
}

abbrev pub swap_params : AddressText → MarketFrame → PairKey → FrameWords → SwapRequest → SwapParams
swap_params text value pair words request = record {
  pair_id = pair.pair_id;
  is_buy =
      is_buy request (text.hex_to_address pair.base_token) (text.hex_to_address pair.quote_token);
  amount_in = request.amount_in;
  min_amount_out = request.min_amount_out;
  maker = text.hex_to_address value.maker_addr;
  recipient = request.recipient;
  price_updates = signed_update text value words ∷ [];
}

abbrev pub check_tokens : SwapRequest → Address → Address → Result SwapError (Unit {0})
check_tokens request base quote =
    fail_if
      (request.token_in == 0
        || request.token_out == 0
        || request.token_in == request.token_out
        || not (is_sell request base quote) && not (is_buy request base quote))
      token_direction

-- `buildSwap` on a frame whose pointers are not nil.
unfoldable pub build_swap_with :
    Crypto
    → Codecs
    → AddressText
    → SwapMethod
    → MarketFrame
    → PairKey
    → FrameWords
    → SwapRequest
    → Result SwapError SwapCall
build_swap_with crypto codecs text method value pair words request = do
  fail_if
      (not (length words.header == 32)
        || not (length words.bid_levels == 32)
        || not (length words.ask_levels == 32))
      word_length
  check_tokens request (text.hex_to_address pair.base_token) (text.hex_to_address pair.quote_token)
  calldata ←
      wrap encoding
        (encode_swap_call crypto codecs method (swap_params text value pair words request))
  ok (record { params = swap_params text value pair words request; calldata = calldata })

abbrev pub with_parts :
    Crypto
    → Codecs
    → AddressText
    → SwapMethod
    → MarketFrame
    → Option PairKey
    → Option FrameWords
    → SwapRequest
    → Result SwapError SwapCall
with_parts crypto codecs text method value (some pair) (some words) request =
    build_swap_with crypto codecs text method value pair words request
with_parts crypto codecs text method value pair words request = err frame_required

-- `buildSwap`; `none` is a nil frame.
unfoldable pub build_swap_call :
    Crypto
    → Codecs
    → AddressText
    → SwapMethod
    → Option MarketFrame
    → SwapRequest
    → Result SwapError SwapCall
build_swap_call crypto codecs text method none request = err frame_required
build_swap_call crypto codecs text method (some value) request =
    with_parts crypto codecs text method value value.pair value.frame request

-- `BuildSwap`
unfoldable pub build_swap :
    Crypto → Codecs → AddressText → Option MarketFrame → SwapRequest → Result SwapError SwapCall
build_swap crypto codecs text value request = build_swap_call crypto codecs text swap value request

-- `BuildSwapExactIn`
unfoldable pub build_swap_exact_in :
    Crypto → Codecs → AddressText → Option MarketFrame → SwapRequest → Result SwapError SwapCall
build_swap_exact_in crypto codecs text value request =
    build_swap_call crypto codecs text swap_exact_in value request
