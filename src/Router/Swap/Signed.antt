-- ===== src/Router/Swap/Signed.antt =====
-- pkg/router/swap.go on the frames that BuildAndSign of pkg/frame/prepare.go signs.
use takapu_protocol_sdk.Prelude.{
  ℕ, ◌<◌, ◌≡◌, ◌⊎◌, ◌∙◌, arith, Bool, true, Option, some, List, [], ◌∷◌, length, ok, magnitude,
}
use mathlib.Core.Path.{subst}
use takapu_protocol_sdk.Wire.{PairKey, FrameWords, MarketFrame, AddressText}
use takapu_protocol_sdk.Frame.Types.{Address, FrameSpec, CompactFrame, PairParams, validate_pair}
use takapu_protocol_sdk.Frame.Words.{byte_at}
use takapu_protocol_sdk.Frame.Codec.{encode_compact_frame, validate_compact_frame}
use takapu_protocol_sdk.Frame.Codec.HeaderWord.{InRange}
use takapu_protocol_sdk.Frame.Codec.RoundTrip.{decode_compact_frame-encode_compact_frame}
use takapu_protocol_sdk.Frame.Signing.{Crypto, SignedFrame, Signer, Context}
use takapu_protocol_sdk.Frame.Signing.Laws.{
  sign_frame-verifies, sign_frame-recovery, verify_signature-normalizes,
}
use takapu_protocol_sdk.Frame.Prepare.{Payload, wire_of, build_and_sign, prepare_signing_payload}
use takapu_protocol_sdk.Frame.Prepare.Signed.{words_of, payload_parts, prepare_parts, build_parts}
use takapu_protocol_sdk.Protocol.Client.{Codecs}
use takapu_protocol_sdk.Protocol.Validation.Laws.{IsUpdate, normalize_signature-wire_parts}
use takapu_protocol_sdk.Protocol.Swap.{
  SwapMethod, SwapParams, is_supported, name_of, swap_arguments, encode_swap_call,
}
use takapu_protocol_sdk.Protocol.Swap.Calldata.{IsSwap, IsUint256, encode_swap_call_iff}
use takapu_protocol_sdk.Router.Swap.{
  SwapRequest, normalized, swap_params, check_tokens, build_swap_with, build_swap_call,
}
use takapu_protocol_sdk.Router.Swap.Carried.{Trades, direction_ok}

-- A frame with its signature as the contract takes it.
abbrev pub update_of : FrameSpec → CompactFrame → List ℕ → SignedFrame
update_of spec f signature = record { frame = f; maker = spec.maker; signature = signature }

valid_of :
    (spec : FrameSpec) (f : CompactFrame)
    → InRange spec
    → encode_compact_frame spec ≡ ok f
    → validate_compact_frame f ≡ ok tt
unfolding validate_compact_frame
valid_of spec f r h = ground (arith, (decode_compact_frame-encode_compact_frame spec f r h).0)

maker_of :
    (crypto : Crypto) (spec : FrameSpec) (p : Payload)
    → prepare_signing_payload crypto spec ≡ ok p
    → 0 < spec.maker
unfolding prepare_signing_payload
maker_of crypto spec p h = ground arith

pair_of :
    (pair : PairParams)
    → validate_pair pair ≡ ok tt
    → (0 < pair.pair_id)
      × (0 < pair.base_token)
      × (0 < pair.quote_token)
      × (pair.base_token ≡ pair.quote_token → ⊥)
unfolding validate_pair
pair_of pair h = (ground arith, ground arith, ground arith, ground arith)

-- The parts of a frame that BuildAndSign returns.
pub record IsSigned (crypto : Crypto) (text : AddressText) (spec : FrameSpec) (out : MarketFrame)
    (f : CompactFrame) : Type 0 where
  pub encoded : encode_compact_frame spec ≡ ok f
  pub words : out.frame ≡ some (words_of f)
  pub pair :
      out.pair
      ≡ some (record {
        chain_id = spec.chain_id;
        pair_id = spec.pair.pair_id;
        base_token = text.address_to_hex spec.pair.base_token;
        quote_token = text.address_to_hex spec.pair.quote_token;
      })
  pub maker_addr : out.maker_addr ≡ text.address_to_hex spec.maker
  pub update : IsUpdate crypto (update_of spec f out.signature)
  pub traded : validate_pair spec.pair ≡ ok tt

build_and_sign-IsSigned :
    (crypto : Crypto) (text : AddressText) (ctx : Option Context) (spec : FrameSpec)
    (signer : Signer) (out : MarketFrame)
    → InRange spec
    → build_and_sign crypto text ctx spec (some signer) ≡ ok out
    → (f : CompactFrame) × IsSigned crypto text spec out f
unfolding wire_of
build_and_sign-IsSigned crypto text ctx spec signer out r h =
    let (p, s, prepared, signed, eo) = build_parts crypto text ctx spec (some signer) out h in
    let (paid, eb, ea, ew) = prepare_parts crypto text spec p prepared in
    let (valid, enc, ed, em) = payload_parts crypto spec p.payload paid in
    let (ef, es, nonzero, verified) =
      sign_frame-verifies crypto ctx p.payload.domain p.payload.maker p.payload.frame signer s
        signed in
    let ends =
      sign_frame-recovery crypto ctx p.payload.domain p.payload.maker p.payload.frame signer s
        signed in
    let (again, en) =
      verify_signature-normalizes crypto p.payload.domain s signer.address verified in
    let (len, low) = normalize_signature-wire_parts crypto s.signature again ends en in
    let update : IsUpdate crypto (update_of spec p.payload.frame s.signature) = record {
      maker = maker_of crypto spec p.payload paid;
      valid = valid_of spec p.payload.frame r enc;
      bytes = len;
      recovery = ends;
      low_s = low;
    } in
    (
      p.payload.frame,
      record {
        encoded = enc;
        words = ground arith;
        pair = ground arith;
        maker_addr = ground arith;
        update =
            subst (λ sig. IsUpdate crypto (update_of spec p.payload.frame sig)) (ground arith)
              update;
        traded = valid;
      },
    )

-- Amounts, tokens and a recipient that a swap of the pair can have.
pub record IsRequest (pair : PairParams) (bought : Bool) (request : SwapRequest) : Type 0 where
  pub direction : Trades request pair.base_token pair.quote_token bought
  pub offers : 0 < magnitude request.amount_in
  pub amount : IsUint256 request.amount_in
  pub minimum : IsUint256 request.min_amount_out
  pub recipient : 0 < request.recipient

abbrev pub params_of : FrameSpec → CompactFrame → List ℕ → Bool → SwapRequest → SwapParams
params_of spec f signature bought request = record {
  pair_id = spec.pair.pair_id;
  is_buy = bought;
  amount_in = request.amount_in;
  min_amount_out = request.min_amount_out;
  maker = spec.maker;
  recipient = request.recipient;
  price_updates = update_of spec f signature ∷ [];
}

normalized_same :
    (sig : List ℕ) → (byte_at sig 64 ≡ 27) ⊎ (byte_at sig 64 ≡ 28) → normalized sig ≡ sig
normalized_same sig h = ground arith

build_with-ok :
    (crypto : Crypto) (codecs : Codecs) (text : AddressText) (method : SwapMethod)
    (value : MarketFrame) (pair : PairKey) (words : FrameWords) (request : SwapRequest)
    (calldata : List ℕ)
    → length words.header ≡ 32
    → length words.bid_levels ≡ 32
    → length words.ask_levels ≡ 32
    → check_tokens request
        (text.hex_to_address pair.base_token)
        (text.hex_to_address pair.quote_token)
      ≡ ok tt
    → encode_swap_call crypto codecs method (swap_params text value pair words request)
      ≡ ok calldata
    → build_swap_with crypto codecs text method value pair words request
      ≡ ok (record { params = swap_params text value pair words request; calldata = calldata })
unfolding build_swap_with
build_with-ok crypto codecs text method value pair words request calldata h b a tokens encoded =
    rw (h, b, a, tokens, encoded)

abbrev pair_key : AddressText → FrameSpec → PairKey
pair_key text spec = record {
  chain_id = spec.chain_id;
  pair_id = spec.pair.pair_id;
  base_token = text.address_to_hex spec.pair.base_token;
  quote_token = text.address_to_hex spec.pair.quote_token;
}

call-eq :
    (crypto : Crypto) (codecs : Codecs) (text : AddressText) (method : SwapMethod)
    (value : MarketFrame) (pair : PairKey) (words : FrameWords) (request : SwapRequest)
    → value.pair ≡ some pair
    → value.frame ≡ some words
    → build_swap_call crypto codecs text method (some value) request
      ≡ build_swap_with crypto codecs text method value pair words request
unfolding build_swap_call
call-eq crypto codecs text method value pair words request ep ew = rw (ep, ew)

-- A market frame that BuildAndSign returns can be swapped against: where reading a printed address
-- gives the address back, and the ABI codec packs the arguments of every swap that passes the checks,
-- buildSwap accepts the frame with every request for its pair whose amounts fit uint256, the first
-- one positive, and whose recipient is set. The price update of the swap is the signed frame itself:
-- the words that encodeCompactFrame returns for the specification, its maker and the signature.
pub build_swap_call-build_and_sign :
    (crypto : Crypto) (codecs : Codecs) (text : AddressText) (method : SwapMethod)
    (bytes : SwapParams → List ℕ) (ctx : Option Context) (spec : FrameSpec) (signer : Signer)
    (out : MarketFrame) (bought : Bool) (request : SwapRequest)
    → InRange spec
    → build_and_sign crypto text ctx spec (some signer) ≡ ok out
    → is_supported method ≡ true
    → IsRequest spec.pair bought request
    → ((a : Address) → text.hex_to_address (text.address_to_hex a) ≡ a)
    → ((p : SwapParams)
        → IsSwap crypto method p
        → codecs.contract.pack (name_of method) (swap_arguments p) ≡ some (bytes p))
    → (f : CompactFrame) × (encode_compact_frame spec ≡ ok f)
      × (let params = params_of spec f out.signature bought request in
          build_swap_call crypto codecs text method (some out) request
          ≡ ok (record { params = params; calldata = bytes params }))
build_swap_call-build_and_sign crypto codecs text method bytes ctx spec signer out bought request r
      signed supported asked hex packs =
    let (f, parts) = build_and_sign-IsSigned crypto text ctx spec signer out r signed in
    let (paired, base, quote, apart) = pair_of spec.pair parts.traded in
    let (tokens, way) =
      direction_ok request spec.pair.base_token spec.pair.quote_token bought base quote apart
        asked.direction in
    let params = params_of spec f out.signature bought request in
    let good : IsSwap crypto method params = record {
      supported = supported;
      paired = paired;
      offers = asked.offers;
      amount = asked.amount;
      minimum = asked.minimum;
      maker = parts.update.maker;
      recipient = asked.recipient;
      updates = (parts.update, tt);
    } in
    let encoded =
      (encode_swap_call_iff crypto codecs method params (bytes params)).1
        (good, packs params good) in
    let (decoded, hw, bw, aw) = decode_compact_frame-encode_compact_frame spec f r parts.encoded in
    let maker : text.hex_to_address out.maker_addr ≡ spec.maker =
      rw (parts.maker_addr, hex spec.maker) in
    let sig = normalized_same out.signature parts.update.recovery in
    let b = hex spec.pair.base_token in
    let q = hex spec.pair.quote_token in
    let same : swap_params text out (pair_key text spec) (words_of f) request ≡ params =
      rw (maker, sig, b, q, way) in
    let built =
      build_with-ok crypto codecs text method out (pair_key text spec) (words_of f) request
        (bytes params) hw.0 bw.0 aw.0 (rw (b, q, tokens)) (rw (same, encoded)) in
    (
      f,
      parts.encoded,
      call-eq crypto codecs text method out (pair_key text spec) (words_of f) request parts.pair
            parts.words
          ∙ built
          ∙ rw same,
    )
