-- ===== src/Router/Swap/Carried.antt =====
-- The update that a swap of pkg/router/swap.go carries: the signed words of the frame.
use takapu_protocol_sdk.Prelude.{
  set, ℕ, ◌≤◌, ◌≢◌, ◌+◌, ◌%◌, ◌==◌, ◌&&◌, ltb, List, [], ◌∷◌, length, if-holds, Bool-cases, ◌<◌,
  ◌≡◌, ◌⊎◌, inl, inr, refl, sym, arith, Bool, true, false, Option, none, some, ok, Result-cases,
}
use mathlib.Core.Path.{subst, ap}
use takapu_protocol_sdk.Frame.Words.{byte_at}
use takapu_protocol_sdk.Wire.{PairKey, FrameWords, MarketFrame, AddressText}
use takapu_protocol_sdk.Frame.Types.{Address}
use takapu_protocol_sdk.Frame.Signing.{Crypto}
use takapu_protocol_sdk.Protocol.Client.{Codecs}
use takapu_protocol_sdk.Protocol.Swap.{SwapMethod, name_of, swap_arguments, encode_swap_call}
use takapu_protocol_sdk.Protocol.Swap.Calldata.{IsSwap, encode_swap_call_iff}
use takapu_protocol_sdk.Router.Swap.{
  SwapCall, SwapRequest, normalized, swap_params, check_tokens, build_swap_with, with_parts,
  build_swap_call, is_buy,
}

-- The two directions of a pair; the flag is whether the base token is bought.
abbrev pub Trades : SwapRequest → Address → Address → Bool → Type 0
Trades request base quote bought =
    ((request.token_in ≡ base) × (request.token_out ≡ quote) × (bought ≡ false))
    ⊎ ((request.token_in ≡ quote) × (request.token_out ≡ base) × (bought ≡ true))

directed :
    (request : SwapRequest) (base quote : Address)
    → check_tokens request base quote ≡ ok tt
    → (0 < request.token_in)
      × (0 < request.token_out)
      × Trades request base quote (is_buy request base quote)
directed request base quote h = ground arith

pub direction_ok :
    (request : SwapRequest) (base quote : Address) (bought : Bool)
    → 0 < base
    → 0 < quote
    → (base ≡ quote → ⊥)
    → Trades request base quote bought
    → (check_tokens request base quote ≡ ok tt) × (is_buy request base quote ≡ bought)
direction_ok request base quote bought b q n t = ground arith

-- The inverse of a successful buildSwap.
with_parts_ok :
    (crypto : Crypto) (codecs : Codecs) (text : AddressText) (method : SwapMethod)
    (value : MarketFrame) (pair : PairKey) (words : FrameWords) (request : SwapRequest)
    (out : SwapCall)
    → build_swap_with crypto codecs text method value pair words request ≡ ok out
    → (check_tokens request
          (text.hex_to_address pair.base_token)
          (text.hex_to_address pair.quote_token)
        ≡ ok tt)
      × (out.params ≡ swap_params text value pair words request)
      × (encode_swap_call crypto codecs method (swap_params text value pair words request)
          ≡ ok out.calldata)
unfolding build_swap_with
with_parts_ok crypto codecs text method value pair words request out h =
    let base = text.hex_to_address pair.base_token in
    let quote = text.hex_to_address pair.quote_token in
    elim (Result-cases (check_tokens request base quote)) [
      | inr (e, q) ↦ absurd (ground arith)
      | inl (u, q) ↦
          elim (Result-cases
            (encode_swap_call crypto codecs method (swap_params text value pair words request))) [
              | inr (e, q2) ↦ absurd (ground arith)
              | inl (c, q2) ↦ (q, ground arith, ground arith)
            ]
    ]

-- The frame's signature with the last byte as the wire has it: 0 and 1 in 65 bytes become 27 and 28,
-- and everything else is kept.
abbrev pub IsRecovered : List ℕ → List ℕ → Type 0
IsRecovered given out =
    ((length given ≡ 65) × (byte_at given 64 < 2) × (out ≡ set given 64 (byte_at given 64 + 27)))
    ⊎ ((out ≡ given) × ((length given ≢ 65) ⊎ (2 ≤ byte_at given 64)))

other_length :
    (given : List ℕ)
    → (length given == 65 && ltb (byte_at given 64) 2) ≡ false
    → (length given ≢ 65) ⊎ (2 ≤ byte_at given 64)
other_length given h = elim (Bool-cases (length given == 65)) [
  | inl q ↦ inr (ground arith)
  | inr q ↦ inl (λ e. ground arith)
]

normalized-IsRecovered : (given : List ℕ) → IsRecovered given (normalized given)
normalized-IsRecovered given =
    if-holds {A = List ℕ} (IsRecovered given) (length given == 65 && ltb (byte_at given 64) 2)
      (λ raw.
        let below : byte_at given 64 < 2 = ground arith in
        let fits : (byte_at given 64 + 27) % 256 ≡ byte_at given 64 + 27 = omega arith in
        inl (ground arith, below, ap (set given 64) fits))
      (λ kept. inr (refl, other_length given kept))

-- What a swap built from a frame is.
pub record IsBuilt (crypto : Crypto) (codecs : Codecs) (text : AddressText) (method : SwapMethod)
    (value : MarketFrame) (request : SwapRequest) (out : SwapCall) : Type 0 where
  pub pair : PairKey
  pub words : FrameWords
  pub has_pair : value.pair ≡ some pair
  pub has_words : value.frame ≡ some words
  pub direction :
      Trades request
        (text.hex_to_address pair.base_token)
        (text.hex_to_address pair.quote_token)
        out.params.is_buy
  pub pair_id : out.params.pair_id ≡ pair.pair_id
  pub amount_in : out.params.amount_in ≡ request.amount_in
  pub min_amount_out : out.params.min_amount_out ≡ request.min_amount_out
  pub maker : out.params.maker ≡ text.hex_to_address value.maker_addr
  pub recipient : out.params.recipient ≡ request.recipient
  pub signature : List ℕ
  pub recovered : IsRecovered value.signature signature
  pub update :
      out.params.price_updates
      ≡ record {
        frame = record {
          header = words.header;
          bid_levels = words.bid_levels;
          ask_levels = words.ask_levels;
        };
        maker = text.hex_to_address value.maker_addr;
        signature = signature;
      }
        ∷ []
  pub accepted : IsSwap crypto method out.params
  pub calldata :
      codecs.contract.pack (name_of method) (swap_arguments out.params) ≡ some out.calldata

build_swap_with-IsBuilt :
    (crypto : Crypto) (codecs : Codecs) (text : AddressText) (method : SwapMethod)
    (value : MarketFrame) (pair : PairKey) (words : FrameWords) (request : SwapRequest)
    (out : SwapCall)
    → value.pair ≡ some pair
    → value.frame ≡ some words
    → build_swap_with crypto codecs text method value pair words request ≡ ok out
    → IsBuilt crypto codecs text method value request out
build_swap_with-IsBuilt crypto codecs text method value pair words request out ep ew h =
    let (tokens, same, encoded) =
      with_parts_ok crypto codecs text method value pair words request out h in
    let (one, two, way) =
      directed request (text.hex_to_address pair.base_token) (text.hex_to_address pair.quote_token)
        tokens in
    let (good, packs) =
      (encode_swap_call_iff crypto codecs method (swap_params text value pair words request)
          out.calldata).0
        encoded in
    record {
      pair = pair;
      words = words;
      has_pair = ep;
      has_words = ew;
      direction =
          subst
            (λ p.
              Trades request (text.hex_to_address pair.base_token)
                (text.hex_to_address pair.quote_token) p.is_buy)
            (sym same) way;
      pair_id = ap (λ p. p.pair_id) same;
      amount_in = ap (λ p. p.amount_in) same;
      min_amount_out = ap (λ p. p.min_amount_out) same;
      maker = ap (λ p. p.maker) same;
      recipient = ap (λ p. p.recipient) same;
      signature = normalized value.signature;
      recovered = normalized-IsRecovered value.signature;
      update = ap (λ p. p.price_updates) same;
      accepted = subst (IsSwap crypto method) (sym same) good;
      calldata =
          subst (λ p. codecs.contract.pack (name_of method) (swap_arguments p) ≡ some out.calldata)
            (sym same) packs;
    }

with_parts-IsBuilt :
    (crypto : Crypto) (codecs : Codecs) (text : AddressText) (method : SwapMethod)
    (value : MarketFrame) (p : Option PairKey) (w : Option FrameWords) (request : SwapRequest)
    (out : SwapCall)
    → value.pair ≡ p
    → value.frame ≡ w
    → with_parts crypto codecs text method value p w request ≡ ok out
    → IsBuilt crypto codecs text method value request out
with_parts-IsBuilt crypto codecs text method value none w request out ep ew h = cc
with_parts-IsBuilt crypto codecs text method value (some p) none request out ep ew h = cc
with_parts-IsBuilt crypto codecs text method value (some p) (some w) request out ep ew h =
    build_swap_with-IsBuilt crypto codecs text method value p w request out ep ew h

-- What buildSwap returns for a frame trades the tokens of the frame's pair, in the direction that
-- the caller asked for; its parameters are the caller's amounts and recipient, with the frame's pair
-- and maker and one price update that holds the frame's words and its signature, in which a last byte
-- 0 or 1 of 65 is 27 or 28; they are a swap that
-- the protocol accepts, and the calldata is what the ABI codec packs for them.
pub build_swap_call-IsBuilt :
    (crypto : Crypto) (codecs : Codecs) (text : AddressText) (method : SwapMethod)
    (value : MarketFrame) (request : SwapRequest) (out : SwapCall)
    → build_swap_call crypto codecs text method (some value) request ≡ ok out
    → IsBuilt crypto codecs text method value request out
unfolding build_swap_call
build_swap_call-IsBuilt crypto codecs text method value request out h =
    with_parts-IsBuilt crypto codecs text method value value.pair value.frame request out refl refl
      h
