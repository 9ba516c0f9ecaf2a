-- ===== src/Protocol/Swap/Calldata.antt =====
-- The swaps that EncodeSwapCall of pkg/protocol/swap.go encodes.
use takapu_protocol_sdk.Prelude.{
  ℕ, ◌+◌, ◌<◌, ◌^◌, ◌≡◌, inl, inr, refl, arith, ◌↔◌, true, false, none, some, List, [], ◌∷◌, All,
  ok, Result-cases, Option-cases, BigInt, pos, negsuc, magnitude, out_of_range,
}
use takapu_protocol_sdk.Frame.Signing.{Crypto, SignedFrame}
use takapu_protocol_sdk.Protocol.Validation.{validate_signed, uint256}
use takapu_protocol_sdk.Protocol.Validation.Laws.{IsUpdate, validate_signed_iff}
use takapu_protocol_sdk.Protocol.Client.{Codecs}
use takapu_protocol_sdk.Protocol.Swap.{
  SwapMethod, SwapParams, is_supported, validate_updates, validate_swap, encode_swap_call, name_of,
  swap_arguments,
}

-- A number within uint256, positive or not.
pub data IsUint256 : BigInt → Type 0 where
  fits : (n : ℕ) → n < 2 ^ 256 → IsUint256 (some (pos n))

pub record IsSwap (crypto : Crypto) (method : SwapMethod) (params : SwapParams) : Type 0 where
  pub supported : is_supported method ≡ true
  pub paired : 0 < params.pair_id
  pub offers : 0 < magnitude params.amount_in
  pub amount : IsUint256 params.amount_in
  pub minimum : IsUint256 params.min_amount_out
  pub maker : 0 < params.maker
  pub recipient : 0 < params.recipient
  pub updates : All (IsUpdate crypto) params.price_updates

in_range : (v : BigInt) → out_of_range 256 false v ≡ false → IsUint256 v
in_range none h = cc
in_range (some (negsuc n)) h = cc
in_range (some (pos n)) h = fits n (ground arith)

in_positive_range : (v : BigInt) → out_of_range 256 true v ≡ false → IsUint256 v × (0 < magnitude v)
in_positive_range none h = cc
in_positive_range (some (negsuc n)) h = cc
in_positive_range (some (pos n)) h = (fits n (ground arith), ground arith)

range_in : (v : BigInt) → IsUint256 v → out_of_range 256 false v ≡ false
range_in _ (fits n h) = ground arith

positive_range_in : (v : BigInt) → IsUint256 v → 0 < magnitude v → out_of_range 256 true v ≡ false
positive_range_in _ (fits n h) p = ground arith

updates_accepted :
    (crypto : Crypto) (i : ℕ) (values : List SignedFrame)
    → validate_updates crypto i values ≡ ok tt
    → All (IsUpdate crypto) values
unfolding validate_updates
updates_accepted crypto i [] h = tt
updates_accepted crypto i (v ∷ vs) h = elim (Result-cases (validate_signed crypto v)) [
  | inr (e, q) ↦ absurd (ground arith)
  | inl (u, q) ↦
      ((validate_signed_iff crypto v).0 q, updates_accepted crypto (i + 1) vs (ground arith))
]

updates_accept :
    (crypto : Crypto) (i : ℕ) (values : List SignedFrame)
    → All (IsUpdate crypto) values
    → validate_updates crypto i values ≡ ok tt
unfolding validate_updates
updates_accept crypto i [] h = refl
updates_accept crypto i (v ∷ vs) (h, hs) =
    ground (arith, (validate_signed_iff crypto v).1 h, updates_accept crypto (i + 1) vs hs)

swap_accepted :
    (crypto : Crypto) (method : SwapMethod) (params : SwapParams)
    → validate_swap crypto method params ≡ ok tt
    → IsSwap crypto method params
unfolding validate_swap uint256
swap_accepted crypto method params h =
    let (amount, offers) = in_positive_range params.amount_in (ground arith) in
    record {
      supported = ground arith;
      paired = ground arith;
      offers = offers;
      amount = amount;
      minimum = in_range params.min_amount_out (ground arith);
      maker = ground arith;
      recipient = ground arith;
      updates = updates_accepted crypto 0 params.price_updates (ground arith);
    }

swap_accepts :
    (crypto : Crypto) (method : SwapMethod) (params : SwapParams)
    → IsSwap crypto method params
    → validate_swap crypto method params ≡ ok tt
unfolding validate_swap uint256
swap_accepts crypto method params h =
    let a = positive_range_in params.amount_in h.amount h.offers in
    let m = range_in params.min_amount_out h.minimum in
    let u = updates_accept crypto 0 params.price_updates h.updates in ground arith

encode_parts :
    (crypto : Crypto) (codecs : Codecs) (method : SwapMethod) (params : SwapParams)
    (calldata : List ℕ)
    → encode_swap_call crypto codecs method params ≡ ok calldata
    → (validate_swap crypto method params ≡ ok tt)
      × (codecs.contract.pack (name_of method) (swap_arguments params) ≡ some calldata)
unfolding encode_swap_call
encode_parts crypto codecs method params calldata h =
    elim (Result-cases (validate_swap crypto method params)) [
      | inr (e, q) ↦ absurd (ground arith)
      | inl (u, q) ↦
          elim (Option-cases (codecs.contract.pack (name_of method) (swap_arguments params))) [
            | inl q2 ↦ absurd (ground arith)
            | inr (c, q2) ↦ (q, ground arith)
          ]
    ]

encode_ok :
    (crypto : Crypto) (codecs : Codecs) (method : SwapMethod) (params : SwapParams)
    (calldata : List ℕ)
    → validate_swap crypto method params ≡ ok tt
    → codecs.contract.pack (name_of method) (swap_arguments params) ≡ some calldata
    → encode_swap_call crypto codecs method params ≡ ok calldata
unfolding encode_swap_call
encode_ok crypto codecs method params calldata valid bytes = rw (valid, bytes)

-- EncodeSwapCall packs the arguments of a swap exactly if the swap is well formed: one of the three
-- methods, a pair, a positive amount and a minimum within uint256, a maker, a recipient, and updates
-- that the contract can check; and it returns what the ABI codec packs for the method.
pub encode_swap_call_iff :
    (crypto : Crypto) (codecs : Codecs) (method : SwapMethod) (params : SwapParams)
    (calldata : List ℕ)
    → (encode_swap_call crypto codecs method params ≡ ok calldata) ↔ (
        IsSwap crypto method params
        × (codecs.contract.pack (name_of method) (swap_arguments params) ≡ some calldata))
encode_swap_call_iff crypto codecs method params calldata = (
  λ h.
      let (valid, bytes) = encode_parts crypto codecs method params calldata h in
      (swap_accepted crypto method params valid, bytes),
  λ h. encode_ok crypto codecs method params calldata (swap_accepts crypto method params h.0) h.1,
)
