-- ===== src/Protocol/Swap.antt =====
-- pkg/protocol/swap.go without its transactions.
pub mod Calldata
use takapu_protocol_sdk.Prelude.{
  ℕ, ◌+◌, List, [], ◌∷◌, Bool, true, false, not, ◌&&◌, ◌||◌, ◌==◌, Option, none, some, ℤ, pos,
  BigInt, Result, ok, err, fail_if, wrap, ◌>>=◌, ◌>>◌,
}
use takapu_protocol_sdk.Decimal.Digits.{Text}
use takapu_protocol_sdk.Frame.Types.{Address}
use takapu_protocol_sdk.Frame.Signing.{Crypto, SignedFrame}
use takapu_protocol_sdk.Protocol.Errors.{
  Value, address, big, u32, bool, frames, ProtocolError, amount_in, min_amount_out,
  unsupported_method, pair_id_zero, maker_or_recipient_zero, price_updates, only_swap_simulation,
  payer_zero, malformed_result,
}
use takapu_protocol_sdk.Protocol.Validation.{validate_block, validate_signed, uint256}
use takapu_protocol_sdk.Protocol.Client.{
  Abi, CallMsg, Client, Codecs, packed, unpacked, call, as_big,
}

-- `SwapMethod`, a string, of which three are supported.
pub data SwapMethod : Type 0 where
  swap swap_exact_in swap_with_callback : SwapMethod
  other_method : Text → SwapMethod

pub record SwapParams : Type 0 where
  pub pair_id : ℕ
  pub is_buy : Bool
  pub amount_in : BigInt
  pub min_amount_out : BigInt
  pub maker : Address
  pub recipient : Address
  pub price_updates : List SignedFrame

pub record SwapResult : Type 0 where
  pub actual_amount_in : ℤ
  pub amount_out : ℤ

abbrev pub name_of : SwapMethod → Text
name_of swap = b's' ∷ b'w' ∷ b'a' ∷ b'p' ∷ []
name_of swap_exact_in =
    b's' ∷ b'w' ∷ b'a' ∷ b'p' ∷ b'E' ∷ b'x' ∷ b'a' ∷ b'c' ∷ b't' ∷ b'I' ∷ b'n' ∷ []
name_of swap_with_callback =
    b's' ∷ b'w' ∷ b'a' ∷ b'p' ∷ b'W' ∷ b'i' ∷ b't' ∷ b'h' ∷ b'C' ∷ b'a' ∷ b'l' ∷ b'l' ∷ b'b' ∷ b'a'
    ∷ b'c' ∷ b'k' ∷ []
name_of (other_method t) = t

abbrev pub is_supported : SwapMethod → Bool
is_supported (other_method t) = false
is_supported method = true

-- The methods that a simulation takes.
abbrev pub is_direct : SwapMethod → Bool
is_direct swap = true
is_direct swap_exact_in = true
is_direct method = false

-- The loop over the price updates.
unfoldable pub validate_updates : Crypto → ℕ → List SignedFrame → Result ProtocolError (Unit {0})
validate_updates crypto i [] = ok tt
validate_updates crypto i (value ∷ values) = do
  wrap (price_updates i) (validate_signed crypto value)
  validate_updates crypto (i + 1) values

-- The checks of `EncodeSwapCall`.
unfoldable pub validate_swap : Crypto → SwapMethod → SwapParams → Result ProtocolError (Unit {0})
validate_swap crypto method params = do
  fail_if (not (is_supported method)) unsupported_method
  fail_if (params.pair_id == 0) pair_id_zero
  uint256 amount_in params.amount_in true
  uint256 min_amount_out params.min_amount_out false
  fail_if (params.maker == 0 || params.recipient == 0) maker_or_recipient_zero
  validate_updates crypto 0 params.price_updates

-- The number that a checked pointer holds.
abbrev pub integer : BigInt → ℤ
integer none = pos 0
integer (some n) = n

-- The arguments of a swap, in the order of the ABI.
abbrev pub swap_arguments : SwapParams → List Value
swap_arguments params =
    u32 params.pair_id
    ∷ bool params.is_buy
    ∷ big (integer params.amount_in)
    ∷ big (integer params.min_amount_out)
    ∷ address params.maker
    ∷ address params.recipient
    ∷ frames params.price_updates
    ∷ []

-- `EncodeSwapCall`
unfoldable pub encode_swap_call :
    Crypto → Codecs → SwapMethod → SwapParams → Result ProtocolError (List ℕ)
encode_swap_call crypto codecs method params = do
  validate_swap crypto method params
  packed (codecs.contract.pack (name_of method) (swap_arguments params))

-- The two values of a swap's result.
unfoldable pub swap_result : List Value → Result ProtocolError SwapResult
swap_result (a ∷ b ∷ []) = do
  actual ← as_big a
  out ← as_big b
  ok (record { actual_amount_in = actual; amount_out = out })
swap_result values = err malformed_result

-- `SimulateSwap`
unfoldable pub simulate_swap :
    Crypto
    → Codecs
    → Client
    → Bool
    → Address
    → SwapMethod
    → SwapParams
    → BigInt
    → Result ProtocolError SwapResult
simulate_swap crypto codecs client has_context caller method params block = do
  validate_block has_context block
  fail_if (not (is_direct method)) only_swap_simulation
  fail_if (caller == 0) payer_zero
  input ← encode_swap_call crypto codecs method params
  raw ← call codecs client (record { caller = caller; to = client.cfg.proxy; input = input }) block
  values ← unpacked (codecs.contract.unpack (name_of method) raw)
  swap_result values
