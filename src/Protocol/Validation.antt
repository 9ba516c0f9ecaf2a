-- ===== src/Protocol/Validation.antt =====
-- pkg/protocol/validation.go; the name of the quantity stands in the error of uint256.
pub mod Laws
use takapu_protocol_sdk.Prelude.{
  ℕ, ◌+◌, ◌-◌, List, Bool, true, false, not, ◌&&◌, ◌||◌, ltb, ◌==◌, Option, none, some, ℤ, pos,
  negsuc, BigInt, out_of_range, Result, ok, err, fail_if, wrap, ◌>>=◌, ◌>>◌,
}
use takapu_protocol_sdk.Frame.Words.{byte_at}
use takapu_protocol_sdk.Frame.Codec.{validate_compact_frame}
use takapu_protocol_sdk.Frame.Signing.{Crypto, SignedFrame, normalize_signature}
use takapu_protocol_sdk.Protocol.Errors.{
  ProtocolError, Quantity, context_nil, negative_block, update_maker_zero, update_frame,
  update_signature, update_recovery_id, not_uint256,
}

abbrev pub is_negative : BigInt → Bool
is_negative none = false
is_negative (some (pos n)) = false
is_negative (some (negsuc n)) = true

-- `validateBlock`; `has_context` is `ctx != nil`.
unfoldable pub validate_block : Bool → BigInt → Result ProtocolError (Unit {0})
validate_block has_context block = do
  fail_if (not has_context) context_nil
  fail_if (is_negative block) negative_block

-- `validateSigned`
unfoldable pub validate_signed : Crypto → SignedFrame → Result ProtocolError (Unit {0})
validate_signed crypto value = do
  fail_if (value.maker == 0) update_maker_zero
  wrap update_frame (validate_compact_frame value.frame)
  normalized ← wrap update_signature (normalize_signature crypto value.signature)
  fail_if (not (byte_at value.signature 64 == 27) && not (byte_at value.signature 64 == 28))
      update_recovery_id

-- `uint256`
unfoldable pub uint256 : Quantity → BigInt → Bool → Result ProtocolError (Unit {0})
uint256 name v positive = fail_if (out_of_range 256 positive v) (not_uint256 name)
