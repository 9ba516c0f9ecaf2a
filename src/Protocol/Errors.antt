-- ===== src/Protocol/Errors.antt =====
-- The errors of pkg/protocol, one constructor for each message, and the failures of an RPC call.
use takapu_protocol_sdk.Prelude.{ℕ, ℤ, Bool, List}
use takapu_protocol_sdk.Decimal.Digits.{Text}
use takapu_protocol_sdk.Frame.Types.{Address, CompactFrame}
use takapu_protocol_sdk.Frame.Signing.{SignedFrame}
use takapu_protocol_sdk.Frame.Errors.{FrameError}

-- What the ABI codec packs and unpacks, with the Go types that it uses.
pub data Value : Type 0 where
  address : Address → Value
  big : ℤ → Value
  u32 : ℕ → Value
  bool : Bool → Value
  bytes : List ℕ → Value
  text : Text → Value
  frame : CompactFrame → Value
  frames : List SignedFrame → Value

-- `RevertError`; the cause is a number, like every error of a library.
pub record RevertError : Type 0 where
  pub name : Text
  pub arguments : List Value
  pub raw : List ℕ
  pub cause : ℕ

-- An error of the RPC connection: a RevertError (or one that wraps it), an `rpc.DataError` with a
-- reference to its data, or any other.
pub data Failure : Type 0 where
  reverted : RevertError → Failure
  with_data : ℕ → ℕ → Failure
  plain : ℕ → Failure

-- The names that uint256 puts into its message.
pub data Quantity : Type 0 where
  amount_in min_amount_out approval_amount gas_price gas_fee_cap gas_tip_cap gross_amount : Quantity

pub data ProtocolError : Type 0 where
  context_nil negative_block : ProtocolError
  update_maker_zero update_recovery_id : ProtocolError
  update_frame update_signature : FrameError → ProtocolError
  not_uint256 : Quantity → ProtocolError
  unsupported_method pair_id_zero maker_or_recipient_zero : ProtocolError
  price_updates : ℕ → ProtocolError → ProtocolError
  pack_failed : ProtocolError
  only_swap_simulation payer_zero : ProtocolError
  failed : Failure → ProtocolError
  unpack_failed malformed_result wrong_type : ProtocolError
  client_fields chain_id_read chain_id_mismatch : ProtocolError
  options_incomplete native_value nonce_range : ProtocolError
  context_done token_zero token_or_owner_zero : ProtocolError
  signer_failed signed_nil signed_chain sender_unknown signed_sender signed_contents : ProtocolError
  hash_zero receipt_nil receipt_failed receipt_error : ProtocolError
  log_removed log_malformed log_data log_topics : ℕ → ProtocolError
  pair_tokens pair_scales pair_fee_rate pair_fee_token block_number_read : ProtocolError
  decay_config : ProtocolError
