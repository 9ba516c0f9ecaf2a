-- ===== src/Frame/Errors.antt =====
-- The errors that pkg/frame returns, one constructor for each message.
use takapu_protocol_sdk.Prelude.{ℕ}

pub data FrameError : Type 0 where
  -- codec.go
  reserved_level_bits : FrameError
  no_quantity : ℕ → FrameError
  follows_empty : ℕ → FrameError
  offsets_not_increasing : ℕ → FrameError
  codec_version_unknown : FrameError
  protocol_owned_fields : FrameError
  pair_id_zero : FrameError
  base_tick_zero : FrameError
  bids : FrameError → FrameError
  asks : FrameError → FrameError
  bid_below_one_tick : FrameError
  ask_exceeds_uint24 : FrameError
  base_tick_range : FrameError
  too_many_levels : FrameError
  level_range : ℕ → FrameError
  -- frame.go, signing.go
  pair_tokens : FrameError
  price_tick_size_range : FrameError
  lot_size_range : FrameError
  chain_id_zero : FrameError
  protocol_zero : FrameError
  maker_zero : FrameError
  signature_length : FrameError
  recovery_id : FrameError
  signature_values : FrameError
  expected_signer_zero : FrameError
  recover_signer : FrameError
  signer_mismatch : FrameError
  context_nil : FrameError
  context_done : FrameError
  signer_nil : FrameError
  signer_address_zero : FrameError
  sign_digest : FrameError
  -- prepare.go, decimal.go
  uninitialized : FrameError
  decimal_too_long : FrameError
