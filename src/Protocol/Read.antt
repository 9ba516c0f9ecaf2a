-- ===== src/Protocol/Read.antt =====
-- pkg/protocol/read.go.
pub mod Pairs
use takapu_protocol_sdk.Prelude.{
  ℕ, ◌+◌, List, [], ◌∷◌, Bool, true, false, not, xor, ◌&&◌, ◌||◌, ltb, leb, ◌==◌, if◌then◌else◌,
  Option, none, some, ℤ, pos, negsuc, BigInt, out_of_range, Result, ok, err, fail_if, wrap, ◌>>=◌,
  ◌>>◌,
}
use takapu_protocol_sdk.Decimal.Digits.{Text}
use takapu_protocol_sdk.Frame.Types.{Address}
use takapu_protocol_sdk.Protocol.Decay.{ppm_denominator, GlobalDecayConfig, DecayError, validate}
use takapu_protocol_sdk.Protocol.Errors.{
  Value, u32, address, ProtocolError, pair_id_zero, malformed_result, pair_tokens, pair_scales,
  pair_fee_rate, pair_fee_token, block_number_read, decay_config, token_or_owner_zero,
}
use takapu_protocol_sdk.Protocol.Validation.{validate_block}
use takapu_protocol_sdk.Protocol.Client.{
  Abi, CallMsg, Client, Codecs, packed, unpacked, call, as_address, as_big, as_u32, as_bool,
}

pub record PairConfig : Type 0 where
  pub base_token : Address
  pub quote_token : Address
  pub price_tick_size : ℤ
  pub lot_size : ℤ
  pub active : Bool
  pub fee_token : Address
  pub fee_rate : ℕ

-- A read of the proxy: pack, call and unpack by the contract's ABI. Call messages of reads name no
-- caller, which is the zero address.
unfoldable pub read_contract :
    Codecs → Client → Text → List Value → BigInt → Result ProtocolError (List Value)
read_contract codecs client method arguments block = do
  input ← packed (codecs.contract.pack method arguments)
  raw ← call codecs client (record { caller = 0; to = client.cfg.proxy; input = input }) block
  unpacked (codecs.contract.unpack method raw)

-- `v.Sign() <= 0 || v.BitLen() > 128`
abbrev pub bad_scale : ℤ → Bool
bad_scale n = out_of_range 128 true (some n)

-- `feeRate.IsUint64()` and the test against the denominator.
abbrev pub check_fee_rate : ℤ → Result ProtocolError ℕ
check_fee_rate (pos n) = do fail_if (leb ppm_denominator n) pair_fee_rate; ok n
check_fee_rate (negsuc n) = err pair_fee_rate

-- The checks of `PairConfig` on what was read.
unfoldable pub check_pair : PairConfig → ℤ → Result ProtocolError PairConfig
check_pair cfg rate = do
  fail_if (cfg.base_token == 0 || cfg.quote_token == 0 || cfg.base_token == cfg.quote_token)
      pair_tokens
  fail_if (bad_scale cfg.price_tick_size || bad_scale cfg.lot_size) pair_scales
  fee_rate ← check_fee_rate rate
  fail_if
      (xor (fee_rate == 0) (cfg.fee_token == 0)
        || not (cfg.fee_token == 0)
          && not (cfg.fee_token == cfg.base_token)
          && not (cfg.fee_token == cfg.quote_token))
      pair_fee_token
  ok (record cfg { fee_rate = fee_rate })

unfoldable pub pair_of_values : List Value → Result ProtocolError PairConfig
pair_of_values (b ∷ q ∷ t ∷ l ∷ a ∷ f ∷ r ∷ []) = do
  base ← as_address b
  quote ← as_address q
  tick ← as_big t
  lot ← as_big l
  active ← as_bool a
  fee ← as_address f
  rate ← as_big r
  check_pair
      (record {
        base_token = base;
        quote_token = quote;
        price_tick_size = tick;
        lot_size = lot;
        active = active;
        fee_token = fee;
        fee_rate = 0;
      })
      rate
pair_of_values values = err malformed_result

abbrev pub pair_configs : Text
pair_configs = b'p' ∷ b'a' ∷ b'i' ∷ b'r' ∷ b'C' ∷ b'o' ∷ b'n' ∷ b'f' ∷ b'i' ∷ b'g' ∷ b's' ∷ []

-- `PairConfig`
unfoldable pub pair_config : Codecs → Client → Bool → ℕ → BigInt → Result ProtocolError PairConfig
pair_config codecs client has_context pair_id block = do
  validate_block has_context block
  fail_if (pair_id == 0) pair_id_zero
  values ← read_contract codecs client pair_configs (u32 pair_id ∷ []) block
  pair_of_values values

unfoldable pub one_address : List Value → Result ProtocolError Address
one_address (a ∷ []) = as_address a
one_address values = err malformed_result

abbrev pub fee_recipient_method : Text
fee_recipient_method =
    b'f' ∷ b'e' ∷ b'e' ∷ b'R' ∷ b'e' ∷ b'c' ∷ b'i' ∷ b'p' ∷ b'i' ∷ b'e' ∷ b'n' ∷ b't' ∷ []

-- `FeeRecipient`
unfoldable pub fee_recipient : Codecs → Client → Bool → BigInt → Result ProtocolError Address
fee_recipient codecs client has_context block = do
  validate_block has_context block
  values ← read_contract codecs client fee_recipient_method [] block
  one_address values

abbrev pub latest : Option ℕ → Result ProtocolError BigInt
latest none = err block_number_read
latest (some n) = ok (some (pos n))

-- The block of both reads: the given one, or the latest number.
abbrev pub block_of : Client → BigInt → Result ProtocolError BigInt
block_of client (some n) = ok (some n)
block_of client none = latest client.rpc.block_number

-- The pair's settings without its fee where no recipient collects it.
abbrev pub without_fee : Address → PairConfig → PairConfig
without_fee recipient cfg =
    if recipient == 0 then record cfg { fee_token = 0; fee_rate = 0 } else cfg

-- `EffectivePairConfig`
unfoldable pub effective_pair_config :
    Codecs → Client → Bool → ℕ → BigInt → Result ProtocolError PairConfig
effective_pair_config codecs client has_context pair_id block = do
  validate_block has_context block
  fail_if (pair_id == 0) pair_id_zero
  number ← block_of client block
  cfg ← pair_config codecs client has_context pair_id number
  recipient ← fee_recipient codecs client has_context number
  ok (without_fee recipient cfg)

unfoldable pub decay_of_values : List Value → Result ProtocolError GlobalDecayConfig
decay_of_values (a ∷ b ∷ c ∷ d ∷ []) = do
  start ← as_u32 a
  end ← as_u32 b
  age ← as_u32 c
  decay ← as_u32 d
  let cfg : GlobalDecayConfig = record {
    decay_start_offset_seconds = start;
    decay_end_offset_seconds = end;
    max_age = age;
    max_decay_ppm = decay;
  }
  wrap (λ (e : DecayError). decay_config) (validate cfg)
  ok cfg
decay_of_values values = err malformed_result

abbrev pub decay_method : Text
decay_method =
    b'g' ∷ b'l' ∷ b'o' ∷ b'b' ∷ b'a' ∷ b'l' ∷ b'D' ∷ b'e' ∷ b'c' ∷ b'a' ∷ b'y' ∷ b'C' ∷ b'o' ∷ b'n'
    ∷ b'f' ∷ b'i' ∷ b'g' ∷ []

-- `GlobalDecayConfig`
unfoldable pub global_decay_config :
    Codecs → Client → Bool → BigInt → Result ProtocolError GlobalDecayConfig
global_decay_config codecs client has_context block = do
  validate_block has_context block
  values ← read_contract codecs client decay_method [] block
  decay_of_values values

unfoldable pub one_integer : List Value → Result ProtocolError ℤ
one_integer (n ∷ []) = as_big n
one_integer values = err malformed_result

abbrev pub allowance_method : Text
allowance_method = b'a' ∷ b'l' ∷ b'l' ∷ b'o' ∷ b'w' ∷ b'a' ∷ b'n' ∷ b'c' ∷ b'e' ∷ []

-- `Allowance`
unfoldable pub allowance : Codecs → Client → Bool → Address → Address → Result ProtocolError ℤ
allowance codecs client has_context token owner = do
  validate_block has_context none
  fail_if (token == 0 || owner == 0) token_or_owner_zero
  input ←
      packed (codecs.token.pack allowance_method (address owner ∷ address client.cfg.proxy ∷ []))
  raw ← call codecs client (record { caller = 0; to = token; input = input }) none
  values ← unpacked (codecs.token.unpack allowance_method raw)
  one_integer values
