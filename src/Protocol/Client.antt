-- ===== src/Protocol/Client.antt =====
-- pkg/protocol/client.go, and what the package uses of go-ethereum: the ABI codec of abi.go and the
-- RPC client. An RPC call is a function of its request; `none` for a block is the latest one.
use takapu_protocol_sdk.Prelude.{
  ℕ, List, Bool, false, not, ◌||◌, ◌==◌, Option, none, some, ℤ, pos, BigInt, Result, ok, err,
  fail_if, wrap, ◌>>◌,
}
use takapu_protocol_sdk.Decimal.Digits.{Text}
use takapu_protocol_sdk.Frame.Types.{Address}
use takapu_protocol_sdk.Protocol.Errors.{
  Value, address, big, u32, bool, Failure, ProtocolError, failed, context_nil, client_fields,
  chain_id_read, chain_id_mismatch, pack_failed, unpack_failed, wrong_type,
}
use takapu_protocol_sdk.Protocol.Revert.{ErrorData, RevertCodec, parse_revert}

-- A parsed ABI: the calldata of a method, and the values that a method returns.
pub record Abi : Type 0 where
  pub pack : Text → List Value → Option (List ℕ)
  pub unpack : Text → List ℕ → Option (List Value)

pub record CallMsg : Type 0 where
  pub caller : Address
  pub to : Address
  pub input : List ℕ

-- `ethclient.Client`, with the data of its errors in `heap`.
pub record Rpc : Type 0 where
  pub chain_id : Option BigInt
  pub block_number : Option ℕ
  pub call_contract : CallMsg → BigInt → Result Failure (List ℕ)
  pub heap : ℕ → ErrorData

pub record Config : Type 0 where
  pub chain_id : ℕ
  pub proxy : Address

pub record Client : Type 0 where
  pub rpc : Rpc
  pub cfg : Config

-- What the package holds for all clients: `contractABI`, `tokenABI`, and the errors of the former.
pub record Codecs : Type 0 where
  pub contract : Abi
  pub token : Abi
  pub reverts : RevertCodec

abbrev pub same_integer : BigInt → ℕ → Bool
same_integer (some (pos n)) m = n == m
same_integer other m = false

abbrev pub check_chain : Option BigInt → ℕ → Result ProtocolError (Unit {0})
check_chain none chain = err chain_id_read
check_chain (some id) chain = fail_if (not (same_integer id chain)) chain_id_mismatch

-- `NewClient`; `none` is a nil RPC client.
unfoldable pub new_client : Bool → Option Rpc → Config → Result ProtocolError Client
new_client has_context none cfg = do fail_if (not has_context) context_nil; err client_fields
new_client has_context (some rpc) cfg = do
  fail_if (not has_context) context_nil
  fail_if (cfg.chain_id == 0 || cfg.proxy == 0) client_fields
  check_chain rpc.chain_id cfg.chain_id
  ok (record { rpc = rpc; cfg = cfg })

abbrev pub packed : Option (List ℕ) → Result ProtocolError (List ℕ)
packed none = err pack_failed
packed (some bytes) = ok bytes

abbrev pub unpacked : Option (List Value) → Result ProtocolError (List Value)
unpacked none = err unpack_failed
unpacked (some values) = ok values

-- `CallContract`, whose error goes through ParseRevert.
unfoldable pub call : Codecs → Client → CallMsg → BigInt → Result ProtocolError (List ℕ)
call codecs client msg block =
    wrap (λ (e : Failure). failed (parse_revert codecs.reverts client.rpc.heap e))
      (client.rpc.call_contract msg block)

-- Type assertions, which panic on a value of another type; the ABI fixes the types.
abbrev pub as_address : Value → Result ProtocolError Address
as_address (address a) = ok a
as_address other = err wrong_type

abbrev pub as_big : Value → Result ProtocolError ℤ
as_big (big n) = ok n
as_big other = err wrong_type

abbrev pub as_u32 : Value → Result ProtocolError ℕ
as_u32 (u32 n) = ok n
as_u32 other = err wrong_type

abbrev pub as_bool : Value → Result ProtocolError Bool
as_bool (bool b) = ok b
as_bool other = err wrong_type
