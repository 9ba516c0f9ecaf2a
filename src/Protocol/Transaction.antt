-- ===== src/Protocol/Transaction.antt =====
-- pkg/protocol/transaction.go, and Swap and SwapExactIn of swap.go.
pub mod Contents
use takapu_protocol_sdk.Prelude.{
  same_bytes, ℕ, ◌+◌, List, [], ◌∷◌, Bool, true, false, not, ◌&&◌, ◌||◌, ◌==◌, if◌then◌else◌,
  Option, none, some, ℤ, pos, negsuc, BigInt, out_of_range, Result, ok, err, fail_if, wrap, ◌>>=◌,
  ◌>>◌,
}
use takapu_protocol_sdk.Decimal.Digits.{Text}
use takapu_protocol_sdk.Frame.Types.{Address}
use takapu_protocol_sdk.Frame.Words.{Word}
use takapu_protocol_sdk.Frame.Signing.{Crypto, SignedFrame}
use takapu_protocol_sdk.Protocol.Errors.{
  Value, address, big, bytes, frame, Failure, ProtocolError, failed, approval_amount, gas_price,
  gas_fee_cap, gas_tip_cap, options_incomplete, native_value, nonce_range, context_done, token_zero,
  signer_failed, signed_nil, signed_chain, sender_unknown, signed_sender, signed_contents,
}
use takapu_protocol_sdk.Protocol.Revert.{parse_revert}
use takapu_protocol_sdk.Protocol.Validation.{validate_signed, uint256}
use takapu_protocol_sdk.Protocol.Client.{Abi, Client, Codecs, packed}
use takapu_protocol_sdk.Protocol.Swap.{
  SwapMethod, swap, swap_exact_in, SwapParams, encode_swap_call,
}

pub record AccessTuple : Type 0 where
  pub address : Address
  pub storage_keys : List ℕ

-- A transaction: what transact reads of it, and the rest of its contents.
pub record Transaction : Type 0 where
  pub chain_id : ℕ
  pub to : Option Address
  pub value : ℕ
  pub input : List ℕ
  pub nonce : ℕ
  pub fees : ℕ × ℕ × ℕ
  pub access_list : List AccessTuple
  pub signature : List ℕ

-- A signing callback: an error, or a transaction, which may be nil.
abbrev pub SignerFn : Type 0
SignerFn = Address → Transaction → Option (Option Transaction)

-- `bind.TransactOpts`; the signer is `none` when it is nil, and a context is what `Err` answers.
pub record TransactOpts : Type 0 where
  pub caller : Address
  pub signer : Option SignerFn
  pub nonce : BigInt
  pub value : BigInt
  pub gas_price : BigInt
  pub gas_fee_cap : BigInt
  pub gas_tip_cap : BigInt
  pub access_list : List AccessTuple
  pub context : Option Bool
  pub no_send : Bool

-- What is used of go-ethereum's `core/types` and `bind`: the hash that LatestSignerForChainID signs,
-- `Sender`, `RawTransact` with a signer, and `SendTransaction`, whose failures are errors.
pub record Chain : Type 0 where
  pub signing_hash : ℕ → Transaction → Word
  pub sender : ℕ → Transaction → Option Address
  pub raw_transact :
      TransactOpts
      → (Address → Transaction → Result ProtocolError Transaction)
      → Address
      → List ℕ
      → Result Failure Transaction
  pub send_transaction : Transaction → Option Failure

abbrev pub is_zero : BigInt → Bool
is_zero none = true
is_zero (some (pos n)) = n == 0
is_zero (some (negsuc n)) = false

-- `opts.Nonce != nil && (opts.Nonce.Sign() < 0 || opts.Nonce.BitLen() > 64)`
abbrev pub bad_nonce : BigInt → Bool
bad_nonce none = false
bad_nonce (some n) = out_of_range 64 false (some n)

-- A gas quantity that is set is a uint256.
abbrev pub check_gas : BigInt → Result ProtocolError (Unit {0}) → Result ProtocolError (Unit {0})
check_gas none check = ok tt
check_gas (some n) check = check

-- The options that `transact` goes on with: the caller's signer apart, and a context that is set.
pub record LocalOpts : Type 0 where
  pub opts : TransactOpts
  pub signer : SignerFn
  pub canceled : Bool

-- `copy.Context`, which is the background context when none is given.
abbrev pub context_or_background : Option Bool → Bool
context_or_background none = false
context_or_background (some canceled) = canceled

-- The checks of `copyOpts` on the numbers. The order of the three gas checks is that of a Go map,
-- which is open; here it is the order in which they are written.
unfoldable pub check_numbers : TransactOpts → Result ProtocolError (Unit {0})
check_numbers opts = do
  fail_if (not (is_zero opts.value)) native_value
  fail_if (bad_nonce opts.nonce) nonce_range
  check_gas opts.gas_price (uint256 gas_price opts.gas_price false)
  check_gas opts.gas_fee_cap (uint256 gas_fee_cap opts.gas_fee_cap false)
  check_gas opts.gas_tip_cap (uint256 gas_tip_cap opts.gas_tip_cap false)

unfoldable pub copy_with : TransactOpts → Option SignerFn → Result ProtocolError LocalOpts
copy_with opts none = err options_incomplete
copy_with opts (some signer) = do
  fail_if (opts.caller == 0) options_incomplete
  check_numbers opts
  ok (record {
    opts = record opts { context = some (context_or_background opts.context) };
    signer = signer;
    canceled = context_or_background opts.context;
  })

-- `copyOpts`. The copies of the numbers and lists are the same values.
unfoldable pub copy_opts : Option TransactOpts → Result ProtocolError LocalOpts
copy_opts none = err options_incomplete
copy_opts (some opts) = copy_with opts opts.signer

abbrev pub is_to : Option Address → Address → Bool
is_to none to = false
is_to (some a) to = a == to

abbrev pub check_sender : Option Address → Address → Result ProtocolError (Unit {0})
check_sender none expected = err sender_unknown
check_sender (some a) expected = fail_if (not (a == expected)) signed_sender

-- The checks of the wrapped signer on what the caller's signer returned.
unfoldable pub check_signed :
    Chain
    → ℕ
    → Address
    → Address
    → List ℕ
    → Transaction
    → Option (Option Transaction)
    → Result ProtocolError Transaction
check_signed chain id caller to input unsigned none = err signer_failed
check_signed chain id caller to input unsigned (some none) = err signed_nil
check_signed chain id caller to input unsigned (some (some signed)) = do
  fail_if (not (signed.chain_id == id)) signed_chain
  check_sender (chain.sender id signed) caller
  fail_if
      (not (same_bytes (chain.signing_hash id unsigned) (chain.signing_hash id signed))
        || not (is_to signed.to to)
        || not (signed.value == 0)
        || not (same_bytes signed.input input))
      signed_contents
  ok signed

-- What an operation that may send returns: a transaction, an error, or both.
pub record Sent : Type 0 where
  pub tx : Option Transaction
  pub error : Option ProtocolError

abbrev pub not_sent : ProtocolError → Sent
not_sent e = record { tx = none; error = some e }

abbrev pub send_error : Option Failure → (Failure → ProtocolError) → Option ProtocolError
send_error none parsed = none
send_error (some e) parsed = some (parsed e)

-- The end of `transact`: the signed transaction is returned also when sending fails.
unfoldable pub broadcast : Codecs → Client → Chain → Bool → Transaction → Sent
broadcast codecs client chain no_send tx =
    let parsed = λ (e : Failure). failed (parse_revert codecs.reverts client.rpc.heap e) in
    if no_send
    then record { tx = some tx; error = none }
    else record { tx = some tx; error = send_error (chain.send_transaction tx) parsed }

abbrev pub after_signing : Codecs → Client → Chain → Bool → Result Failure Transaction → Sent
after_signing codecs client chain no_send (err e) =
    not_sent (failed (parse_revert codecs.reverts client.rpc.heap e))
after_signing codecs client chain no_send (ok tx) = broadcast codecs client chain no_send tx

unfoldable pub transact_with : Codecs → Client → Chain → Address → List ℕ → LocalOpts → Sent
transact_with codecs client chain to input local =
    let opts : TransactOpts = record local.opts { no_send = true } in
    let signer = λ (a : Address) (unsigned : Transaction).
      check_signed chain client.cfg.chain_id opts.caller to input unsigned
        (local.signer a unsigned) in
    if local.canceled
    then not_sent context_done
    else after_signing codecs client chain local.opts.no_send
        (chain.raw_transact opts signer to input)

abbrev pub transact_local :
    Codecs → Client → Chain → Address → List ℕ → Result ProtocolError LocalOpts → Sent
transact_local codecs client chain to input (err e) = not_sent e
transact_local codecs client chain to input (ok local) =
    transact_with codecs client chain to input local

-- `transact`
unfoldable pub transact : Codecs → Client → Chain → Option TransactOpts → Address → List ℕ → Sent
transact codecs client chain opts to input =
    transact_local codecs client chain to input (copy_opts opts)

abbrev pub or_transact :
    Codecs → Client → Chain → Option TransactOpts → Address → Result ProtocolError (List ℕ) → Sent
or_transact codecs client chain opts to (err e) = not_sent e
or_transact codecs client chain opts to (ok input) = transact codecs client chain opts to input

-- `swap`, which Swap and SwapExactIn call with their method.
unfoldable pub send_swap :
    Crypto → Codecs → Client → Chain → Option TransactOpts → SwapMethod → SwapParams → Sent
send_swap crypto codecs client chain opts method params =
    or_transact codecs client chain opts client.cfg.proxy
      (encode_swap_call crypto codecs method params)

abbrev pub update_method : Text
update_method =
    b'u' ∷ b'p' ∷ b'd' ∷ b'a' ∷ b't' ∷ b'e' ∷ b'F' ∷ b'r' ∷ b'a' ∷ b'm' ∷ b'e' ∷ b'B' ∷ b'y' ∷ b'S'
    ∷ b'i' ∷ b'g' ∷ []

unfoldable pub encode_update : Crypto → Codecs → SignedFrame → Result ProtocolError (List ℕ)
encode_update crypto codecs value = do
  validate_signed crypto value
  packed (
      codecs.contract.pack update_method
        (frame value.frame ∷ address value.maker ∷ bytes value.signature ∷ []))

-- `UpdateFrameBySig`
unfoldable pub update_frame_by_sig :
    Crypto → Codecs → Client → Chain → Option TransactOpts → SignedFrame → Sent
update_frame_by_sig crypto codecs client chain opts value =
    or_transact codecs client chain opts client.cfg.proxy (encode_update crypto codecs value)

abbrev pub approve_method : Text
approve_method = b'a' ∷ b'p' ∷ b'p' ∷ b'r' ∷ b'o' ∷ b'v' ∷ b'e' ∷ []

abbrev pub integer_or_zero : BigInt → ℤ
integer_or_zero none = pos 0
integer_or_zero (some n) = n

unfoldable pub encode_approval : Codecs → Client → Address → BigInt → Result ProtocolError (List ℕ)
encode_approval codecs client token amount = do
  fail_if (token == 0) token_zero
  uint256 approval_amount amount false
  packed (
      codecs.token.pack approve_method
        (address client.cfg.proxy ∷ big (integer_or_zero amount) ∷ []))

-- `ApproveToken`
unfoldable pub approve_token :
    Codecs → Client → Chain → Option TransactOpts → Address → BigInt → Sent
approve_token codecs client chain opts token amount =
    or_transact codecs client chain opts token (encode_approval codecs client token amount)
