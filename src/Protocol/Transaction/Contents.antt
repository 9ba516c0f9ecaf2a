-- ===== src/Protocol/Transaction/Contents.antt =====
-- What transact of pkg/protocol/transaction.go lets a signer return.
use takapu_protocol_sdk.Prelude.{
  same_bytes-eq, same_bytes, ℕ, ◌≡◌, refl, arith, Bool, true, false, Option, none, some, List,
  Result, ok, err, if-holds,
}
use mathlib.Core.Path.{subst}
use takapu_protocol_sdk.Frame.Types.{Address}
use takapu_protocol_sdk.Protocol.Errors.{Failure, ProtocolError}
use takapu_protocol_sdk.Protocol.Client.{Client, Codecs}
use takapu_protocol_sdk.Protocol.Transaction.{
  Transaction, TransactOpts, LocalOpts, Chain, SignerFn, is_to, check_sender, check_signed,
  copy_opts, copy_with, check_numbers, broadcast, after_signing, transact_with, transact_local,
  transact, Sent,
}

-- RawTransact returns a transaction that the signer it was given returned for the options' account.
pub record SignsOnly (chain : Chain) : Type 0 where
  pub signed :
      (opts : TransactOpts) (signer : Address → Transaction → Result ProtocolError Transaction)
      (to : Address) (input : List ℕ) (tx : Transaction)
      → chain.raw_transact opts signer to input ≡ ok tx
      → (unsigned : Transaction) × (signer opts.caller unsigned ≡ ok tx)

-- A call of `to` with the calldata alone, on the chain and from the account that were meant.
abbrev pub IsCall : Chain → ℕ → Address → Address → List ℕ → Transaction → Type 0
IsCall chain id caller to input tx =
    (tx.chain_id ≡ id)
    × (tx.to ≡ some to)
    × (tx.value ≡ 0)
    × (tx.input ≡ input)
    × (chain.sender id tx ≡ some caller)

is_to-eq : (a : Option Address) (to : Address) → is_to a to ≡ true → a ≡ some to
is_to-eq none to h = cc
is_to-eq (some a) to h = ground arith

check_sender-eq :
    (a : Option Address) (caller : Address) → check_sender a caller ≡ ok tt → a ≡ some caller
check_sender-eq none caller h = cc
check_sender-eq (some a) caller h = ground arith

check_signed-IsCall :
    (chain : Chain) (id : ℕ) (caller to : Address) (input : List ℕ) (unsigned tx : Transaction)
    (answer : Option (Option Transaction))
    → check_signed chain id caller to input unsigned answer ≡ ok tx
    → IsCall chain id caller to input tx
unfolding check_signed
check_signed-IsCall chain id caller to input unsigned tx none h = cc
check_signed-IsCall chain id caller to input unsigned tx (some none) h = cc
check_signed-IsCall chain id caller to input unsigned tx (some (some signed)) h =
    let same : signed ≡ tx = ground arith in
    let from : check_sender (chain.sender id signed) caller ≡ ok tt = ground arith in
    let dest : is_to signed.to to ≡ true = ground arith in
    let call : same_bytes signed.input input ≡ true = ground arith in
    subst (IsCall chain id caller to input) same (
      ground arith,
      is_to-eq signed.to to dest,
      ground arith,
      same_bytes-eq signed.input input call,
      check_sender-eq (chain.sender id signed) caller from,
    )

-- The transaction of a result, if it has one, is a call as it was meant; without one there is an
-- error.
abbrev pub Meant :
    Chain → ℕ → Address → Address → List ℕ → Option Transaction → Option ProtocolError → Type 0
Meant chain id caller to input none none = ⊥
Meant chain id caller to input none (some e) = Unit {0}
Meant chain id caller to input (some tx) e = IsCall chain id caller to input tx

after_signing-Meant :
    (codecs : Codecs) (client : Client) (chain : Chain) (no_send : Bool) (caller to : Address)
    (input : List ℕ) (r : Result Failure Transaction)
    → ((tx : Transaction) → r ≡ ok tx → IsCall chain client.cfg.chain_id caller to input tx)
    → let sent = after_signing codecs client chain no_send r in
      Meant chain client.cfg.chain_id caller to input sent.tx sent.error
unfolding broadcast
after_signing-Meant codecs client chain no_send caller to input (err e) h = tt
after_signing-Meant codecs client chain true caller to input (ok tx) h = h tx refl
after_signing-Meant codecs client chain false caller to input (ok tx) h = h tx refl

transact_with-Meant :
    (codecs : Codecs) (client : Client) (chain : Chain) (to : Address) (input : List ℕ)
    (local : LocalOpts)
    → SignsOnly chain
    → let sent = transact_with codecs client chain to input local in
      Meant chain client.cfg.chain_id local.opts.caller to input sent.tx sent.error
unfolding transact_with
transact_with-Meant codecs client chain to input local signs =
    if-holds {A = Sent}
      (λ s. Meant chain client.cfg.chain_id local.opts.caller to input s.tx s.error) local.canceled
      (λ done. tt)
      (λ alive.
        after_signing-Meant codecs client chain local.opts.no_send local.opts.caller to input _
          (λ tx e.
            let (unsigned, signed) = signs.signed _ _ to input tx e in
            check_signed-IsCall chain client.cfg.chain_id local.opts.caller to input unsigned tx
              (local.signer local.opts.caller unsigned) signed))

copy_with-caller :
    (opts : TransactOpts) (signer : Option SignerFn) (local : LocalOpts)
    → copy_with opts signer ≡ ok local
    → local.opts.caller ≡ opts.caller
unfolding copy_with check_numbers
copy_with-caller opts none local h = cc
copy_with-caller opts (some signer) local h = ground arith

transact_local-Meant :
    (codecs : Codecs) (client : Client) (chain : Chain) (opts : TransactOpts) (to : Address)
    (input : List ℕ) (r : Result ProtocolError LocalOpts)
    → SignsOnly chain
    → copy_with opts opts.signer ≡ r
    → let sent = transact_local codecs client chain to input r in
      Meant chain client.cfg.chain_id opts.caller to input sent.tx sent.error
transact_local-Meant codecs client chain opts to input (err e) signs h = tt
transact_local-Meant codecs client chain opts to input (ok local) signs h =
    let meant = transact_with-Meant codecs client chain to input local signs in
    let sent : Sent = transact_with codecs client chain to input local in
    subst (λ (a : Address). Meant chain client.cfg.chain_id a to input sent.tx sent.error)
      (copy_with-caller opts opts.signer local h) meant

-- If RawTransact returns only what the given signer signed for the sender's account, then whatever
-- transaction transact returns, also one whose broadcast failed, is a call of the given contract
-- with the given calldata and no value, on the client's chain and from the account of the options;
-- and where it returns no transaction it returns an error.
pub transact-Meant :
    (codecs : Codecs) (client : Client) (chain : Chain) (opts : TransactOpts) (to : Address)
    (input : List ℕ)
    → SignsOnly chain
    → let sent = transact codecs client chain (some opts) to input in
      Meant chain client.cfg.chain_id opts.caller to input sent.tx sent.error
unfolding transact copy_opts
transact-Meant codecs client chain opts to input signs =
    transact_local-Meant codecs client chain opts to input (copy_with opts opts.signer) signs refl
