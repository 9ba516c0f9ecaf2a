-- ===== src/Protocol/Receipt.antt =====
-- pkg/protocol/receipt.go.
pub mod Logs
use takapu_protocol_sdk.Prelude.{
  same_bytes, ℕ, ◌+◌, ◌*◌, List, [], ◌∷◌, Bool, true, false, not, ◌&&◌, ◌||◌, ◌==◌, if◌then◌else◌,
  Option, none, some, length, ℤ, Result, ok, err, fail_if, wrap, ◌>>=◌, ◌>>◌,
}
use takapu_protocol_sdk.Frame.Types.{Address}
use takapu_protocol_sdk.Frame.Words.{Word}
use takapu_protocol_sdk.Protocol.Errors.{
  ProtocolError, context_nil, context_done, hash_zero, receipt_nil, receipt_failed, receipt_error,
  log_removed, log_malformed, log_data, log_topics,
}

pub record Log : Type 0 where
  pub address : Address
  pub topics : List Word
  pub input : List ℕ
  pub removed : Bool

-- `status` is whether the status is that of success; a log pointer may be nil.
pub record Receipt : Type 0 where
  pub succeeded : Bool
  pub logs : List (Option Log)

-- The fields of a log's data, and of its topics, that the ABI of the event names.
pub record SwapData : Type 0 where
  pub amount_in : ℤ
  pub amount_out : ℤ
  pub pair_id : ℕ
  pub maker : Address
  pub recipient : Address

pub record SwapTopics : Type 0 where
  pub sender : Address
  pub token_in : Address
  pub token_out : Address

-- The Swap event of the contract's ABI, with go-ethereum's UnpackIntoMap and ParseTopicsIntoMap.
pub record SwapEventAbi : Type 0 where
  pub id : Word
  pub unpack_data : List ℕ → Option SwapData
  pub parse_topics : List Word → Option SwapTopics

pub record SwapEvent : Type 0 where
  pub topics : SwapTopics
  pub values : SwapData
  pub raw : Log

-- `len(log.Topics) != 0 && log.Topics[0] == event.ID`
abbrev pub has_id : Word → List Word → Bool
has_id id [] = false
has_id id (t ∷ ts) = same_bytes t id

abbrev pub tail : List Word → List Word
tail [] = []
tail (t ∷ ts) = ts

-- The test that lets the loop pass over a log.
abbrev pub is_swap_log : SwapEventAbi → Address → Option Log → Bool
is_swap_log event proxy none = false
is_swap_log event proxy (some log) = log.address == proxy && has_id event.id log.topics

abbrev pub decoded_data : ℕ → Option SwapData → Result ProtocolError SwapData
decoded_data i none = err (log_data i)
decoded_data i (some d) = ok d

abbrev pub decoded_topics : ℕ → Option SwapTopics → Result ProtocolError SwapTopics
decoded_topics i none = err (log_topics i)
decoded_topics i (some t) = ok t

-- The rest of the loop's body, on a log of the event.
unfoldable pub parse_log : SwapEventAbi → ℕ → Log → Result ProtocolError SwapEvent
parse_log event i log = do
  fail_if log.removed (log_removed i)
  fail_if (not (length log.topics == 4) || not (length log.input == 5 * 32)) (log_malformed i)
  values ← decoded_data i (event.unpack_data log.input)
  topics ← decoded_topics i (event.parse_topics (tail log.topics))
  ok (record { topics = topics; values = values; raw = log })

unfoldable pub parse_logs :
    SwapEventAbi → Address → ℕ → List (Option Log) → Result ProtocolError (List SwapEvent)
parse_logs event proxy i [] = ok []
parse_logs event proxy i (none ∷ logs) = parse_logs event proxy (i + 1) logs
parse_logs event proxy i (some log ∷ logs) =
    let rest = parse_logs event proxy (i + 1) logs in
    if is_swap_log event proxy (some log)
    then (do first ← parse_log event i log; others ← rest; ok (first ∷ others))
    else rest

-- `ParseSwapReceipt`
unfoldable pub parse_swap_receipt :
    SwapEventAbi → Address → Option Receipt → Result ProtocolError (List SwapEvent)
parse_swap_receipt event proxy none = err receipt_nil
parse_swap_receipt event proxy (some receipt) = do
  fail_if (not receipt.succeeded) receipt_failed
  parse_logs event proxy 0 receipt.logs

-- One round of the loop of `WaitReceipt`: what the context answers at its start, what the node
-- answers, and whether the context ends before the timer.
pub data Poll : Type 0 where
  canceled : Poll
  found : Receipt → Poll
  not_found : Bool → Poll
  broken : Poll

-- The loop of `WaitReceipt` on the rounds that come; `none` is that it still waits.
unfoldable pub wait_loop : List Poll → Option (Result ProtocolError Receipt)
wait_loop [] = none
wait_loop (canceled ∷ polls) = some (err context_done)
wait_loop (found receipt ∷ polls) = some (ok receipt)
wait_loop (broken ∷ polls) = some (err receipt_error)
wait_loop (not_found true ∷ polls) = some (err context_done)
wait_loop (not_found false ∷ polls) = wait_loop polls

-- `WaitReceipt`
unfoldable pub wait_receipt : Bool → Bool → List Poll → Option (Result ProtocolError Receipt)
wait_receipt has_context zero_hash polls =
    if not has_context
    then some (err context_nil)
    else if zero_hash
    then some (err hash_zero)
    else wait_loop polls
