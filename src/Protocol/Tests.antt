-- ===== src/Protocol/Tests.antt =====
-- Concrete calls of pkg/protocol.
use takapu_protocol_sdk.Prelude.{
  ℕ, ◌≡◌, ◌≤◌, ◌<◌, ◌*◌, ◌+◌, ◌↔◌, ◌⊎◌, refl, arith, ok, none, some, pos, magnitude, List, [], ◌∷◌,
  length, replicate, All, true, false, ◌==◌, if◌then◌else◌, wrap, wrap-eq-ok,
}
use takapu_protocol_sdk.Protocol.Decay.{GlobalDecayConfig, ppm_denominator, decay_ppm, apply_decay}
use takapu_protocol_sdk.Protocol.Decay.Laws.{
  IsDecayConfig, decay_ppm_iff, decay_ppm_mono, apply_decay_splits,
}
use mathlib.Core.List.{map}
use takapu_protocol_sdk.Frame.Types.{Address}
use takapu_protocol_sdk.Frame.Words.{zero_word}
use takapu_protocol_sdk.Frame.Tests.{crypto, signed_frame}
use takapu_protocol_sdk.Protocol.Errors.{Value, address, big, bool, plain, with_data, ProtocolError}
use takapu_protocol_sdk.Protocol.Revert.{ErrorData, table, raw, nested_revert_bytes, parse_revert}
use takapu_protocol_sdk.Protocol.Revert.Budget.{
  nested_revert_bytes-depth, Explains, parse_revert-Explains,
}
use takapu_protocol_sdk.Protocol.Client.{Abi, Client, Codecs}
use takapu_protocol_sdk.Protocol.Swap.{SwapParams, swap, name_of, swap_arguments, encode_swap_call}
use takapu_protocol_sdk.Protocol.Swap.Calldata.{IsSwap, encode_swap_call_iff}
use takapu_protocol_sdk.Protocol.Transaction.{Transaction, TransactOpts, Chain, transact}
use takapu_protocol_sdk.Protocol.Transaction.Contents.{SignsOnly, Meant, transact-Meant}
use takapu_protocol_sdk.Protocol.Read.{PairConfig}
use takapu_protocol_sdk.Protocol.Receipt.{
  Log, Receipt, SwapData, SwapTopics, SwapEventAbi, SwapEvent, parse_log, parse_logs,
  parse_swap_receipt,
}
use takapu_protocol_sdk.Protocol.Receipt.Logs.{
  IsDecoded, raw_of, SwapLogs, parse_swap_receipt-IsDecoded,
}

abbrev one_minute : GlobalDecayConfig
one_minute = record {
  decay_start_offset_seconds = 10;
  decay_end_offset_seconds = 60;
  max_age = 120;
  max_decay_ppm = 50_000;
}

decay_at_35 : decay_ppm 1000 1035 one_minute ≡ ok 25_000
unfolding decay_ppm
decay_at_35 = refl

decay_at_70 : decay_ppm 1000 1070 one_minute ≡ ok 50_000
unfolding decay_ppm
decay_at_70 = refl

decay_ppm_iff_example :
    ((p : ℕ) × (decay_ppm 1000 1035 one_minute ≡ ok p))
    ↔ (IsDecayConfig one_minute × (1000 ≤ 1035) × (1035 < 1000 + one_minute.max_age))
decay_ppm_iff_example = decay_ppm_iff 1000 1035 one_minute

decay_ppm_mono_example :
    (25_000 ≤ 50_000)
    × (50_000 ≤ one_minute.max_decay_ppm)
    × (one_minute.max_decay_ppm < ppm_denominator)
decay_ppm_mono_example =
    decay_ppm_mono 1000 1035 1070 one_minute 25_000 50_000 (omega arith) decay_at_35 decay_at_70

apply_decay_999 : apply_decay (some (pos 999)) 25_000 ≡ ok (24, 975)
unfolding apply_decay
apply_decay_999 = refl

apply_decay_splits_example :
    (24 + 975 ≡ magnitude (some (pos 999)))
    × (24 * ppm_denominator ≤ 999 * 25_000)
    × (999 * 25_000 < (24 + 1) * ppm_denominator)
    × (0 < 975 ⊎ magnitude (some (pos 999)) ≡ 0)
apply_decay_splits_example = apply_decay_splits (some (pos 999)) 25_000 24 975 apply_decay_999

-- An ABI that packs every call into nothing and answers with a pair or one address.
abbrev pair_values : List Value
pair_values =
    address 0x11
    ∷ address 0x22
    ∷ big (pos 1_000_000)
    ∷ big (pos 1_000_000_000)
    ∷ bool true
    ∷ address 0x22
    ∷ big (pos 300)
    ∷ []

abbrev abi : Abi
abi = record {
  pack = λ name arguments. some [];
  unpack = λ name bytes. some (if length name == 12 then address 9 ∷ [] else pair_values);
}

abbrev pub codecs : Codecs
codecs = record {
  contract = abi;
  token = abi;
  reverts = record {
    decode_hex = λ t. some t;
    error_by_id = λ id. none;
    unpack_error = λ name bytes. none;
    unpack_revert = λ bytes. some (b'n' ∷ b'o' ∷ []);
  };
}

-- Data that holds itself, and the data of a standard error behind it.
abbrev heap : ℕ → ErrorData
heap ref = if ref == 0 then table (some 0) (some 1) none else raw (0x08 ∷ 0xc3 ∷ 0x79 ∷ 0xa0 ∷ [])

abbrev pub client : Client
client = record {
  rpc = record {
    chain_id = some (some (pos 1));
    block_number = some 100;
    call_contract = λ msg block. ok [];
    heap = heap;
  };
  cfg = record { chain_id = 1; proxy = 0x33 };
}

abbrev pair_300 : PairConfig
pair_300 = record {
  base_token = 0x11;
  quote_token = 0x22;
  price_tick_size = pos 1_000_000;
  lot_size = pos 1_000_000_000;
  active = true;
  fee_token = 0x22;
  fee_rate = 300;
}

abbrev params : SwapParams
params = record {
  pair_id = 7;
  is_buy = true;
  amount_in = some (pos 1000);
  min_amount_out = some (pos 0);
  maker = 0x44;
  recipient = 0x55;
  price_updates = signed_frame ∷ [];
}

encode_swap_call_iff_example : (encode_swap_call crypto codecs swap params ≡ ok []) ↔ (
    IsSwap crypto swap params
    × (codecs.contract.pack (name_of swap) (swap_arguments params) ≡ some []))
encode_swap_call_iff_example = encode_swap_call_iff crypto codecs swap params []

nested_revert_bytes-depth_example :
    (nested_revert_bytes codecs.reverts heap (32 + 100) 0 32
      ≡ nested_revert_bytes codecs.reverts heap 32 0 32)
    × ((nested_revert_bytes codecs.reverts heap 32 0 32).1 ≤ 32)
nested_revert_bytes-depth_example =
    nested_revert_bytes-depth codecs.reverts heap 32 100 0 32 (omega arith)

parse_revert-Explains_example :
    Explains codecs.reverts heap (with_data 3 1) (parse_revert codecs.reverts heap (with_data 3 1))
    × (parse_revert codecs.reverts heap (parse_revert codecs.reverts heap (with_data 3 1))
        ≡ parse_revert codecs.reverts heap (with_data 3 1))
parse_revert-Explains_example = parse_revert-Explains codecs.reverts heap (with_data 3 1)

-- A node that hands the signer a transaction of the call.
abbrev unsigned : Address → List ℕ → Transaction
unsigned to input = record {
  chain_id = 1;
  to = some to;
  value = 0;
  input = input;
  nonce = 0;
  fees = (0, 0, 0);
  access_list = [];
  signature = [];
}

abbrev chain : Chain
chain = record {
  signing_hash = λ id tx. zero_word;
  sender = λ id tx. some 5;
  raw_transact = λ opts sign to input.
      wrap (λ (e : ProtocolError). plain 0) (sign opts.caller (unsigned to input));
  send_transaction = λ tx. none;
}

chain-SignsOnly : SignsOnly chain
chain-SignsOnly = record {
  signed = λ opts sign to input tx h. (
    unsigned to input,
    wrap-eq-ok (λ (e : ProtocolError). plain 0) (sign opts.caller (unsigned to input)) h,
  );
}

abbrev pub options : TransactOpts
options = record {
  caller = 5;
  signer = some (λ a tx. some (some tx));
  nonce = none;
  value = none;
  gas_price = none;
  gas_fee_cap = none;
  gas_tip_cap = none;
  access_list = [];
  context = none;
  no_send = true;
}

transact-Meant_example :
    let sent = transact codecs client chain (some options) 0x33 (1 ∷ 2 ∷ []) in
    Meant chain 1 5 0x33 (1 ∷ 2 ∷ []) sent.tx sent.error
transact-Meant_example =
    transact-Meant codecs client chain options 0x33 (1 ∷ 2 ∷ []) chain-SignsOnly

abbrev swap_log : Log
swap_log = record {
  address = 0x33;
  topics = zero_word ∷ zero_word ∷ zero_word ∷ zero_word ∷ [];
  input = replicate 160 0;
  removed = false;
}

abbrev swap_data : SwapData
swap_data = record {
  amount_in = pos 10;
  amount_out = pos 9;
  pair_id = 7;
  maker = 0x44;
  recipient = 0x55;
}

abbrev swap_topics : SwapTopics
swap_topics = record { sender = 5; token_in = 0x22; token_out = 0x11 }

abbrev event : SwapEventAbi
event = record {
  id = zero_word;
  unpack_data = λ bytes. some swap_data;
  parse_topics = λ topics. some swap_topics;
}

abbrev receipt : Receipt
receipt = record { succeeded = true; logs = none ∷ some swap_log ∷ [] }

abbrev swap_events : List SwapEvent
swap_events = record { topics = swap_topics; values = swap_data; raw = swap_log } ∷ []

parse_receipt : parse_swap_receipt event 0x33 (some receipt) ≡ ok swap_events
unfolding parse_swap_receipt parse_logs parse_log
parse_receipt = refl

parse_swap_receipt-IsDecoded_example :
    (receipt.succeeded ≡ true)
    × SwapLogs event 0x33 receipt.logs (map raw_of swap_events)
    × All (IsDecoded event) swap_events
parse_swap_receipt-IsDecoded_example =
    parse_swap_receipt-IsDecoded event 0x33 receipt swap_events parse_receipt
