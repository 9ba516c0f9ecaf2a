-- ===== src/Protocol/Receipt/Logs.antt =====
-- The loop of ParseSwapReceipt of pkg/protocol/receipt.go.
use takapu_protocol_sdk.Prelude.{
  same_bytes-eq, same_bytes_refl, ℕ, ◌+◌, ◌≡◌, inl, inr, refl, sym, ◌∙◌, arith, true, false, Option,
  none, some, List, [], ◌∷◌, length, All, ok, Result-cases, Bool-cases,
}
use mathlib.Core.Path.{subst, ap}
use mathlib.Core.List.{map}
use takapu_protocol_sdk.Frame.Types.{Address}
use takapu_protocol_sdk.Protocol.Receipt.{
  Word, Log, Receipt, SwapData, SwapTopics, SwapEventAbi, SwapEvent, tail, is_swap_log, has_id,
  decoded_data, decoded_topics, parse_log, parse_logs, parse_swap_receipt,
}

-- A log that the proxy emitted, whose first topic is the id of the event.
abbrev pub IsEvent : SwapEventAbi → Address → Log → Type 0
IsEvent event proxy log =
    (log.address ≡ proxy) × (topics : List Word) × (log.topics ≡ event.id ∷ topics)

-- The logs of the event among the logs of a receipt, in their order.
pub data SwapLogs (event : SwapEventAbi) (proxy : Address)
    : List (Option Log) → List Log → Type 0 where
  no_logs : SwapLogs event proxy [] []
  nil_log :
      (logs : List (Option Log)) (swaps : List Log)
      → SwapLogs event proxy logs swaps
      → SwapLogs event proxy (none ∷ logs) swaps
  other_log :
      (log : Log) (logs : List (Option Log)) (swaps : List Log)
      → (IsEvent event proxy log → ⊥)
      → SwapLogs event proxy logs swaps
      → SwapLogs event proxy (some log ∷ logs) swaps
  swap_log :
      (log : Log) (logs : List (Option Log)) (swaps : List Log)
      → IsEvent event proxy log
      → SwapLogs event proxy logs swaps
      → SwapLogs event proxy (some log ∷ logs) (log ∷ swaps)

has_id-eq :
    (id : Word) (topics : List Word)
    → has_id id topics ≡ true
    → (rest : List Word) × (topics ≡ id ∷ rest)
has_id-eq id [] h = cc
has_id-eq id (t ∷ ts) h = (ts, ap (λ w. w ∷ ts) (same_bytes-eq t id h))

is_swap_log-IsEvent :
    (event : SwapEventAbi) (proxy : Address) (log : Log)
    → is_swap_log event proxy (some log) ≡ true
    → IsEvent event proxy log
is_swap_log-IsEvent event proxy log h =
    let (here, named) : (log.address ≡ proxy) × (has_id event.id log.topics ≡ true) =
      (ground arith, ground arith) in
    let (topics, same) = has_id-eq event.id log.topics named in (here, topics, same)

IsEvent-is_swap_log :
    (event : SwapEventAbi) (proxy : Address) (log : Log)
    → IsEvent event proxy log
    → is_swap_log event proxy (some log) ≡ true
IsEvent-is_swap_log event proxy log (here, topics, h) =
    let named : has_id event.id log.topics ≡ true =
      ap (has_id event.id) h ∙ same_bytes_refl event.id in
    ground (arith, here, named)

abbrev pub raw_of : SwapEvent → Log
raw_of e = e.raw

-- An event as the ABI decodes its log.
pub record IsDecoded (event : SwapEventAbi) (e : SwapEvent) : Type 0 where
  pub kept : e.raw.removed ≡ false
  pub topic_count : length e.raw.topics ≡ 4
  pub data_size : length e.raw.input ≡ 160
  pub contents : event.unpack_data e.raw.input ≡ some e.values
  pub indexed : event.parse_topics (tail e.raw.topics) ≡ some e.topics

data_eq : (i : ℕ) (o : Option SwapData) (d : SwapData) → decoded_data i o ≡ ok d → o ≡ some d
data_eq i none d h = cc
data_eq i (some x) d h = cc

topics_eq :
    (i : ℕ) (o : Option SwapTopics) (t : SwapTopics) → decoded_topics i o ≡ ok t → o ≡ some t
topics_eq i none t h = cc
topics_eq i (some x) t h = cc

log_parts :
    (event : SwapEventAbi) (i : ℕ) (log : Log) (e : SwapEvent)
    → parse_log event i log ≡ ok e
    → (values : SwapData) × (topics : SwapTopics) × (log.removed ≡ false)
      × (length log.topics ≡ 4)
      × (length log.input ≡ 160)
      × (event.unpack_data log.input ≡ some values)
      × (event.parse_topics (tail log.topics) ≡ some topics)
      × (record { topics = topics; values = values; raw = log } ≡ e)
unfolding parse_log
log_parts event i log e h = elim (Result-cases (decoded_data i (event.unpack_data log.input))) [
  | inr (x, q) ↦ absurd (ground arith)
  | inl (d, q) ↦ elim (Result-cases (decoded_topics i (event.parse_topics (tail log.topics)))) [
    | inr (x, r) ↦ absurd (ground arith)
    | inl (t, r) ↦ (
      d,
      t,
      ground arith,
      ground arith,
      ground arith,
      data_eq i (event.unpack_data log.input) d q,
      topics_eq i (event.parse_topics (tail log.topics)) t r,
      ground arith,
    )
  ]
]

parse_log-IsDecoded :
    (event : SwapEventAbi) (i : ℕ) (log : Log) (e : SwapEvent)
    → parse_log event i log ≡ ok e
    → (e.raw ≡ log) × IsDecoded event e
parse_log-IsDecoded event i log e h =
    let (values, topics, kept, four, size, d, t, same) = log_parts event i log e h in
    subst (λ x. (x.raw ≡ log) × IsDecoded event x) same
      (
        refl,
        record { kept = kept; topic_count = four; data_size = size; contents = d; indexed = t },
      )

taken :
    (event : SwapEventAbi) (proxy : Address) (i : ℕ) (log : Log) (logs : List (Option Log))
    (events : List SwapEvent)
    → is_swap_log event proxy (some log) ≡ true
    → parse_logs event proxy i (some log ∷ logs) ≡ ok events
    → (first : SwapEvent) × (others : List SwapEvent) × (parse_log event i log ≡ ok first)
      × (parse_logs event proxy (i + 1) logs ≡ ok others)
      × (first ∷ others ≡ events)
unfolding parse_logs
taken event proxy i log logs events q h = elim (Result-cases (parse_log event i log)) [
  | inr (x, r) ↦ absurd (ground arith)
  | inl (first, r) ↦ elim (Result-cases (parse_logs event proxy (i + 1) logs)) [
    | inr (x, s) ↦ absurd (ground arith)
    | inl (others, s) ↦ (first, others, r, s, ground arith)
  ]
]

parse_logs-passed :
    (event : SwapEventAbi) (proxy : Address) (i : ℕ) (log : Log) (logs : List (Option Log))
    → is_swap_log event proxy (some log) ≡ false
    → parse_logs event proxy i (some log ∷ logs) ≡ parse_logs event proxy (i + 1) logs
unfolding parse_logs
parse_logs-passed event proxy i log logs q = ground arith

-- The events come from exactly the logs of the event, in the order of the logs.
abbrev Matches : SwapEventAbi → Address → List (Option Log) → List SwapEvent → Type 0
Matches event proxy logs events =
    SwapLogs event proxy logs (map raw_of events) × All (IsDecoded event) events

joined :
    (event : SwapEventAbi) (proxy : Address) (log : Log) (logs : List (Option Log))
    (first : SwapEvent) (others : List SwapEvent)
    → IsEvent event proxy log
    → (first.raw ≡ log) × IsDecoded event first
    → Matches event proxy logs others
    → Matches event proxy (some log ∷ logs) (first ∷ others)
joined event proxy log logs first others here (raw, one) (same, all) = (
  subst (λ l. SwapLogs event proxy (some log ∷ logs) (l ∷ map raw_of others)) (sym raw)
      (swap_log log logs (map raw_of others) here same),
  (one, all),
)

parse_logs-Matches :
    (event : SwapEventAbi) (proxy : Address) (i : ℕ) (logs : List (Option Log))
    (events : List SwapEvent)
    → parse_logs event proxy i logs ≡ ok events
    → Matches event proxy logs events
unfolding parse_logs
parse_logs-Matches event proxy i [] [] h = (no_logs, tt)
parse_logs-Matches event proxy i [] (e ∷ es) h = cc
parse_logs-Matches event proxy i (none ∷ logs) events h =
    let (same, all) = parse_logs-Matches event proxy (i + 1) logs events h in
    (nil_log logs (map raw_of events) same, all)
parse_logs-Matches event proxy i (some log ∷ logs) events h =
    elim (Bool-cases (is_swap_log event proxy (some log)))
      as (λ _. Matches event proxy (some log ∷ logs) events) [
        | inr q ↦
            let (same, all) =
              parse_logs-Matches event proxy (i + 1) logs events
                (sym (parse_logs-passed event proxy i log logs q) ∙ h) in
            (
              other_log log logs (map raw_of events)
                  (λ here. cc (IsEvent-is_swap_log event proxy log here, q)) same,
              all,
            )
        | inl q ↦
            let (first, others, one, rest, same) = taken event proxy i log logs events q h in
            subst (Matches event proxy (some log ∷ logs)) same (
              joined event proxy log logs first others (is_swap_log-IsEvent event proxy log q)
                (parse_log-IsDecoded event i log first one)
                (parse_logs-Matches event proxy (i + 1) logs others rest))
      ]

-- What ParseSwapReceipt returns for a receipt is an event for each log whose address is the proxy's
-- and whose first topic is the event's id, in the order of the logs, and for no other: the log was not
-- removed, has four topics and five words of data, and the event holds what the ABI decodes from both.
-- The receipt is that of a success.
pub parse_swap_receipt-IsDecoded :
    (event : SwapEventAbi) (proxy : Address) (receipt : Receipt) (events : List SwapEvent)
    → parse_swap_receipt event proxy (some receipt) ≡ ok events
    → (receipt.succeeded ≡ true)
      × SwapLogs event proxy receipt.logs (map raw_of events)
      × All (IsDecoded event) events
unfolding parse_swap_receipt
parse_swap_receipt-IsDecoded event proxy receipt events h =
    let success : receipt.succeeded ≡ true = ground arith in
    let parsed : parse_logs event proxy 0 receipt.logs ≡ ok events = ground arith in
    let (same, all) = parse_logs-Matches event proxy 0 receipt.logs events parsed in
    (success, same, all)
