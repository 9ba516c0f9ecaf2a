-- ===== src/Stream/Subscription.antt =====
-- internal/subscription.go, update and matchesLocked of internal/quote.go, and the locked part of
-- `write` in internal/connection.go that a subscription starts with.
pub mod Keeps
pub mod Answers
use takapu_protocol_sdk.Prelude.{
  ℕ, suc, ◌+◌, Bool, true, false, not, ◌&&◌, ◌||◌, List, [], ◌∷◌, ◌++◌, Option, none, some, ltb,
  ◌==◌, if◌then◌else◌, length, Result, ok, err, fail_if, ◌>>=◌, ◌>>◌,
}
use takapu_protocol_sdk.Decimal.Digits.{Text}
use takapu_protocol_sdk.Decimal.Print.{is_empty}
use takapu_protocol_sdk.Wire.{PairFilter, PairKey, MarketFrame, AddressText}
use takapu_protocol_sdk.Stream.Types.{
  State, Status, Session, Event, StreamError, Pending, Reply, replied, refused, SubscriptionResult,
  ItemResult, FrameKey, FrameUpdate, disconnected, protocol_violation, unsolicited_ack,
  result_count, missing_result, unsolicited_rejection, missing_frame, frame_buffer_full,
  server_error_info, subscription_changed, server_error, is_current,
}
use takapu_protocol_sdk.Stream.Client.{clear_locked, emit_locked, stop_locked, stopped_error_locked}

-- The errors of validateSubscriptionFilters.
pub data FilterError : Type 0 where
  empty_list too_many_filters : FilterError
  nil_filter invalid_pair_key invalid_maker invalid_gray_flags unknown_filter_fields :
      ℕ → FilterError

-- `f.Pair != nil && (f.Pair.ChainId == 0 || f.Pair.PairId == 0)`
abbrev pub bad_pair : Option PairKey → Bool
bad_pair none = false
bad_pair (some k) = k.chain_id == 0 || k.pair_id == 0

abbrev pub is_nil : Option PairKey → Bool
is_nil none = true
is_nil (some k) = false

-- The checks on one filter. `unknown` is hasUnknownFields of protobuf's reflection.
unfoldable pub check_filter :
    AddressText → (PairFilter → Bool) → ℕ → PairFilter → Result FilterError (Unit {0})
check_filter text unknown i f = do
  fail_if (bad_pair f.pair) (invalid_pair_key i)
  fail_if
      (not (is_empty f.maker)
        && (not (text.is_hex_address f.maker) || text.hex_to_address f.maker == 0))
      (invalid_maker i)
  fail_if (f.allow_pair_gray && is_nil f.pair || f.allow_maker_gray && is_empty f.maker)
      (invalid_gray_flags i)
  fail_if (unknown f) (unknown_filter_fields i)

unfoldable pub check_filters :
    AddressText
    → (PairFilter → Bool)
    → ℕ
    → List (Option PairFilter)
    → Result FilterError (List PairFilter)
check_filters text unknown i [] = ok []
check_filters text unknown i (none ∷ fs) = err (nil_filter i)
check_filters text unknown i (some f ∷ fs) = do
  check_filter text unknown i f
  rest ← check_filters text unknown (i + 1) fs
  ok (f ∷ rest)

-- `validateSubscriptionFilters`; the result is the list of the filters, which are not nil.
unfoldable pub validate_subscription_filters :
    AddressText
    → (PairFilter → Bool)
    → ℕ
    → List (Option PairFilter)
    → Result FilterError (List PairFilter)
validate_subscription_filters text unknown limit filters = do
  fail_if (length filters == 0) empty_list
  fail_if (ltb limit (length filters)) too_many_filters
  check_filters text unknown 0 filters

-- `c.stopped || c.current != s || s.ctx.Err() != nil`, where a session's context ends with the
-- client's.
abbrev pub cannot_write : ℕ → State → Bool
cannot_write s c =
    c.is_stopped || not (is_current c.current s) || (c.sessions s).canceled || c.canceled

-- The closure that sendSubscription passes to write.
unfoldable pub start_subscription : ℕ → List PairFilter → State → State
unfolding clear_locked
start_subscription s filters c =
    let revision = c.status.subscription_revision + 1 in
    record (clear_locked c) {
      status = record c.status { subscription_revision = revision };
      pending = some (record { filters = filters; session = s; revision = revision });
      saved = some filters;
    }

-- The locked part of `write` for a subscription: nothing, with an error, or the closure.
unfoldable pub begin_subscription : ℕ → List PairFilter → State → State × Option StreamError
begin_subscription s filters c =
    if cannot_write s c then (c, some disconnected) else (start_subscription s filters c, none)

-- `pb.PairFilterResult`
pub record FilterResult : Type 0 where
  pub is_ok : Bool
  pub reason : Text

-- The loop of `ack`: the results and the accepted filters, or `none` at a missing result.
unfoldable pub collect :
    ℕ → List PairFilter → List (Option FilterResult) → Option (List ItemResult × List PairFilter)
collect i [] rs = some ([], [])
collect i (f ∷ fs) [] = some ([], [])
collect i (f ∷ fs) (none ∷ rs) = none
collect i (f ∷ fs) (some r ∷ rs) = elim (collect (i + 1) fs rs) [
  | none ↦ none
  | some (items, accepted) ↦
      let item : ItemResult = record {
        index = i;
        filter = f;
        accepted = r.is_ok;
        reason = r.reason;
      } in
      some (item ∷ items, if r.is_ok then f ∷ accepted else accepted)
]

-- `pending.reply <- …`
abbrev pub send_reply : ℕ → Reply → State → State
send_reply revision r c = record c { replies = c.replies ++ (revision, r) ∷ [] }

-- The end of `ack` when every result is there.
unfoldable pub accept : ℕ → Pending → List ItemResult → List PairFilter → State → State
accept s p items accepted c =
    let result : SubscriptionResult = record {
      generation = (c.sessions s).generation;
      subscription_revision = p.revision;
      results = items;
    } in
    let told : State =
      emit_locked (subscription_changed result)
        (record c { accepted = accepted; ready = true; pending = none }) in
    send_reply p.revision
      (if told.is_stopped then refused (stopped_error_locked told) else replied result) told

unfoldable pub settle :
    ℕ → Pending → Option (List ItemResult × List PairFilter) → State → State × Option StreamError
settle s p none c = (c, some (protocol_violation missing_result))
settle s p (some (items, accepted)) c = (accept s p items accepted c, none)

unfoldable pub ack_pending :
    ℕ → List (Option FilterResult) → Option Pending → State → State × Option StreamError
ack_pending s results none c = (c, some (protocol_violation unsolicited_ack))
ack_pending s results (some p) c =
    if not (p.session == s)
    then (c, some (protocol_violation unsolicited_ack))
    else if not (length results == length p.filters)
    then (c, some (protocol_violation result_count))
    else settle s p (collect 0 p.filters results) c

-- `ack`
unfoldable pub ack : ℕ → List (Option FilterResult) → State → State × Option StreamError
ack s results c =
    if not (is_current c.current s) || c.is_stopped
    then (c, none)
    else ack_pending s results c.pending c

-- A rejected request is answered before the event is emitted.
unfoldable pub reject_pending : Text → Text → Option Pending → State → State × Option StreamError
reject_pending code message none c = (c, some (protocol_violation unsolicited_rejection))
reject_pending code message (some p) c =
    let answered : State =
      send_reply p.revision (refused (server_error_info code message))
        (record c { pending = none }) in
    (emit_locked (server_error code message) answered, none)

-- `serverError`. The code "subscribe_request_too_large" is told apart by `too_large`.
unfoldable pub server_error_message : ℕ → Bool → Text → Text → State → State × Option StreamError
server_error_message s too_large code message c =
    if not (is_current c.current s) || c.is_stopped
    then (c, none)
    else if too_large
    then reject_pending code message c.pending c
    else (emit_locked (server_error code message) c, none)

-- Whether the pair of a filter, if it names one, is the pair of the key.
abbrev pub pair_fits : FrameKey → Option PairKey → Bool
pair_fits key none = true
pair_fits key (some k) = k.chain_id == key.chain_id && k.pair_id == key.pair_id

-- The test of `matchesLocked` on one filter.
unfoldable pub filter_matches : AddressText → FrameKey → PairFilter → Bool
filter_matches text key f =
    pair_fits key f.pair && (is_empty f.maker || text.hex_to_address f.maker == key.maker)

-- `matchesLocked`
unfoldable pub matches_locked : AddressText → FrameKey → List PairFilter → Bool
matches_locked text key [] = false
matches_locked text key (f ∷ fs) = filter_matches text key f || matches_locked text key fs

abbrev pub key_of : AddressText → PairKey → Text → FrameKey
key_of text k maker = record {
  chain_id = k.chain_id;
  pair_id = k.pair_id;
  maker = text.hex_to_address maker;
}

-- The delivery of a frame that has a pair.
unfoldable pub deliver :
    AddressText → ℕ → PairKey → MarketFrame → State → State × Option StreamError
deliver text s pair value c =
    let key = key_of text pair value.maker_addr in
    let item : FrameUpdate = record {
      key = key;
      frame = value;
      generation = (c.sessions s).generation;
      subscription_revision = c.status.subscription_revision;
    } in
    if not (matches_locked text key c.accepted)
    then (c, none)
    else if ltb (length c.frames) c.frame_capacity
    then (record c { frames = c.frames ++ item ∷ [] }, none)
    else (stop_locked (some frame_buffer_full) c, some frame_buffer_full)

unfoldable pub deliver_pair :
    AddressText → ℕ → MarketFrame → Option PairKey → State → State × Option StreamError
deliver_pair text s value none c = (c, some (protocol_violation missing_frame))
deliver_pair text s value (some pair) c = deliver text s pair value c

-- `update`
unfoldable pub update : AddressText → ℕ → MarketFrame → State → State × Option StreamError
update text s value c =
    if not (is_current c.current s) || not c.ready || c.is_stopped
    then (c, none)
    else deliver_pair text s value value.pair c
