-- ===== src/Stream/Envelope.antt =====
-- internal/wire.go: the reading and writing of envelopes. The generated codec is a parameter.
pub mod Known
pub mod Faults
pub mod Requests
pub mod Handled
use takapu_protocol_sdk.Prelude.{
  same_bytes, ℕ, Bool, true, false, not, ◌&&◌, ◌||◌, ltb, leb, ◌==◌, if◌then◌else◌, List, [], ◌∷◌,
  length, Option, none, some, ℤ, pos, negsuc, Result, ok, err, fail_if, ◌>>=◌, ◌>>◌,
}
use takapu_protocol_sdk.Decimal.Digits.{Text}
use takapu_protocol_sdk.Decimal.Print.{is_empty}
use takapu_protocol_sdk.Wire.{
  PairKey, MarketFrame, AddressText, FrameAck, ConnectionAck, Heartbeat, ServerError,
}
use takapu_protocol_sdk.Stream.Types.{
  State, StreamError, protocol_violation, authentication, message_too_large, invalid_message,
  unknown_fields, missing_ack, missing_ack_payload, missing_identity, invalid_heartbeat,
  invalid_rejection, unexpected_message, missing_subscribe_ack, missing_frame, invalid_server_error,
  frame_rejected, is_current,
}
use takapu_protocol_sdk.Stream.Client.{emit_locked}
use takapu_protocol_sdk.Stream.Subscription.{FilterResult, ack, server_error_message, update}

-- What protobuf's reflection shows of a message: its unknown bytes, and its populated fields in the
-- order of the range, of which lists of messages, messages and maps are told apart.
mutual
  pub data Message : Type 0 where
    message : List ℕ → Fields → Message

  pub data Fields : Type 0 where
    bare : Fields
    scalar : Fields → Fields
    table : Fields → Fields
    nested : Message → Fields → Fields
    repeated : Messages → Fields → Fields

  pub data Messages : Type 0 where
    bare_list : Messages
    one_more : Message → Messages → Messages

-- `hasUnknownFields`, whose loops end at the first unknown field.
unfoldable mutual
  pub has_unknown_fields : Message → Bool
  has_unknown_fields (message unknown fields) =
      if ltb 0 (length unknown) then true else has_unknown_in fields

  pub has_unknown_in : Fields → Bool
  has_unknown_in bare = false
  has_unknown_in (scalar fields) = has_unknown_in fields
  has_unknown_in (table fields) = has_unknown_in fields
  has_unknown_in (nested m fields) = has_unknown_fields m || has_unknown_in fields
  has_unknown_in (repeated ms fields) = has_unknown_list ms || has_unknown_in fields

  pub has_unknown_list : Messages → Bool
  has_unknown_list bare_list = false
  has_unknown_list (one_more m ms) = has_unknown_fields m || has_unknown_list ms

-- The payload of an envelope, which is one of its kinds.
pub data Payload : Type 0 where
  empty : Payload
  heartbeat_payload : Heartbeat → Payload
  connection_ack_payload : ConnectionAck → Payload
  frame_ack_payload : FrameAck → Payload
  subscribe_ack_payload : List (Option FilterResult) → Payload
  update_payload : MarketFrame → Payload
  error_payload : ServerError → Payload

-- `pb.MakerEnvelope` and `pb.RouterEnvelope`: the number of the type, and the payload.
pub record Envelope : Type 0 where
  pub kind : ℕ
  pub payload : Payload

-- The getters, which return nil on another payload.
abbrev pub get_heartbeat : Payload → Option Heartbeat
get_heartbeat (heartbeat_payload h) = some h
get_heartbeat other = none

abbrev pub get_connection_ack : Payload → Option ConnectionAck
get_connection_ack (connection_ack_payload a) = some a
get_connection_ack other = none

abbrev pub get_frame_ack : Payload → Option FrameAck
get_frame_ack (frame_ack_payload a) = some a
get_frame_ack other = none

abbrev pub get_subscribe_ack : Payload → Option (List (Option FilterResult))
get_subscribe_ack (subscribe_ack_payload results) = some results
get_subscribe_ack other = none

abbrev pub get_update : Payload → Option MarketFrame
get_update (update_payload value) = some value
get_update other = none

abbrev pub get_error : Payload → Option ServerError
get_error (error_payload e) = some e
get_error other = none

-- `proto.Unmarshal` into the envelope of a maker or a router, with what reflection shows of it.
pub record Codec : Type 0 where
  pub maker : List ℕ → Option (Envelope × Message)
  pub router : List ℕ → Option (Envelope × Message)

-- `decode`
unfoldable pub decode : Option (Envelope × Message) → Result StreamError Envelope
decode none = err (protocol_violation invalid_message)
decode (some (envelope, shown)) = do
  fail_if (has_unknown_fields shown) (protocol_violation unknown_fields)
  ok envelope

-- The numbers of the types of messages.
abbrev pub maker_frame_ack : ℕ
maker_frame_ack = 2

abbrev pub maker_heartbeat : ℕ
maker_heartbeat = 3

abbrev pub maker_connection_ack : ℕ
maker_connection_ack = 5

abbrev pub router_subscribe_ack : ℕ
router_subscribe_ack = 3

abbrev pub router_frame_update : ℕ
router_frame_update = 5

abbrev pub router_heartbeat : ℕ
router_heartbeat = 6

abbrev pub router_error : ℕ
router_error = 7

abbrev pub router_connection_ack : ℕ
router_connection_ack = 8

abbrev pub check_ack : Bool → Option ConnectionAck → Result StreamError Text
check_ack is_maker none = err (protocol_violation missing_ack_payload)
check_ack is_maker (some ack) = do
  fail_if (not ack.success) authentication
  fail_if (is_maker && is_empty ack.identity) (protocol_violation missing_identity)
  ok ack.identity

abbrev pub read_ack : Bool → ℕ → Option (Envelope × Message) → Result StreamError Text
read_ack is_maker kind decoded = do
  e ← decode decoded
  fail_if (not (e.kind == kind)) (protocol_violation missing_ack)
  check_ack is_maker (get_connection_ack e.payload)

-- `connectionAck`, with the identity that it returns.
unfoldable pub connection_ack : Codec → Bool → List ℕ → Result StreamError Text
connection_ack codec true bytes = read_ack true maker_connection_ack (codec.maker bytes)
connection_ack codec false bytes = read_ack false router_connection_ack (codec.router bytes)

-- What a section under the lock or a call makes of the state, and its error.
abbrev pub Outcome : Type 0
Outcome = State × Option StreamError

-- `heartbeat`; `answer` is `c.sendHeartbeat(s, false, true)`.
unfoldable pub heartbeat : (State → Outcome) → Option Heartbeat → State → Outcome
heartbeat answer none c = (c, some (protocol_violation invalid_heartbeat))
heartbeat answer (some h) c =
    if not h.ping && not h.pong
    then (c, some (protocol_violation invalid_heartbeat))
    else if h.ping
    then answer c
    else (c, none)

abbrev pub is_nil_pair : Option PairKey → Bool
is_nil_pair none = true
is_nil_pair (some k) = false

-- A rejection of a frame: a nil pair or a version beyond a byte is not one.
unfoldable pub frame_ack : ℕ → Option FrameAck → State → Outcome
frame_ack s none c = (c, some (protocol_violation invalid_rejection))
frame_ack s (some a) c =
    if a.accepted || is_nil_pair a.pair || ltb 255 a.minor_version
    then (c, some (protocol_violation invalid_rejection))
    else (if is_current c.current s then emit_locked (frame_rejected a) c else c, none)

-- The switch of `handle` on a maker's envelope.
unfoldable pub handle_maker : ℕ → (State → Outcome) → Envelope → State → Outcome
handle_maker s answer e c =
    if e.kind == maker_heartbeat
    then heartbeat answer (get_heartbeat e.payload) c
    else if e.kind == maker_frame_ack
    then frame_ack s (get_frame_ack e.payload) c
    else (c, some (protocol_violation unexpected_message))

unfoldable pub subscribe_ack : ℕ → Option (List (Option FilterResult)) → State → Outcome
subscribe_ack s none c = (c, some (protocol_violation missing_subscribe_ack))
subscribe_ack s (some results) c = ack s results c

unfoldable pub frame_update : AddressText → ℕ → Option MarketFrame → State → Outcome
frame_update text s none c = (c, some (protocol_violation missing_frame))
frame_update text s (some value) c = update text s value c

abbrev pub request_too_large : Text
request_too_large =
    b's' ∷ b'u' ∷ b'b' ∷ b's' ∷ b'c' ∷ b'r' ∷ b'i' ∷ b'b' ∷ b'e' ∷ b'_' ∷ b'r' ∷ b'e' ∷ b'q' ∷ b'u'
    ∷ b'e' ∷ b's' ∷ b't' ∷ b'_' ∷ b't' ∷ b'o' ∷ b'o' ∷ b'_' ∷ b'l' ∷ b'a' ∷ b'r' ∷ b'g' ∷ b'e' ∷ []

unfoldable pub server_message : ℕ → Option ServerError → State → Outcome
server_message s none c = (c, some (protocol_violation invalid_server_error))
server_message s (some e) c =
    if is_empty e.code
    then (c, some (protocol_violation invalid_server_error))
    else server_error_message s (same_bytes e.code request_too_large) e.code e.message c

-- The switch of `handle` on a router's envelope.
unfoldable pub handle_router : AddressText → ℕ → (State → Outcome) → Envelope → State → Outcome
handle_router text s answer e c =
    if e.kind == router_heartbeat
    then heartbeat answer (get_heartbeat e.payload) c
    else if e.kind == router_subscribe_ack
    then subscribe_ack s (get_subscribe_ack e.payload) c
    else if e.kind == router_frame_update
    then frame_update text s (get_update e.payload) c
    else if e.kind == router_error
    then server_message s (get_error e.payload) c
    else (c, some (protocol_violation unexpected_message))

abbrev pub on_envelope :
    (Envelope → State → Outcome) → Result StreamError Envelope → State → Outcome
on_envelope next (err e) c = (c, some e)
on_envelope next (ok envelope) c = next envelope c

-- `handle`
unfoldable pub handle : Codec → AddressText → ℕ → (State → Outcome) → List ℕ → State → Outcome
handle codec text s answer bytes c =
    if c.is_maker
    then on_envelope (handle_maker s answer) (decode (codec.maker bytes)) c
    else on_envelope (handle_router text s answer) (decode (codec.router bytes)) c

-- An outbound envelope: `proto.Size`, what reflection shows, and `proto.Marshal`.
pub record Outbound : Type 0 where
  pub size : ℕ
  pub shown : Message
  pub bytes : Result StreamError (List ℕ)

-- `int64(size) > limit`
abbrev pub exceeds : ℕ → ℤ → Bool
exceeds n (pos limit) = ltb limit n
exceeds n (negsuc limit) = true

-- `marshal`
unfoldable pub marshal : ℤ → Outbound → Result StreamError (List ℕ)
marshal limit m = do
  fail_if (exceeds m.size limit) message_too_large
  fail_if (has_unknown_fields m.shown) (protocol_violation unknown_fields)
  m.bytes
