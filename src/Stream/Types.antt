-- ===== src/Stream/Types.antt =====
-- The state of internal/client.go and internal/router.go that `client.mu` protects, the errors of
-- errors.go and the data of types.go. A session pointer is a number under which the state keeps the
-- session of connection.go.
use takapu_protocol_sdk.Prelude.{ℕ, Bool, false, List, [], Option, none, some, ◌==◌, if◌then◌else◌}
use takapu_protocol_sdk.Decimal.Digits.{Text}
use takapu_protocol_sdk.Wire.{PairFilter, MarketFrame, FrameAck}

-- The faults that are reported as ErrProtocol.
pub data Fault : Type 0 where
  unsolicited_ack result_count missing_result unsolicited_rejection missing_frame : Fault
  message_limit close_code unexpected_message invalid_message unknown_fields : Fault
  missing_ack missing_ack_payload missing_identity invalid_heartbeat invalid_rejection : Fault
  missing_subscribe_ack invalid_server_error text_message : Fault

pub data StreamError : Type 0 where
  closed disconnected authentication event_buffer_full frame_buffer_full : StreamError
  message_too_large listing_not_configured manual_reconnect : StreamError
  protocol_violation : Fault → StreamError
  canceled deadline_exceeded : StreamError
  server_error_info : Text → Text → StreamError
  -- Any other error of the network or of a library, by a number.
  other_error : ℕ → StreamError

-- `ClientPhase`
pub data Phase : Type 0 where
  connecting connected reconnecting stopped : Phase

pub record Status : Type 0 where
  pub phase : Phase
  pub generation : ℕ
  pub subscription_revision : ℕ
  pub last_error : Option StreamError

-- `session`: the generation that install gave it, its failure, and whether its context is canceled.
pub record Session : Type 0 where
  pub generation : ℕ
  pub failure : Option StreamError
  pub canceled : Bool

pub record FrameKey : Type 0 where
  pub chain_id : ℕ
  pub pair_id : ℕ
  pub maker : ℕ

pub record FrameUpdate : Type 0 where
  pub key : FrameKey
  pub frame : MarketFrame
  pub generation : ℕ
  pub subscription_revision : ℕ

pub record ItemResult : Type 0 where
  pub index : ℕ
  pub filter : PairFilter
  pub accepted : Bool
  pub reason : Text

-- `SubscriptionResult`; its kind is always Replace.
pub record SubscriptionResult : Type 0 where
  pub generation : ℕ
  pub subscription_revision : ℕ
  pub results : List ItemResult

-- `RouterEvent` and `MakerEvent`. A frame rejection carries the acknowledgement.
pub data Event : Type 0 where
  connection_changed : Status → Event
  subscription_changed : SubscriptionResult → Event
  server_error : Text → Text → Event
  frame_rejected : FrameAck → Event

-- `subscriptionReply`
pub data Reply : Type 0 where
  replied : SubscriptionResult → Reply
  refused : StreamError → Reply

-- `pendingSubscription`; its reply channel is the entry of `replies` under its revision.
pub record Pending : Type 0 where
  pub filters : List PairFilter
  pub session : ℕ
  pub revision : ℕ

pub record State : Type 0 where
  pub is_maker : Bool
  pub event_capacity : ℕ
  pub frame_capacity : ℕ
  pub status : Status
  pub is_stopped : Bool
  pub error : Option StreamError
  pub current : Option ℕ
  pub sessions : ℕ → Session
  pub canceled : Bool
  pub events : List Event
  pub frames : List FrameUpdate
  pub ready : Bool
  pub restoring : Bool
  pub accepted : List PairFilter
  pub saved : Option (List PairFilter)
  pub pending : Option Pending
  pub replies : List (ℕ × Reply)
  -- The session that the goroutine of `run` is serving.
  pub serving : Option ℕ

-- The client that newClient makes, before the first session is installed.
abbrev pub new_client : Bool → ℕ → ℕ → State
new_client maker events frames = record {
  is_maker = maker;
  event_capacity = events;
  frame_capacity = frames;
  status = record {
    phase = connecting;
    generation = 0;
    subscription_revision = 0;
    last_error = none;
  };
  is_stopped = false;
  error = none;
  current = none;
  sessions = λ s. record { generation = 0; failure = none; canceled = false };
  canceled = false;
  events = [];
  frames = [];
  ready = false;
  restoring = false;
  accepted = [];
  saved = none;
  pending = none;
  replies = [];
  serving = none;
}

-- `c.current == s`
abbrev pub is_current : Option ℕ → ℕ → Bool
is_current none s = false
is_current (some t) s = t == s

-- A write through a session pointer.
abbrev pub set_session : (ℕ → Session) → ℕ → Session → ℕ → Session
set_session sessions s v t = if t == s then v else sessions t
