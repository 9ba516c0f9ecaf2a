-- ===== src/Stream/Publish.antt =====
-- `write` of internal/connection.go sendHeartbeat of internal/wire.go, and Publish of
-- internal/maker.go.
pub mod Delivered
pub mod Goes
use takapu_protocol_sdk.Prelude.{
  ℕ, Bool, true, false, not, ◌&&◌, ◌||◌, ltb, ◌==◌, if◌then◌else◌, List, length, Option, none, some,
  ℤ, Result, ok, err,
}
use takapu_protocol_sdk.Frame.Words.{byte_at}
use takapu_protocol_sdk.Wire.{MarketFrame}
use takapu_protocol_sdk.Stream.Types.{
  State, StreamError, disconnected, closed, message_too_large, other_error, is_current,
}
use takapu_protocol_sdk.Stream.Client.{discard}
use takapu_protocol_sdk.Stream.Subscription.{cannot_write}
use takapu_protocol_sdk.Stream.Envelope.{Outbound, exceeds, marshal}

-- What ends the wait of `write` for the writer: the call's context, the session's, or the gate.
pub data Gate : Type 0 where
  call_done : StreamError → Gate
  session_done : Gate
  granted : Gate

-- What a write meets: what the other goroutines do while it waits for the gate, the gate, the error of
-- the call's context behind it, what the others do while the message is on its way, the error of
-- WriteMessage, and the call's context after it.
pub record WriteRun : Type 0 where
  pub queued : State → State
  pub gate : Gate
  pub ended : Option StreamError
  pub meanwhile : State → State
  pub network : Option StreamError
  pub ended_after : Option StreamError

-- The state, whether a network write was attempted, and the error.
pub record Written : Type 0 where
  pub state : State
  pub started : Bool
  pub error : Option StreamError

abbrev pub not_started : State → StreamError → Written
not_started c e = record { state = c; started = false; error = some e }

-- The error of the network write, which the one of the call's context replaces.
abbrev pub write_error : WriteRun → Option StreamError
write_error run = elim run.ended_after [ none ↦ run.network | some e ↦ some e ]

-- The end of `write`.
unfoldable pub finish_write : ℕ → Option StreamError → State → Written
finish_write s none c = record { state = c; started = true; error = none }
finish_write s (some e) c = record { state = discard s e c; started = true; error = some e }

-- The error of the closure ends the write before it starts.
abbrev pub after_before : State × Option StreamError → Written → Written
after_before (c, none) sent = sent
after_before (c, some e) sent = not_started c e

-- The locked part of `write` with the closure `before` once the message has the gate.
unfoldable pub write_granted :
    ℕ → WriteRun → (State → State × Option StreamError) → Option StreamError → State → Written
write_granted s run before (some e) c = not_started c e
write_granted s run before none c =
    let begun = before c in
    let sent = finish_write s (write_error run) (run.meanwhile begun.0) in
    if cannot_write s c then not_started c disconnected else after_before begun sent

-- The end of the wait of `write`, in the state that the others have left.
unfoldable pub write_at :
    ℕ → WriteRun → (State → State × Option StreamError) → Gate → State → Written
write_at s run before (call_done e) c = not_started c e
write_at s run before session_done c = not_started c disconnected
write_at s run before granted c = write_granted s run before run.ended c

-- `write`
unfoldable pub write :
    ℤ → ℕ → WriteRun → (State → State × Option StreamError) → List ℕ → State → Written
write limit s run before bytes c =
    if exceeds (length bytes) limit
    then not_started c message_too_large
    else write_at s run before run.gate (run.queued c)

-- A heartbeat's write and a maker's have no closure.
abbrev pub nothing_before : State → State × Option StreamError
nothing_before c = (c, none)

-- `sendHeartbeat`, whose message is `beat`.
unfoldable pub send_heartbeat : ℤ → Outbound → ℕ → WriteRun → State → State × Option StreamError
send_heartbeat limit beat s run c = elim (marshal limit beat) [
  | err e ↦ (c, some e)
  | ok bytes ↦ let sent = write limit s run nothing_before bytes c in (sent.state, sent.error)
]

-- `PublishOutcome`
pub data Outcome : Type 0 where
  not_sent : Outcome
  unknown : Outcome

pub data PublishError : Type 0 where
  bad_signature bad_recovery_id : PublishError
  stream_error : StreamError → PublishError

-- What Publish returns, with the state behind it.
pub record Published : Type 0 where
  pub state : State
  pub error : Option (Outcome × PublishError)

abbrev pub fails : State → PublishError → Published
fails c e = record { state = c; error = some (not_sent, e) }

abbrev pub outcome_of : Written → Published
outcome_of w = elim w.error [
  | none ↦ record { state = w.state; error = none }
  | some e ↦ record {
    state = w.state;
    error = some (if w.started then unknown else not_sent, stream_error e);
  }
]

abbrev pub publish_on : ℤ → WriteRun → List ℕ → Option ℕ → State → Published
publish_on limit run bytes none c = fails c (stream_error disconnected)
publish_on limit run bytes (some s) c = outcome_of (write limit s run nothing_before bytes c)

abbrev pub publish_bytes : ℤ → WriteRun → Result StreamError (List ℕ) → State → Published
publish_bytes limit run (err e) c = fails c (stream_error e)
publish_bytes limit run (ok bytes) c =
    if c.is_stopped then fails c (stream_error closed) else publish_on limit run bytes c.current c

abbrev pub publish_frame :
    (MarketFrame → Outbound) → ℤ → WriteRun → Option MarketFrame → State → Published
publish_frame envelope limit run none c = fails c bad_signature
publish_frame envelope limit run (some value) c =
    if not (length value.signature == 65)
    then fails c bad_signature
    else if not (byte_at value.signature 64 == 27) && not (byte_at value.signature 64 == 28)
    then fails c bad_recovery_id
    else publish_bytes limit run (marshal limit (envelope value)) c

-- `Publish`; `canceled` is what the context answers, and `envelope` builds the message.
unfoldable pub publish :
    (MarketFrame → Outbound)
    → ℤ
    → WriteRun
    → Option StreamError
    → Option MarketFrame
    → State
    → Published
publish envelope limit run (some e) value c = fails c (stream_error e)
publish envelope limit run none value c = publish_frame envelope limit run value c
