-- ===== src/Stream/Reconnect.antt =====
-- internal/reconnect.go, and classifyReadError and the errors of dial in internal/connection.go.
-- Durations are nanoseconds, positive once the settings are normalized.
pub mod Backoff
pub mod Terminal
use takapu_protocol_sdk.Prelude.{
  ℕ, ◌+◌, ◌-◌, ◌*◌, ◌/◌, Bool, true, false, not, ◌&&◌, ◌||◌, ltb, leb, ◌==◌, if◌then◌else◌, List,
  [], ◌∷◌, Option, none, some, Result, ok, err,
}
use takapu_protocol_sdk.Decimal.Digits.{Text}
use takapu_protocol_sdk.Stream.Types.{
  State, StreamError, protocol_violation, authentication, event_buffer_full, frame_buffer_full,
  closed, message_limit, close_code, text_message, manual_reconnect, Phase, connected,
}
use takapu_protocol_sdk.Stream.Client.{stop_locked, end_session, stopped_error_locked}
use takapu_protocol_sdk.Stream.Config.{disabled}

-- `terminalError`
unfoldable pub terminal_error : StreamError → Bool
terminal_error (protocol_violation fault) = true
terminal_error authentication = true
terminal_error event_buffer_full = true
terminal_error frame_buffer_full = true
terminal_error other = false

-- An error of the WebSocket library: a close frame with its code, the limit of a message, or one that
-- classifyReadError leaves as it is.
pub data ReadFailure : Type 0 where
  close_frame : ℕ → StreamError → ReadFailure
  read_limit : ReadFailure
  unclassified : StreamError → ReadFailure

abbrev pub is_policy_code : ℕ → Bool
is_policy_code code = code == 1008 || code == 4001 || code == 4003

abbrev pub is_protocol_code : ℕ → Bool
is_protocol_code code = code == 1002 || code == 1003 || code == 1007 || code == 1009

-- `classifyReadError`
unfoldable pub classify_read_error : ReadFailure → StreamError
classify_read_error (close_frame code e) =
    if is_policy_code code
    then authentication
    else if is_protocol_code code
    then protocol_violation close_code
    else e
classify_read_error read_limit = protocol_violation message_limit
classify_read_error (unclassified e) = e

-- An error of DialContext: the context's own error comes first, then the status of the response.
unfoldable pub dial_failure : Option StreamError → Option ℕ → StreamError → StreamError
dial_failure (some ended) status e = ended
dial_failure none none e = e
dial_failure none (some status) e = if status == 401 || status == 403 then authentication else e

-- The first message of a connection: an error, or its bytes and whether they are binary.
pub data FirstMessage : Type 0 where
  no_message : ReadFailure → FirstMessage
  first_message : Bool → List ℕ → FirstMessage

abbrev pub as_failure : Result StreamError Text → Result ReadFailure Text
as_failure (ok identity) = ok identity
as_failure (err e) = err (unclassified e)

abbrev pub read_first : (List ℕ → Result StreamError Text) → FirstMessage → Result ReadFailure Text
read_first acknowledged (no_message e) = err e
read_first acknowledged (first_message false bytes) =
    err (unclassified (protocol_violation text_message))
read_first acknowledged (first_message true bytes) = as_failure (acknowledged bytes)

abbrev pub classified : Result ReadFailure Text → Result StreamError Text
classified (ok identity) = ok identity
classified (err e) = err (classify_read_error e)

-- The end of `dial`, with the identity of the session: an ended context replaces any error.
unfoldable pub finish_dial :
    Option StreamError → (List ℕ → Result StreamError Text) → FirstMessage → Result StreamError Text
finish_dial (some ended) acknowledged first = err ended
finish_dial none acknowledged first = classified (read_first acknowledged first)

abbrev pub is_manual : StreamError → Bool
is_manual manual_reconnect = true
is_manual other = false

-- `if s.failure != nil && !terminalError(err) { err = s.failure }`
abbrev pub cause_of : Option StreamError → StreamError → StreamError
cause_of none e = e
cause_of (some failure) e = if terminal_error e then e else failure

-- What `run` does next: it returns, or it connects again, at once if the reconnect was asked for.
pub data Next : Type 0 where
  returns : Next
  retries : Bool → Next

-- What the other goroutines do between the sections under the lock of one turn of `run`: before it
-- looks at the client's context, before it takes the lock again, and behind the discard.
pub record Gaps : Type 0 where
  pub unlocked : State → State
  pub checked : State → State
  pub discarded : State → State

abbrev pub ends_for_good : ℕ → StreamError → Bool
ends_for_good policy cause = terminal_error cause || policy == disabled && not (is_manual cause)

-- One turn of the loop of `run` when runSession has returned `e` for the session `s`, up to the delay;
-- `ended` is the error of the client's context.
unfoldable pub after_session : ℕ → ℕ → StreamError → Gaps → StreamError → State → State × Next
after_session policy s ended gaps e c =
    let cause = cause_of (c.sessions s).failure e in
    let unlocked = gaps.unlocked c in
    let lost : State = end_session s cause (gaps.checked unlocked) in
    if c.is_stopped
    then (c, returns)
    else if unlocked.canceled
    then (stop_locked (some ended) (gaps.checked unlocked), returns)
    else if ends_for_good policy cause
    then (stop_locked (some cause) (gaps.discarded lost), returns)
    else (lost, retries (is_manual cause))

-- The delay behind a session that lasted `since`.
abbrev pub reset_delay : ℕ → ℕ → ℕ → ℕ → ℕ
reset_delay initial reset_after since delay = if leb reset_after since then initial else delay

-- The wait before an attempt, where rand.Int64N gave `jitter`.
abbrev pub wait_of : ℕ → ℕ → ℕ
wait_of delay jitter = delay / 2 + jitter

-- The next delay.
unfoldable pub next_delay : ℕ → ℕ → ℕ
next_delay longest delay =
    if ltb delay longest then if ltb (longest / 2) delay then longest else delay * 2 else delay

-- One turn of the inner loop of `run`: whether the timer ended the wait, the error of dial if it
-- failed, whether the context has ended, and whether the new session was installed.
pub record Attempt : Type 0 where
  pub waited : Bool
  pub dial_error : Option StreamError
  pub canceled : Bool
  pub installed : Bool

pub data Retried : Type 0 where
  still_trying : ℕ → Retried
  gives_up : Retried
  ends_with : StreamError → Retried
  reconnected : ℕ → Retried

abbrev pub after_dial : Option StreamError → Bool → Bool → ℕ → Retried → Retried
after_dial none canceled installed delay rest = if installed then reconnected delay else gives_up
after_dial (some e) canceled installed delay rest =
    if terminal_error e then ends_with e else if canceled then gives_up else rest

-- The inner loop of `run` on the attempts that come; only the first one can be manual.
unfoldable pub retry : ℕ → ℕ → Bool → List Attempt → Retried
retry longest delay manual [] = still_trying delay
retry longest delay true (a ∷ attempts) =
    after_dial a.dial_error a.canceled a.installed delay (retry longest delay false attempts)
retry longest delay false (a ∷ attempts) =
    let next = next_delay longest delay in
    let rest = retry longest next false attempts in
    if a.waited then after_dial a.dial_error a.canceled a.installed next rest else gives_up

-- The wait of `Reconnect`, in the state that it looks at: an answer, or `none` to wait on. A maker
-- restores nothing.
abbrev pub is_connected : Phase → Bool
is_connected connected = true
is_connected other = false

unfoldable pub reconnect_answer : ℕ → State → Option (Option StreamError)
reconnect_answer generation c =
    if c.is_stopped
    then some (some (stopped_error_locked c))
    else if is_connected c.status.phase
        && ltb generation c.status.generation
        && (c.is_maker || not c.restoring)
    then some none
    else none
