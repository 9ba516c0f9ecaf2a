-- ===== src/Stream/Client.antt =====
-- internal/client.go and the sessions of internal/connection.go: emit, stopLocked, install, discard,
-- and clearLocked of internal/subscription.go. Every function is one section under `client.mu`.
pub mod Keeps
use takapu_protocol_sdk.Prelude.{
  ℕ, suc, ◌+◌, Bool, true, false, not, ◌&&◌, ◌||◌, List, [], ◌∷◌, ◌++◌, Option, none, some, ltb,
  ◌==◌, if◌then◌else◌, length,
}
use takapu_protocol_sdk.Stream.Types.{
  State, Status, Session, Event, StreamError, Phase, connected, reconnecting, stopped, closed,
  event_buffer_full, connection_changed, is_current, set_session,
}

-- `clearLocked`, which a maker does not call.
unfoldable pub clear_locked : State → State
clear_locked c = record c { frames = []; ready = false; accepted = []; pending = none }

abbrev pub clear_router : State → State
clear_router c = if c.is_maker then c else clear_locked c

-- A nonblocking send on the event channel; false when the buffer is full.
abbrev pub has_event_room : State → Bool
has_event_room c = ltb (length c.events) c.event_capacity

abbrev pub push_event : Event → State → State
push_event e c = record c { events = c.events ++ e ∷ [] }

-- `c.current.cancel()` and the close of its connection.
abbrev pub cancel_session : ℕ → State → State
cancel_session s c = record c {
  sessions = set_session c.sessions s (record (c.sessions s) { canceled = true });
}

abbrev pub cancel_current : State → State
cancel_current c = elim c.current [
  | none ↦ c
  | some s ↦ record (cancel_session s c) { current = none }
]

abbrev pub or_else : Option StreamError → Option StreamError → Option StreamError
or_else none old = old
or_else (some e) old = some e

-- `stopLocked`. The final event is dropped when no slot remains.
unfoldable pub stop_locked : Option StreamError → State → State
unfolding clear_locked
stop_locked e c =
    let marked : State = record c {
      is_stopped = true;
      error = e;
      status = record c.status { phase = stopped; last_error = or_else e c.status.last_error };
    } in
    let ended : State = record (cancel_current (clear_router marked)) { canceled = true } in
    if c.is_stopped
    then c
    else if has_event_room ended
    then push_event (connection_changed ended.status) ended
    else ended

-- `emitMakerLocked` and `emitRouterLocked`, which differ in the channel only.
unfoldable pub emit_locked : Event → State → State
unfolding stop_locked
emit_locked e c =
    if c.is_stopped
    then c
    else if has_event_room c
    then push_event e c
    else stop_locked (some event_buffer_full) c

-- `connectionEventLocked`
abbrev pub connection_event_locked : State → State
connection_event_locked c = emit_locked (connection_changed c.status) c

-- The session of the next generation, published.
abbrev pub published : ℕ → State → State
published s c =
    let generation = c.status.generation + 1 in
    record c {
      status = record c.status { generation = generation; phase = connected };
      sessions = set_session c.sessions s (record (c.sessions s) { generation = generation });
      current = some s;
      serving = some s;
    }

-- `install`, with the answer that it returns. `c.ctx.Err() != nil` is `canceled`. The goroutine of
-- `run` goes on to serve the session.
unfoldable pub install : ℕ → State → State × Bool
install s c =
    let told : State = connection_event_locked (published s c) in
    if c.is_stopped || c.canceled then (cancel_session s c, false) else (told, not told.is_stopped)

-- `if s.failure == nil { s.failure = err }`
abbrev pub note_failure : ℕ → Option StreamError → State → State
note_failure s e c = record c {
  sessions =
      set_session c.sessions s
        (record (c.sessions s) { failure = or_else (c.sessions s).failure e });
}

-- The state without a session, before the event.
abbrev pub reconnecting_from : StreamError → State → State
reconnecting_from e c = clear_router (record c {
  current = none;
  status = record c.status { phase = reconnecting; last_error = some e };
})

-- What `discard` does with the state if the session is the current one.
unfoldable pub lose_session : StreamError → State → State
lose_session e c =
    if c.is_stopped
    then record c { current = none }
    else connection_event_locked (reconnecting_from e c)

-- `discard`
unfoldable pub discard : ℕ → StreamError → State → State
discard s e c =
    let noted : State = note_failure s (some e) c in
    cancel_session s (if is_current c.current s then lose_session e noted else noted)

-- What `run` does when runSession returns: it discards its session and is between sessions then.
unfoldable pub end_session : ℕ → StreamError → State → State
end_session s e c = record (discard s e c) { serving = none }

-- `stoppedErrorLocked`
unfoldable pub stopped_error_locked : State → StreamError
stopped_error_locked c = elim c.error [ none ↦ closed | some e ↦ e ]
