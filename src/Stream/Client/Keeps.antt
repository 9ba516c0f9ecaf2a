-- ===== src/Stream/Client/Keeps.antt =====
-- The sections of internal/client.go and internal/connection.go keep a router sound.
use takapu_protocol_sdk.Prelude.{
  ℕ, ◌+◌, ◌≡◌, ◌⊎◌, refl, arith, Bool, true, false, List, [], ◌∷◌, ◌++◌, Option, none, some, length,
  length-append, if-holds, ◌||◌,
}
use takapu_protocol_sdk.Wire.{AddressText}
use takapu_protocol_sdk.Stream.Types.{
  State, StreamError, Event, Status, is_current, stopped, event_buffer_full, connection_changed,
}
use takapu_protocol_sdk.Stream.Client.{
  published, reconnecting_from, clear_locked, stop_locked, emit_locked, install, discard,
  push_event, has_event_room, or_else, note_failure, cancel_session, lose_session, end_session,
}
use takapu_protocol_sdk.Stream.Sound.{IsSound}

-- One more event.
length-push : (es : List Event) (e : Event) → length (es ++ e ∷ []) ≡ length es + 1
length-push es e = length-append es (e ∷ [])

abbrev stopped_status : Option StreamError → State → Status
stopped_status e c = record c.status { phase = stopped; last_error = or_else e c.status.last_error }

module _ (text : AddressText) where
  pub stop_locked-IsSound :
      (e : Option StreamError) (c : State) → IsSound text c → IsSound text (stop_locked e c)
  unfolding stop_locked
  stop_locked-IsSound e c h =
      ground (arith, length-push c.events (connection_changed (stopped_status e c)))

  push_event-IsSound :
      (e : Event) (c : State)
      → has_event_room c ≡ true
      → IsSound text c
      → IsSound text (push_event e c)
  push_event-IsSound e c room h = ground (arith, length-push c.events e)

  pub emit_locked-IsSound :
      (e : Event) (c : State) → IsSound text c → IsSound text (emit_locked e c)
  unfolding emit_locked
  emit_locked-IsSound e c h =
      if-holds (IsSound text) c.is_stopped (λ halted. h)
        (λ running.
          if-holds (IsSound text) (has_event_room c) (λ room. push_event-IsSound e c room h)
            (λ full. stop_locked-IsSound (some event_buffer_full) c h))

  pub note_failure-IsSound :
      (s : ℕ) (e : Option StreamError) (c : State)
      → IsSound text c
      → IsSound text (note_failure s e c)
  note_failure-IsSound s e c h = ground arith

  pub cancel_session-IsSound :
      (s : ℕ) (c : State) → IsSound text c → IsSound text (cancel_session s c)
  cancel_session-IsSound s c h = ground arith

  published-IsSound :
      (s : ℕ) (c : State)
      → c.current ≡ none
      → c.is_stopped ≡ false
      → IsSound text c
      → IsSound text (published s c)
  published-IsSound s c idle running h = ground arith

  -- install runs while no session is current.
  pub install-IsSound :
      (s : ℕ) (c : State) → c.current ≡ none → IsSound text c → IsSound text (install s c).0
  unfolding install
  install-IsSound s c idle h =
      if-holds {A = State × Bool} (λ p. IsSound text p.0) (c.is_stopped || c.canceled)
        (λ refused. cancel_session-IsSound s c h)
        (λ allowed.
          emit_locked-IsSound (connection_changed (published s c).status) (published s c)
            (published-IsSound s c idle (ground arith) h))

  emit_locked-current :
      (e : Event) (c : State) → c.current ≡ none → (emit_locked e c).current ≡ none
  unfolding emit_locked stop_locked
  emit_locked-current e c h = ground arith

  reconnecting_from-IsSound :
      (e : StreamError) (c : State)
      → c.is_stopped ≡ false
      → IsSound text c
      → IsSound text (reconnecting_from e c)
  unfolding clear_locked
  reconnecting_from-IsSound e c running h = ground arith

  reconnecting_from-current : (e : StreamError) (c : State) → (reconnecting_from e c).current ≡ none
  unfolding clear_locked
  reconnecting_from-current e c =
      if-holds {A = State} (λ d. d.current ≡ none) c.is_maker (λ maker. refl) (λ router. refl)

  lost-IsSound :
      (s : ℕ) (c : State)
      → c.current ≡ some s
      → c.is_stopped ≡ true
      → IsSound text c
      → IsSound text (record c { current = none })
  lost-IsSound s c e halted h = ground arith

  lose_session-IsSound :
      (s : ℕ) (e : StreamError) (c : State)
      → c.current ≡ some s
      → IsSound text c
      → IsSound text (lose_session e c) × ((lose_session e c).current ≡ none)
  unfolding lose_session
  lose_session-IsSound s e c now h =
      if-holds (λ d. IsSound text d × (d.current ≡ none)) c.is_stopped
        (λ halted. (lost-IsSound s c now halted h, refl))
        (λ running. (
          emit_locked-IsSound (connection_changed (reconnecting_from e c).status)
              (reconnecting_from e c) (reconnecting_from-IsSound e c running h),
          emit_locked-current (connection_changed (reconnecting_from e c).status)
              (reconnecting_from e c) (reconnecting_from-current e c),
        ))

  pub discard-IsSound :
      (s : ℕ) (e : StreamError) (c : State) → IsSound text c → IsSound text (discard s e c)
  unfolding discard
  discard-IsSound s e c h =
      let noted = note_failure-IsSound s (some e) c h in
      if-holds (λ d. IsSound text (cancel_session s d)) (is_current c.current s)
        (λ now.
          let (sound, gone) =
            lose_session-IsSound s e (note_failure s (some e) c) (ground arith) noted in
          cancel_session-IsSound s (lose_session e (note_failure s (some e) c)) sound)
        (λ other. cancel_session-IsSound s (note_failure s (some e) c) noted)

  abandoned-IsSound :
      (c : State) → c.current ≡ none → IsSound text c → IsSound text (record c { serving = none })
  abandoned-IsSound c gone h = ground arith

  discard-current :
      (s : ℕ) (e : StreamError) (c : State)
      → c.current ≡ none ⊎ c.current ≡ some s
      → IsSound text c
      → (discard s e c).current ≡ none
  unfolding discard
  discard-current s e c own h =
      if-holds {A = State} (λ d. (cancel_session s d).current ≡ none) (is_current c.current s)
        (λ now.
          (lose_session-IsSound s e (note_failure s (some e) c) (ground arith)
            (note_failure-IsSound s (some e) c h)).1)
        (λ other. ground arith)

  -- The session that run serves is the only one that can be current, so none is current after it.
  pub end_session-IsSound :
      (s : ℕ) (e : StreamError) (c : State)
      → c.serving ≡ some s
      → IsSound text c
      → IsSound text (end_session s e c)
  unfolding end_session
  end_session-IsSound s e c serves h =
      abandoned-IsSound (discard s e c) (discard-current s e c (ground arith) h)
        (discard-IsSound s e c h)
