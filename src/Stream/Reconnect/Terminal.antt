-- ===== src/Stream/Reconnect/Terminal.antt =====
-- Which errors of a session end a client of internal/reconnect.go.
use takapu_protocol_sdk.Prelude.{
  sym, ◌∙◌, ℕ, ◌≡◌, ◌⊎◌, inl, inr, refl, arith, true, false, List, Option, none, some, ℤ, if-holds,
  Bool-cases, ||-eq-false, not, ◌&&◌, ◌==◌,
}
use mathlib.Core.Path.{subst, ap}
use takapu_protocol_sdk.Wire.{AddressText}
use takapu_protocol_sdk.Stream.Types.{
  State, Event, stopped, reconnecting, connection_changed, StreamError, event_buffer_full,
  is_current,
}
use takapu_protocol_sdk.Stream.Client.{
  clear_locked, clear_router, or_else, has_event_room, cancel_current, stop_locked, emit_locked,
  note_failure, cancel_session, reconnecting_from, lose_session, discard, end_session,
}
use takapu_protocol_sdk.Stream.Envelope.{Codec, Outbound, Outcome, handle}
use takapu_protocol_sdk.Stream.Envelope.Faults.{
  IsFault, ack-IsFault, update-IsFault, server_error_message-IsFault,
}
use takapu_protocol_sdk.Stream.Envelope.Requests.{
  Request, ping, pong, acknowledged, updated, failed, Arrives,
}
use takapu_protocol_sdk.Stream.Envelope.Handled.{serve, handle-IsHandled}
use takapu_protocol_sdk.Stream.Publish.{WriteRun, send_heartbeat}
use takapu_protocol_sdk.Stream.Config.{disabled}
use takapu_protocol_sdk.Stream.Reconnect.{
  terminal_error, cause_of, Gaps, Next, returns, is_manual, ends_for_good, after_session,
}

IsFault-terminal_error : (e : StreamError) → IsFault (some e) → terminal_error e ≡ true
unfolding terminal_error
IsFault-terminal_error e (inl h) = cc
IsFault-terminal_error e (inr (inl (f, h))) = ground arith
IsFault-terminal_error e (inr (inr h)) = ground arith

serve-IsFault :
    (text : AddressText) (s : ℕ) (answer : State → Outcome) (r : Request) (c : State)
    → (r ≡ ping → ⊥)
    → IsFault (serve text s answer r c).1
serve-IsFault text s answer ping c other = absurd (other refl)
serve-IsFault text s answer pong c other = inl refl
serve-IsFault text s answer (acknowledged rs) c other = ack-IsFault s rs c
serve-IsFault text s answer (updated v) c other = update-IsFault text s v c
serve-IsFault text s answer (failed x) c other = server_error_message-IsFault s _ x.code x.message c

-- The error of a message that is not a ping ends a client.
handle-terminal_error :
    (codec : Codec) (text : AddressText) (s : ℕ) (limit : ℤ) (beat : Outbound) (run : WriteRun)
    (bytes : List ℕ) (c : State) (e : StreamError)
    → c.is_maker ≡ false
    → (Arrives codec bytes ping → ⊥)
    → (handle codec text s (send_heartbeat limit beat s run) bytes c).1 ≡ some e
    → terminal_error e ≡ true
handle-terminal_error codec text s limit beat run bytes c e router silent h =
    elim (handle-IsHandled codec text s limit beat run bytes c router) [
      | inl (r, arrives, same) ↦ IsFault-terminal_error e (
          subst IsFault (sym (ap (λ x. x.1) same) ∙ h) (
            serve-IsFault text s (send_heartbeat limit beat s run) r c
              (λ q. silent (subst (Arrives codec bytes) q arrives))))
      | inr (nothing, (f, same)) ↦
          IsFault-terminal_error e (inr (inl (f, sym h ∙ ap (λ x. x.1) same)))
    ]

-- What stopping a client leaves: it is stopped, with this error unless it was stopped before.
abbrev pub IsStopped : Option StreamError → State → State → Type 0
IsStopped e c out =
    (out.is_stopped ≡ true)
    × (((c.is_stopped ≡ false) × (out.error ≡ e)) ⊎ ((c.is_stopped ≡ true) × (out ≡ c)))

-- The fields that clearing and canceling keep.
abbrev Keeps : State → State → Type 0
Keeps c d =
    (d.is_stopped ≡ c.is_stopped) × (d.error ≡ c.error) × (has_event_room d ≡ has_event_room c)

clear_router-Keeps : (c : State) → Keeps c (clear_router c)
unfolding clear_locked
clear_router-Keeps c =
    if-holds {A = State} (Keeps c) c.is_maker (λ maker. (refl, refl, refl))
      (λ router. (refl, refl, refl))

cancel_at-Keeps :
    (c : State) (current : Option ℕ)
    → Keeps c (elim current [ none ↦ c | some s ↦ record (cancel_session s c) { current = none } ])
cancel_at-Keeps c none = (refl, refl, refl)
cancel_at-Keeps c (some s) = (refl, refl, refl)

cancel_current-Keeps : (c : State) → Keeps c (cancel_current c)
cancel_current-Keeps c = cancel_at-Keeps c c.current

stop_locked-IsStopped : (e : Option StreamError) (c : State) → IsStopped e c (stop_locked e c)
unfolding stop_locked clear_locked
stop_locked-IsStopped e c =
    let marked : State = record c {
      is_stopped = true;
      error = e;
      status = record c.status { phase = stopped; last_error = or_else e c.status.last_error };
    } in
    let (a1, a2, a3) = clear_router-Keeps marked in
    let (b1, b2, b3) = cancel_current-Keeps (clear_router marked) in
    if-holds {A = State} (IsStopped e c) c.is_stopped (λ done. (done, inr (done, refl)))
      (λ running.
        if-holds {A = State} (IsStopped e c)
          (has_event_room (record (cancel_current (clear_router marked)) { canceled = true }))
          (λ room. (b1 ∙ a1, inl (running, b2 ∙ a2))) (λ full. (b1 ∙ a1, inl (running, b2 ∙ a2))))

-- A client that the discard of a session has stopped had no room for the event.
abbrev pub IsLost : ℕ → State → State → Type 0
IsLost s c out =
    (out.is_stopped ≡ false)
    ⊎ (c.is_stopped ≡ true)
    ⊎ ((is_current c.current s ≡ true)
        × (has_event_room c ≡ false)
        × (out.error ≡ some event_buffer_full))

emit_locked-stopped :
    (event : Event) (c : State)
    → c.is_stopped ≡ false
    → let out = emit_locked event c in
      (out.is_stopped ≡ false) ⊎ ((has_event_room c ≡ false) × (out.error ≡ some event_buffer_full))
unfolding emit_locked
emit_locked-stopped event c running =
    let P : State → Type 0 = λ out.
      (out.is_stopped ≡ false)
      ⊎ ((has_event_room c ≡ false) × (out.error ≡ some event_buffer_full)) in
    if-holds {A = State} P c.is_stopped (λ done. inl running)
      (λ still.
        if-holds {A = State} P (has_event_room c) (λ room. inl running)
          (λ full.
            let (done, way) = stop_locked-IsStopped (some event_buffer_full) c in
            elim way [
              | inl (was, same) ↦ inr (full, same)
              | inr (was, same) ↦ absurd (cc (was, running))
            ]))

lose_session-IsLost :
    (s : ℕ) (e : StreamError) (c noted : State)
    → is_current c.current s ≡ true
    → Keeps c noted
    → IsLost s c (lose_session e noted)
unfolding lose_session
lose_session-IsLost s e c noted here (n1, n2, n3) =
    let gone : State = record noted {
      current = none;
      status = record noted.status { phase = reconnecting; last_error = some e };
    } in
    let (r1, r2, r3) = clear_router-Keeps gone in
    if-holds {A = State} (IsLost s c) noted.is_stopped (λ done. inr (inl (sym n1 ∙ done)))
      (λ running.
        elim (emit_locked-stopped (connection_changed (reconnecting_from e noted).status)
          (reconnecting_from e noted) (r1 ∙ running)) [
            | inl still ↦ inl still
            | inr (full, same) ↦ inr (inr (here, sym (r3 ∙ n3) ∙ full, same))
          ])

end_session-IsLost : (s : ℕ) (e : StreamError) (c : State) → IsLost s c (end_session s e c)
unfolding end_session discard
end_session-IsLost s e c =
    let noted : State = note_failure s (some e) c in
    if-holds {A = State} (λ d. IsLost s c (record (cancel_session s d) { serving = none }))
      (is_current c.current s) (λ here. lose_session-IsLost s e c noted here (refl, refl, refl))
      (λ other. elim (Bool-cases c.is_stopped) [
        | inl done ↦ inr (inl done)
        | inr running ↦ inl running
      ])

cause_of-terminal :
    (failure : Option StreamError) (e : StreamError)
    → terminal_error e ≡ true
    → cause_of failure e ≡ e
cause_of-terminal none e h = refl
cause_of-terminal (some f) e h = rw h

after_session-terminal :
    (policy s : ℕ) (ended : StreamError) (gaps : Gaps) (e : StreamError) (c : State)
    → terminal_error e ≡ true
    → c.is_stopped ≡ false
    → (gaps.unlocked c).canceled ≡ false
    → let lost = end_session s e (gaps.checked (gaps.unlocked c)) in
      after_session policy s ended gaps e c ≡ (stop_locked (some e) (gaps.discarded lost), returns)
unfolding after_session
after_session-terminal policy s ended gaps e c fatal running alive =
    let cause = cause_of (c.sessions s).failure e in
    let found = gaps.checked (gaps.unlocked c) in
    let same : cause ≡ e = cause_of-terminal (c.sessions s).failure e fatal in
    let P : State × Next → Type 0 =
      λ x. x ≡ (stop_locked (some e) (gaps.discarded (end_session s e found)), returns) in
    if-holds {A = State × Next} P c.is_stopped (λ done. absurd (cc (done, running)))
      (λ still.
        if-holds {A = State × Next} P (gaps.unlocked c).canceled (λ over. absurd (cc (over, alive)))
          (λ on.
            if-holds {A = State × Next} P (ends_for_good policy cause)
              (λ good.
                ap (λ x. (stop_locked (some x) (gaps.discarded (end_session s x found)), returns))
                  same)
              (λ bad.
                let (calm, other) =
                  ||-eq-false (terminal_error cause) (policy == disabled && not (is_manual cause))
                    bad in
                absurd (cc (calm, fatal, ap terminal_error same)))))

-- A message that a router cannot accept ends the client for good. Let handle return an error for bytes
-- that are no ping, and let run find the client running at its lock and its context alive behind it.
-- Then, whatever the policy, the failure that the session already has, and what the others do between
-- the sections of run: run returns, the client is stopped, and with that error, unless it was stopped
-- before run stops it. And the discard of the session stops a running client only if the session is
-- the current one and its event finds no room, and then with the error of the full event buffer.
pub handle-terminal :
    (codec : Codec) (text : AddressText) (s : ℕ) (limit : ℤ) (beat : Outbound) (run : WriteRun)
    (bytes : List ℕ) (b : State) (e : StreamError) (policy : ℕ) (ended : StreamError) (gaps : Gaps)
    (c : State)
    → b.is_maker ≡ false
    → (Arrives codec bytes ping → ⊥)
    → (handle codec text s (send_heartbeat limit beat s run) bytes b).1 ≡ some e
    → c.is_stopped ≡ false
    → (gaps.unlocked c).canceled ≡ false
    → let found = gaps.checked (gaps.unlocked c) in
      let lost = end_session s e found in
      let out = after_session policy s ended gaps e c in
      (out.1 ≡ returns) × IsStopped (some e) (gaps.discarded lost) out.0 × IsLost s found lost
handle-terminal codec text s limit beat run bytes b e policy ended gaps c router silent h running
      alive =
    let fatal = handle-terminal_error codec text s limit beat run bytes b e router silent h in
    let found = gaps.checked (gaps.unlocked c) in
    let lost = end_session s e found in
    let same = after_session-terminal policy s ended gaps e c fatal running alive in
    (
      ap (λ x. x.1) same,
      subst (λ x. IsStopped (some e) (gaps.discarded lost) x.0) (sym same)
          (stop_locked-IsStopped (some e) (gaps.discarded lost)),
      end_session-IsLost s e found,
    )
