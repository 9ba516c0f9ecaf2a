-- ===== src/Stream/Envelope/Handled.antt =====
-- What a router does with a message of internal/wire.go.
use takapu_protocol_sdk.Prelude.{
  sym, true, ℤ, Bool-cases, fail_if, ◌>>◌, ℕ, ◌≡◌, ◌⊎◌, inl, inr, refl, arith, false, not, ◌&&◌,
  ◌==◌, List, Option, none, some, ok, if-holds, same_bytes,
}
use takapu_protocol_sdk.Decimal.Print.{is_empty}
use takapu_protocol_sdk.Wire.{MarketFrame, AddressText, Heartbeat, ServerError}
use takapu_protocol_sdk.Stream.Types.{
  State, Fault, protocol_violation, missing_frame, invalid_heartbeat, missing_subscribe_ack,
  invalid_server_error, unexpected_message, invalid_message, unknown_fields,
}
use takapu_protocol_sdk.Stream.Subscription.{FilterResult, ack, server_error_message, update}
use takapu_protocol_sdk.Stream.Envelope.{
  Outcome, Outbound, has_unknown_fields, Codec, Envelope, Message, router_heartbeat,
  router_subscribe_ack, router_frame_update, router_error, decode, heartbeat, get_heartbeat,
  get_subscribe_ack, get_update, get_error, subscribe_ack, frame_update, server_message,
  handle_router, on_envelope, handle, request_too_large,
}
use takapu_protocol_sdk.Stream.Envelope.Requests.{
  Request, ping, pong, acknowledged, updated, failed, Asks, Holds, Arrives, get_heartbeat-eq,
  get_subscribe_ack-eq, get_update-eq, get_error-eq, no_heartbeat, no_ack, no_update, no_error,
  no_other, not_beat, nameless,
}
use mathlib.Core.Path.{subst, ap}
use mathlib.Core.Option.{some-injective}
use takapu_protocol_sdk.Stream.Envelope.Known.{IsKnown, has_unknown_fields_iff}
use takapu_protocol_sdk.Stream.Publish.{WriteRun, send_heartbeat}

-- What is done for it.
abbrev pub serve : AddressText → ℕ → (State → Outcome) → Request → State → Outcome
serve text s answer ping c = answer c
serve text s answer pong c = (c, none)
serve text s answer (acknowledged results) c = ack s results c
serve text s answer (updated value) c = update text s value c
serve text s answer (failed error) c =
    server_error_message s (same_bytes error.code request_too_large) error.code error.message c

-- Nothing has changed, and the server is at fault.
abbrev pub IsRefused : State → Outcome → Type 0
IsRefused c out = (f : Fault) × (out ≡ (c, some (protocol_violation f)))

module _ (text : AddressText) (s : ℕ) (answer : State → Outcome) (c : State) where
  -- An envelope is served if it asks for something, and refused if it asks for nothing.
  abbrev Dispatched : Envelope → Outcome → Type 0
  Dispatched e out =
      ((r : Request) × Asks r e × (out ≡ serve text s answer r c))
      ⊎ (((r : Request) → Asks r e → ⊥) × IsRefused c out)

  heartbeat-Dispatched :
      (e : Envelope) (o : Option Heartbeat)
      → e.kind ≡ 6
      → get_heartbeat e.payload ≡ o
      → Dispatched e (heartbeat answer o c)
  unfolding heartbeat
  heartbeat-Dispatched e none k n = inr (no_heartbeat e k n, (invalid_heartbeat, refl))
  heartbeat-Dispatched e (some h) k n =
      if-holds {A = Outcome} (Dispatched e) (not h.ping && not h.pong)
        (λ idle. inr (not_beat e h k n idle, (invalid_heartbeat, refl)))
        (λ one.
          if-holds {A = Outcome} (Dispatched e) h.ping
            (λ p. inl (ping, (k, h, get_heartbeat-eq e.payload h n, p), refl))
            (λ p. inl (pong, (k, h, get_heartbeat-eq e.payload h n, p, ground arith), refl)))

  subscribe_ack-Dispatched :
      (e : Envelope) (o : Option (List (Option FilterResult)))
      → e.kind ≡ 3
      → get_subscribe_ack e.payload ≡ o
      → Dispatched e (subscribe_ack s o c)
  unfolding subscribe_ack
  subscribe_ack-Dispatched e none k n = inr (no_ack e k n, (missing_subscribe_ack, refl))
  subscribe_ack-Dispatched e (some rs) k n =
      inl (acknowledged rs, (k, get_subscribe_ack-eq e.payload rs n), refl)

  frame_update-Dispatched :
      (e : Envelope) (o : Option MarketFrame)
      → e.kind ≡ 5
      → get_update e.payload ≡ o
      → Dispatched e (frame_update text s o c)
  unfolding frame_update
  frame_update-Dispatched e none k n = inr (no_update e k n, (missing_frame, refl))
  frame_update-Dispatched e (some v) k n = inl (updated v, (k, get_update-eq e.payload v n), refl)

  server_message-Dispatched :
      (e : Envelope) (o : Option ServerError)
      → e.kind ≡ 7
      → get_error e.payload ≡ o
      → Dispatched e (server_message s o c)
  unfolding server_message
  server_message-Dispatched e none k n = inr (no_error e k n, (invalid_server_error, refl))
  server_message-Dispatched e (some x) k n =
      if-holds {A = Outcome} (Dispatched e) (is_empty x.code)
        (λ blank. inr (nameless e x k n blank, (invalid_server_error, refl)))
        (λ named. inl (failed x, (k, get_error-eq e.payload x n, named), refl))

  handle_router-Dispatched : (e : Envelope) → Dispatched e (handle_router text s answer e c)
  unfolding handle_router
  handle_router-Dispatched e =
      if-holds {A = Outcome} (Dispatched e) (e.kind == router_heartbeat)
        (λ k. heartbeat-Dispatched e (get_heartbeat e.payload) (ground arith) refl)
        (λ n1.
          if-holds {A = Outcome} (Dispatched e) (e.kind == router_subscribe_ack)
            (λ k. subscribe_ack-Dispatched e (get_subscribe_ack e.payload) (ground arith) refl)
            (λ n2.
              if-holds {A = Outcome} (Dispatched e) (e.kind == router_frame_update)
                (λ k. frame_update-Dispatched e (get_update e.payload) (ground arith) refl)
                (λ n3.
                  if-holds {A = Outcome} (Dispatched e) (e.kind == router_error)
                    (λ k. server_message-Dispatched e (get_error e.payload) (ground arith) refl)
                    (λ n4. inr (no_other e n1 n2 n3 n4, (unexpected_message, refl))))))

  -- What becomes of the bytes, by what they decode to.
  abbrev IsHandled : Option (Envelope × Message) → Outcome → Type 0
  IsHandled decoded out =
      ((r : Request) × Holds decoded r × (out ≡ serve text s answer r c))
      ⊎ (((r : Request) → Holds decoded r → ⊥) × IsRefused c out)

  kept :
      (e : Envelope) (shown : Message) (out : Outcome)
      → IsKnown shown
      → Dispatched e out
      → IsHandled (some (e, shown)) out
  kept e shown out clean (inl (r, asks, same)) = inl (r, (e, shown, refl, clean, asks), same)
  kept e shown out clean (inr (nothing, (f, same))) = inr (
    (λ r (e', shown', q, clean', asks).
        nothing r
          (subst (Asks r) (ap (λ x. x.0) (sym (some-injective (e, shown) (e', shown') q))) asks)),
    (f, same),
  )

  unknown_kept :
      (e : Envelope) (shown : Message)
      → has_unknown_fields shown ≡ true
      → (r : Request) → Holds (some (e, shown)) r
      → ⊥
  unknown_kept e shown h r (e', shown', q, clean, asks) =
      let same : shown ≡ shown' = ap (λ x. x.1) (some-injective (e, shown) (e', shown') q) in
      cc (ap has_unknown_fields same, h, (has_unknown_fields_iff shown').1 clean)

  decode-IsHandled :
      (decoded : Option (Envelope × Message))
      → IsHandled decoded (on_envelope (handle_router text s answer) (decode decoded) c)
  unfolding decode
  decode-IsHandled none = inr ((λ r (e, shown, q, clean, asks). cc q), (invalid_message, refl))
  decode-IsHandled (some (e, shown)) = elim (Bool-cases (has_unknown_fields shown)) [
    | inl odd ↦ inr (unknown_kept e shown odd, (unknown_fields, rw odd))
    | inr fine ↦
        subst
          (λ b. IsHandled (some (e, shown)) (
            on_envelope (handle_router text s answer)
              (do fail_if b (protocol_violation unknown_fields); ok e) c))
          (sym fine)
          (kept e shown (handle_router text s answer e c) ((has_unknown_fields_iff shown).0 fine)
            (handle_router-Dispatched e))
  ]

-- A router serves exactly what it is asked for. If the bytes are an envelope without unknown fields
-- that is a ping, a pong, an acknowledgement with its results, an update with its frame, or an error
-- with a code, each under its own type, then handle does what that asks for: it answers the ping, does
-- nothing, or runs ack, update or serverError with it. Any other bytes change nothing and are a
-- protocol violation. The answer to a ping is sendHeartbeat, with its error and what it does to the
-- state.
pub handle-IsHandled :
    (codec : Codec) (text : AddressText) (s : ℕ) (limit : ℤ) (beat : Outbound) (run : WriteRun)
    (bytes : List ℕ) (c : State)
    → c.is_maker ≡ false
    → let answer = send_heartbeat limit beat s run in
      let out = handle codec text s answer bytes c in
      ((r : Request) × Arrives codec bytes r × (out ≡ serve text s answer r c))
      ⊎ (((r : Request) → Arrives codec bytes r → ⊥) × IsRefused c out)
unfolding handle
handle-IsHandled codec text s limit beat run bytes c router =
    let answer = send_heartbeat limit beat s run in
    if-holds {A = Outcome} (IsHandled text s answer c (codec.router bytes)) c.is_maker
      (λ maker. absurd (ground arith))
      (λ same. decode-IsHandled text s answer c (codec.router bytes))
