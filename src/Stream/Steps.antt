-- ===== src/Stream/Steps.antt =====
-- Every section of internal/ that changes a router under `client.mu`, as a step relation: any order
-- of steps is an interleaving of the goroutines of run, runSession, write, Subscribe and restore.
pub mod Later
pub mod Once
use takapu_protocol_sdk.Prelude.{
  ℕ, ◌+◌, ◌≤◌, ◌≡◌, refl, arith, Bool, true, false, List, [], ◌∷◌, Option, none, some, length, All,
  Result, ok,
}
use takapu_protocol_sdk.Decimal.Digits.{Text}
use takapu_protocol_sdk.Wire.{AddressText, PairFilter, MarketFrame}
use takapu_protocol_sdk.Stream.Types.{State, StreamError, Event, FrameUpdate, new_client}
use takapu_protocol_sdk.Stream.Client.{
  install, discard, end_session, stop_locked, note_failure, cancel_session,
}
use takapu_protocol_sdk.Stream.Client.Keeps.{
  install-IsSound, discard-IsSound, end_session-IsSound, stop_locked-IsSound, note_failure-IsSound,
  cancel_session-IsSound,
}
use takapu_protocol_sdk.Stream.Subscription.{
  begin_subscription, ack, server_error_message, update, FilterResult,
}
use takapu_protocol_sdk.Stream.Subscription.Keeps.{
  begin_subscription-IsSound, ack-IsSound, server_error_message-IsSound, update-IsSound,
}
use takapu_protocol_sdk.Stream.Sound.{
  IsSound, Linked, Awaits, Halted, IsCurrentFrame, new_client-IsSound,
}

pub data Step (text : AddressText) : State → State → Type 0 where
  -- `install` is called by NewRouter and by run, which serves no session then.
  installs : (s : ℕ) (c : State) → c.serving ≡ none → Step text c (install s c).0
  -- A failed write, heartbeat, subscription or restoration, or a manual reconnect.
  discards : (s : ℕ) (e : StreamError) (c : State) → Step text c (discard s e c)
  -- runSession has returned.
  ends :
      (s : ℕ) (e : StreamError) (c : State) → c.serving ≡ some s → Step text c (end_session s e c)
  notes : (s : ℕ) (e : Option StreamError) (c : State) → Step text c (note_failure s e c)
  cancels : (s : ℕ) (c : State) → Step text c (cancel_session s c)
  -- Close, or a terminal error of run.
  stops : (e : Option StreamError) (c : State) → Step text c (stop_locked e c)
  -- The end of the caller's context.
  expires : (c : State) → Step text c (record c { canceled = true })
  -- A failed dial.
  fails_dial :
      (e : StreamError) (c : State)
      → Step text c (record c { status = record c.status { last_error = some e } })
  restores : (b : Bool) (c : State) → Step text c (record c { restoring = b })
  begins :
      (s : ℕ) (filters : List PairFilter) (c : State)
      → Step text c (begin_subscription s filters c).0
  acknowledges :
      (s : ℕ) (results : List (Option FilterResult)) (c : State) → Step text c (ack s results c).0
  hears_error :
      (s : ℕ) (too_large : Bool) (code message : Text) (c : State)
      → Step text c (server_error_message s too_large code message c).0
  updates : (s : ℕ) (value : MarketFrame) (c : State) → Step text c (update text s value c).0
  -- The receivers of Events and of the frame channel.
  takes_event :
      (e : Event) (es : List Event) (c : State)
      → c.events ≡ e ∷ es
      → Step text c (record c { events = es })
  takes_frame :
      (u : FrameUpdate) (us : List FrameUpdate) (c : State)
      → c.frames ≡ u ∷ us
      → Step text c (record c { frames = us })

-- The states of a router with the given buffer sizes, from NewRouter on.
pub data Reach (text : AddressText) (events frames : ℕ) : State → Type 0 where
  start : Reach text events frames (new_client false events frames)
  then_step :
      (c d : State) → Reach text events frames c → Step text c d → Reach text events frames d

module _ (text : AddressText) where
  serving-current : (c : State) → c.serving ≡ none → IsSound text c → c.current ≡ none
  serving-current c free h = ground arith

  expires-IsSound : (c : State) → IsSound text c → IsSound text (record c { canceled = true })
  expires-IsSound c h = ground arith

  fails_dial-IsSound :
      (e : StreamError) (c : State)
      → IsSound text c
      → IsSound text (record c { status = record c.status { last_error = some e } })
  fails_dial-IsSound e c h = ground arith

  restores-IsSound :
      (b : Bool) (c : State) → IsSound text c → IsSound text (record c { restoring = b })
  restores-IsSound b c h = ground arith

  takes_event-IsSound :
      (e : Event) (es : List Event) (c : State)
      → c.events ≡ e ∷ es
      → IsSound text c
      → IsSound text (record c { events = es })
  takes_event-IsSound e es c q h = ground arith

  takes_frame-IsSound :
      (u : FrameUpdate) (us : List FrameUpdate) (c : State)
      → c.frames ≡ u ∷ us
      → IsSound text c
      → IsSound text (record c { frames = us })
  takes_frame-IsSound u us c q h = ground arith

  pub Step-IsSound : (c d : State) → IsSound text c → Step text c d → IsSound text d
  Step-IsSound _ _ h (installs s c free) = install-IsSound text s c (serving-current c free h) h
  Step-IsSound _ _ h (discards s e c) = discard-IsSound text s e c h
  Step-IsSound _ _ h (ends s e c serves) = end_session-IsSound text s e c serves h
  Step-IsSound _ _ h (notes s e c) = note_failure-IsSound text s e c h
  Step-IsSound _ _ h (cancels s c) = cancel_session-IsSound text s c h
  Step-IsSound _ _ h (stops e c) = stop_locked-IsSound text e c h
  Step-IsSound _ _ h (expires c) = expires-IsSound c h
  Step-IsSound _ _ h (fails_dial e c) = fails_dial-IsSound e c h
  Step-IsSound _ _ h (restores b c) = restores-IsSound b c h
  Step-IsSound _ _ h (begins s filters c) = begin_subscription-IsSound text s filters c h
  Step-IsSound _ _ h (acknowledges s results c) = ack-IsSound text s results c h
  Step-IsSound _ _ h (hears_error s l k m c) = server_error_message-IsSound text s l k m c h
  Step-IsSound _ _ h (updates s value c) = update-IsSound text s value c h
  Step-IsSound _ _ h (takes_event e es c q) = takes_event-IsSound e es c q h
  Step-IsSound _ _ h (takes_frame u us c q) = takes_frame-IsSound u us c q h

  -- In every state that a router can reach, whatever the interleaving of its goroutines: without a
  -- session there are no frames, accepted filters or pending request; with one, the client is
  -- connected, running and of that session's generation; while a request awaits its acknowledgement
  -- it is the saved one, of the current session and revision, and no frame is queued; every queued
  -- frame is of the current generation and revision and an accepted filter selects it; a stopped
  -- router has no session and the phase Stopped; and both buffers are within their capacity.
  pub Reach-IsSound : (events frames : ℕ) (c : State) → Reach text events frames c → IsSound text c
  Reach-IsSound events frames _ start = new_client-IsSound text events frames
  Reach-IsSound events frames _ (then_step c d r s) =
      Step-IsSound c d (Reach-IsSound events frames c r) s
