-- ===== src/Stream/Subscription/Keeps.antt =====
-- The sections of internal/subscription.go and internal/quote.go keep a router sound.
use takapu_protocol_sdk.Prelude.{
  ℕ, ◌≡◌, refl, arith, Bool, true, false, not, List, [], ◌∷◌, ◌++◌, Option, none, some, length,
  length-append, All, if-holds, ◌||◌, ◌==◌, ltb,
}
use takapu_protocol_sdk.Decimal.Digits.{Text}
use takapu_protocol_sdk.Wire.{AddressText, PairFilter, MarketFrame, PairKey}
use takapu_protocol_sdk.Stream.Types.{
  State, StreamError, Reply, Pending, ItemResult, FrameUpdate, is_current, frame_buffer_full,
  server_error, server_error_info, refused,
}
use takapu_protocol_sdk.Stream.Client.{clear_locked}
use takapu_protocol_sdk.Stream.Client.Keeps.{stop_locked-IsSound, emit_locked-IsSound}
use takapu_protocol_sdk.Stream.Subscription.{
  start_subscription, begin_subscription, cannot_write, collect, accept, ack_pending, ack,
  send_reply, reject_pending, settle, deliver_pair, server_error_message, matches_locked, deliver,
  update, key_of, FilterResult,
}
use takapu_protocol_sdk.Stream.Sound.{IsSound, IsCurrentFrame}

All-snoc {ℓ κ} :
    {A : Type ℓ} (P : A → Type κ) (xs : List A) (x : A) → All P xs → P x → All P (xs ++ x ∷ [])
All-snoc P [] x h p = (p, tt)
All-snoc P (y ∷ ys) x (q, h) p = (q, All-snoc P ys x h p)

abbrev Step : Type 0
Step = State × Option StreamError

module _ (text : AddressText) where
  start_subscription-IsSound :
      (s : ℕ) (filters : List PairFilter) (c : State)
      → cannot_write s c ≡ false
      → IsSound text c
      → IsSound text (start_subscription s filters c)
  unfolding start_subscription clear_locked
  start_subscription-IsSound s filters c writable h = ground arith

  pub begin_subscription-IsSound :
      (s : ℕ) (filters : List PairFilter) (c : State)
      → IsSound text c
      → IsSound text (begin_subscription s filters c).0
  unfolding begin_subscription
  begin_subscription-IsSound s filters c h =
      if-holds {A = Step} (λ p. IsSound text p.0) (cannot_write s c) (λ shut. h)
        (λ writable. start_subscription-IsSound s filters c writable h)

  send_reply-IsSound :
      (revision : ℕ) (r : Reply) (c : State)
      → IsSound text c
      → IsSound text (send_reply revision r c)
  send_reply-IsSound revision r c h = ground arith

  abbrev opened : List PairFilter → State → State
  opened accepted c = record c { accepted = accepted; ready = true; pending = none }

  opened-IsSound :
      (p : Pending) (accepted : List PairFilter) (c : State)
      → c.pending ≡ some p
      → IsSound text c
      → IsSound text (opened accepted c)
  opened-IsSound p accepted c awaiting h = ground arith

  accept-IsSound :
      (s : ℕ) (p : Pending) (items : List ItemResult) (accepted : List PairFilter) (c : State)
      → c.pending ≡ some p
      → IsSound text c
      → IsSound text (accept s p items accepted c)
  unfolding accept
  accept-IsSound s p items accepted c awaiting h =
      send_reply-IsSound _ _ _
        (emit_locked-IsSound text _ _ (opened-IsSound p accepted c awaiting h))

  settle-IsSound :
      (s : ℕ) (p : Pending) (r : Option (List ItemResult × List PairFilter)) (c : State)
      → c.pending ≡ some p
      → IsSound text c
      → IsSound text (settle s p r c).0
  unfolding settle
  settle-IsSound s p none c awaiting h = h
  settle-IsSound s p (some (items, accepted)) c awaiting h =
      accept-IsSound s p items accepted c awaiting h

  ack_pending-IsSound :
      (s : ℕ) (results : List (Option FilterResult)) (p : Option Pending) (c : State)
      → c.pending ≡ p
      → IsSound text c
      → IsSound text (ack_pending s results p c).0
  unfolding ack_pending
  ack_pending-IsSound s results none c awaiting h = h
  ack_pending-IsSound s results (some p) c awaiting h =
      if-holds {A = Step} (λ r. IsSound text r.0) (not (p.session == s)) (λ other. h)
        (λ own.
          if-holds {A = Step} (λ r. IsSound text r.0) (not (length results == length p.filters))
            (λ short. h) (λ full. settle-IsSound s p (collect 0 p.filters results) c awaiting h))

  pub ack-IsSound :
      (s : ℕ) (results : List (Option FilterResult)) (c : State)
      → IsSound text c
      → IsSound text (ack s results c).0
  unfolding ack
  ack-IsSound s results c h =
      if-holds {A = Step} (λ r. IsSound text r.0) (not (is_current c.current s) || c.is_stopped)
        (λ ignored. h) (λ heard. ack_pending-IsSound s results c.pending c refl h)

  unpended-IsSound : (c : State) → IsSound text c → IsSound text (record c { pending = none })
  unpended-IsSound c h = ground arith

  reject_pending-IsSound :
      (code message : Text) (p : Option Pending) (c : State)
      → IsSound text c
      → IsSound text (reject_pending code message p c).0
  unfolding reject_pending
  reject_pending-IsSound code message none c h = h
  reject_pending-IsSound code message (some p) c h =
      emit_locked-IsSound text (server_error code message) _ (
        send_reply-IsSound p.revision (refused (server_error_info code message)) _
          (unpended-IsSound c h))

  pub server_error_message-IsSound :
      (s : ℕ) (too_large : Bool) (code message : Text) (c : State)
      → IsSound text c
      → IsSound text (server_error_message s too_large code message c).0
  unfolding server_error_message
  server_error_message-IsSound s too_large code message c h =
      if-holds {A = Step} (λ r. IsSound text r.0) (not (is_current c.current s) || c.is_stopped)
        (λ ignored. h)
        (λ heard.
          if-holds {A = Step} (λ r. IsSound text r.0) too_large
            (λ rejected. reject_pending-IsSound code message c.pending c h)
            (λ other. emit_locked-IsSound text (server_error code message) c h))

  -- A current session has the client's generation.
  current_generation :
      (s : ℕ) (c : State)
      → c.current ≡ some s
      → IsSound text c
      → (c.sessions s).generation ≡ c.status.generation
  current_generation s c now h = ground arith

  delivered-IsSound :
      (u : FrameUpdate) (c : State)
      → IsCurrentFrame text c.status c.accepted u
      → ltb (length c.frames) c.frame_capacity ≡ true
      → c.ready ≡ true
      → IsSound text c
      → IsSound text (record c { frames = c.frames ++ u ∷ [] })
  delivered-IsSound u c current room ready h =
      let longer = length-append c.frames (u ∷ []) in
      let kept = All-snoc (IsCurrentFrame text c.status c.accepted) c.frames u h.fresh current in
      ground arith

  deliver-IsSound :
      (s : ℕ) (pair : PairKey) (value : MarketFrame) (c : State)
      → c.current ≡ some s
      → c.ready ≡ true
      → IsSound text c
      → IsSound text (deliver text s pair value c).0
  unfolding deliver
  deliver-IsSound s pair value c now ready h =
      if-holds {A = Step} (λ r. IsSound text r.0)
        (not (matches_locked text (key_of text pair value.maker_addr) c.accepted)) (λ other. h)
        (λ wanted.
          if-holds {A = Step} (λ r. IsSound text r.0) (ltb (length c.frames) c.frame_capacity)
            (λ room.
              delivered-IsSound _ c (current_generation s c now h, refl, ground arith) room ready h)
            (λ full. stop_locked-IsSound text (some frame_buffer_full) c h))

  deliver_pair-IsSound :
      (s : ℕ) (value : MarketFrame) (pair : Option PairKey) (c : State)
      → c.current ≡ some s
      → c.ready ≡ true
      → IsSound text c
      → IsSound text (deliver_pair text s value pair c).0
  unfolding deliver_pair
  deliver_pair-IsSound s value none c now ready h = h
  deliver_pair-IsSound s value (some pair) c now ready h =
      deliver-IsSound s pair value c now ready h

  pub update-IsSound :
      (s : ℕ) (value : MarketFrame) (c : State)
      → IsSound text c
      → IsSound text (update text s value c).0
  unfolding update
  update-IsSound s value c h =
      if-holds {A = Step} (λ r. IsSound text r.0)
        (not (is_current c.current s) || not c.ready || c.is_stopped) (λ ignored. h)
        (λ heard. deliver_pair-IsSound s value value.pair c (ground arith) (ground arith) h)
