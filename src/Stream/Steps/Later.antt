-- ===== src/Stream/Steps/Later.antt =====
-- The direction of time in internal/client.go and internal/subscription.go: what no step undoes.
use takapu_protocol_sdk.Prelude.{
  ℕ, ◌≤◌, ◌≡◌, arith, Bool, true, false, not, ◌||◌, List, Option, none, some, length, ltb, ◌==◌,
  if-holds,
}
use takapu_protocol_sdk.Decimal.Digits.{Text}
use takapu_protocol_sdk.Wire.{AddressText, PairFilter, PairKey, MarketFrame}
use takapu_protocol_sdk.Stream.Types.{
  connection_changed, State, StreamError, Event, Pending, ItemResult, refused, server_error_info,
  is_current,
}
use takapu_protocol_sdk.Stream.Client.{
  published, reconnecting_from, clear_locked, stop_locked, emit_locked, install, discard,
  end_session, lose_session, note_failure, cancel_session,
}
use takapu_protocol_sdk.Stream.Subscription.{
  start_subscription, begin_subscription, collect, accept, settle, ack_pending, ack, reject_pending,
  server_error_message, matches_locked, deliver, deliver_pair, update, key_of, send_reply,
  FilterResult,
}
use takapu_protocol_sdk.Stream.Steps.{
  Step, installs, discards, ends, notes, cancels, stops, expires, fails_dial, restores, begins,
  acknowledges, hears_error, updates, takes_event, takes_frame,
}

-- A stopped client keeps its error, phase, generation and revision.
abbrev pub StaysHalted : Bool → State → State → Type 0
StaysHalted true c d =
    (d.is_stopped ≡ true)
    × (d.error ≡ c.error)
    × (d.status.phase ≡ c.status.phase)
    × (d.status.generation ≡ c.status.generation)
    × (d.status.subscription_revision ≡ c.status.subscription_revision)
StaysHalted false c d = Unit {0}

pub record IsLater (c d : State) : Type 0 where
  pub generation : c.status.generation ≤ d.status.generation
  pub revision : c.status.subscription_revision ≤ d.status.subscription_revision
  pub halted : StaysHalted c.is_stopped c d

IsLater-refl : (c : State) → IsLater c c
IsLater-refl c = ground arith

IsLater-trans : (c d e : State) → IsLater c d → IsLater d e → IsLater c e
IsLater-trans c d e h k = ground arith

stop_locked-IsLater : (e : Option StreamError) (c : State) → IsLater c (stop_locked e c)
unfolding stop_locked clear_locked
stop_locked-IsLater e c = ground arith

emit_locked-IsLater : (e : Event) (c : State) → IsLater c (emit_locked e c)
unfolding emit_locked stop_locked clear_locked
emit_locked-IsLater e c = ground arith

published-IsLater : (s : ℕ) (c : State) → c.is_stopped ≡ false → IsLater c (published s c)
published-IsLater s c running = ground arith

install-IsLater : (s : ℕ) (c : State) → IsLater c (install s c).0
unfolding install
install-IsLater s c =
    if-holds {A = State × Bool} (λ p. IsLater c p.0) (c.is_stopped || c.canceled)
      (λ refused. ground arith)
      (λ allowed.
        let fresh = published s c in
        let told = connection_changed fresh.status in
        IsLater-trans c fresh (emit_locked told fresh) (published-IsLater s c (ground arith))
          (emit_locked-IsLater told fresh))

lost-IsLater :
    (e : StreamError) (c : State) → c.is_stopped ≡ false → IsLater c (reconnecting_from e c)
unfolding clear_locked
lost-IsLater e c running = ground arith

lose_session-IsLater : (e : StreamError) (c : State) → IsLater c (lose_session e c)
unfolding lose_session
lose_session-IsLater e c =
    if-holds {A = State} (IsLater c) c.is_stopped (λ halted. ground arith)
      (λ running.
        let lost = reconnecting_from e c in
        let told = connection_changed lost.status in
        IsLater-trans c lost (emit_locked told lost) (lost-IsLater e c running)
          (emit_locked-IsLater told lost))

canceled-IsLater : (s : ℕ) (c d : State) → IsLater c d → IsLater c (cancel_session s d)
canceled-IsLater s c d h = ground arith

noted-IsLater :
    (s : ℕ) (e : Option StreamError) (c d : State) → IsLater (note_failure s e c) d → IsLater c d
noted-IsLater s e c d h = ground arith

discard-IsLater : (s : ℕ) (e : StreamError) (c : State) → IsLater c (discard s e c)
unfolding discard
discard-IsLater s e c =
    let noted : State = note_failure s (some e) c in
    noted-IsLater s (some e) c (discard s e c) (
      if-holds {A = State} (λ d. IsLater noted (cancel_session s d)) (is_current c.current s)
        (λ now. canceled-IsLater s noted (lose_session e noted) (lose_session-IsLater e noted))
        (λ other. canceled-IsLater s noted noted (IsLater-refl noted)))

begin_subscription-IsLater :
    (s : ℕ) (filters : List PairFilter) (c : State) → IsLater c (begin_subscription s filters c).0
unfolding begin_subscription start_subscription clear_locked
begin_subscription-IsLater s filters c = ground arith

abbrev Answer : Type 0
Answer = State × Option StreamError

accept-IsLater :
    (s : ℕ) (p : Pending) (items : List ItemResult) (accepted : List PairFilter) (c : State)
    → IsLater c (accept s p items accepted c)
unfolding accept emit_locked stop_locked clear_locked
accept-IsLater s p items accepted c = ground arith

settle-IsLater :
    (s : ℕ) (p : Pending) (r : Option (List ItemResult × List PairFilter)) (c : State)
    → IsLater c (settle s p r c).0
unfolding settle
settle-IsLater s p none c = IsLater-refl c
settle-IsLater s p (some (items, accepted)) c = accept-IsLater s p items accepted c

ack_pending-IsLater :
    (s : ℕ) (results : List (Option FilterResult)) (p : Option Pending) (c : State)
    → IsLater c (ack_pending s results p c).0
unfolding ack_pending
ack_pending-IsLater s results none c = IsLater-refl c
ack_pending-IsLater s results (some p) c =
    let settled = settle-IsLater s p (collect 0 p.filters results) c in
    let same = IsLater-refl c in
    if-holds {A = Answer} (λ r. IsLater c r.0) (not (p.session == s)) (λ other. same)
      (λ own.
        if-holds {A = Answer} (λ r. IsLater c r.0) (not (length results == length p.filters))
          (λ short. same) (λ full. settled))

ack-IsLater :
    (s : ℕ) (results : List (Option FilterResult)) (c : State) → IsLater c (ack s results c).0
unfolding ack
ack-IsLater s results c =
    if-holds {A = Answer} (λ r. IsLater c r.0) (not (is_current c.current s) || c.is_stopped)
      (λ ignored. IsLater-refl c) (λ heard. ack_pending-IsLater s results c.pending c)

abbrev answered : Text → Text → Pending → State → State
answered code message p c =
    send_reply p.revision (refused (server_error_info code message)) (record c { pending = none })

reject_pending-IsLater :
    (code message : Text) (p : Option Pending) (c : State)
    → IsLater c (reject_pending code message p c).0
unfolding reject_pending
reject_pending-IsLater code message none c = IsLater-refl c
reject_pending-IsLater code message (some p) c =
    IsLater-trans c (answered code message p c) _ (ground arith) (emit_locked-IsLater _ _)

server_error_message-IsLater :
    (s : ℕ) (too_large : Bool) (code message : Text) (c : State)
    → IsLater c (server_error_message s too_large code message c).0
unfolding server_error_message
server_error_message-IsLater s too_large code message c =
    if-holds {A = Answer} (λ r. IsLater c r.0) (not (is_current c.current s) || c.is_stopped)
      (λ ignored. IsLater-refl c)
      (λ heard.
        if-holds {A = Answer} (λ r. IsLater c r.0) too_large
          (λ rejected. reject_pending-IsLater code message c.pending c)
          (λ other. emit_locked-IsLater _ c))

deliver-IsLater :
    (text : AddressText) (s : ℕ) (pair : PairKey) (value : MarketFrame) (c : State)
    → IsLater c (deliver text s pair value c).0
unfolding deliver
deliver-IsLater text s pair value c =
    if-holds {A = Answer} (λ r. IsLater c r.0)
      (not (matches_locked text (key_of text pair value.maker_addr) c.accepted))
      (λ other. IsLater-refl c)
      (λ wanted.
        if-holds {A = Answer} (λ r. IsLater c r.0) (ltb (length c.frames) c.frame_capacity)
          (λ room. ground arith) (λ full. stop_locked-IsLater _ c))

deliver_pair-IsLater :
    (text : AddressText) (s : ℕ) (value : MarketFrame) (pair : Option PairKey) (c : State)
    → IsLater c (deliver_pair text s value pair c).0
unfolding deliver_pair
deliver_pair-IsLater text s value none c = IsLater-refl c
deliver_pair-IsLater text s value (some pair) c = deliver-IsLater text s pair value c

update-IsLater :
    (text : AddressText) (s : ℕ) (value : MarketFrame) (c : State)
    → IsLater c (update text s value c).0
unfolding update
update-IsLater text s value c =
    if-holds {A = Answer} (λ r. IsLater c r.0)
      (not (is_current c.current s) || not c.ready || c.is_stopped) (λ ignored. IsLater-refl c)
      (λ heard. deliver_pair-IsLater text s value value.pair c)

-- No step of a router takes its generation or its subscription revision back; and once it is
-- stopped, every step leaves it stopped with the same error, phase, generation and revision.
pub Step-IsLater : (text : AddressText) (c d : State) → Step text c d → IsLater c d
unfolding end_session
Step-IsLater text _ _ (installs s c free) = install-IsLater s c
Step-IsLater text _ _ (discards s e c) = discard-IsLater s e c
Step-IsLater text _ _ (ends s e c serves) =
    IsLater-trans c (discard s e c) _ (discard-IsLater s e c) (ground arith)
Step-IsLater text _ _ (notes s e c) = ground arith
Step-IsLater text _ _ (cancels s c) = ground arith
Step-IsLater text _ _ (stops e c) = stop_locked-IsLater e c
Step-IsLater text _ _ (expires c) = ground arith
Step-IsLater text _ _ (fails_dial e c) = ground arith
Step-IsLater text _ _ (restores b c) = ground arith
Step-IsLater text _ _ (begins s filters c) = begin_subscription-IsLater s filters c
Step-IsLater text _ _ (acknowledges s results c) = ack-IsLater s results c
Step-IsLater text _ _ (hears_error s l k m c) = server_error_message-IsLater s l k m c
Step-IsLater text _ _ (updates s value c) = update-IsLater text s value c
Step-IsLater text _ _ (takes_event e es c q) = ground arith
Step-IsLater text _ _ (takes_frame u us c q) = ground arith
