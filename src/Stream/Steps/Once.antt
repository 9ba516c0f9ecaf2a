-- ===== src/Stream/Steps/Once.antt =====
-- The reply channels of internal/subscription.go, each with room for one value: a second send would
-- block with `client.mu` held.
use takapu_protocol_sdk.Prelude.{
  ℕ, ◌+◌, ◌≤◌, ◌<◌, ◌≡◌, ◌⊎◌, inl, refl, arith, Bool, true, not, ◌||◌, List, [], ◌∷◌, ◌++◌, Option,
  none, some, length, ltb, ◌==◌, if-holds,
}
use takapu_protocol_sdk.Decimal.Digits.{Text}
use takapu_protocol_sdk.Wire.{AddressText, PairFilter, PairKey, MarketFrame}
use takapu_protocol_sdk.Stream.Types.{
  State, StreamError, Event, Pending, ItemResult, Reply, refused, server_error, server_error_info,
  is_current, connection_changed,
}
use takapu_protocol_sdk.Stream.Client.{
  published, reconnecting_from, clear_locked, stop_locked, emit_locked, install, discard,
  end_session, lose_session, note_failure, cancel_session,
}
use takapu_protocol_sdk.Stream.Subscription.{
  start_subscription, begin_subscription, collect, accept, settle, ack_pending, ack, reject_pending,
  server_error_message, matches_locked, deliver, deliver_pair, update, key_of, send_reply,
  FilterResult,
}
use takapu_protocol_sdk.Stream.Steps.{
  Step, installs, discards, ends, notes, cancels, stops, expires, fails_dial, restores, begins,
  acknowledges, hears_error, updates, takes_event, takes_frame, Reach, start, then_step,
}

abbrev pub Replies : Type 0
Replies = List (ℕ × Reply)

-- Every reply is to a revision below `n`.
abbrev pub Below : ℕ → Replies → Type 0
Below n [] = Unit {0}
Below n (r ∷ rs) = (r.0 < n) × Below n rs

abbrev pub Above : ℕ → Replies → Type 0
Above n [] = Unit {0}
Above n (r ∷ rs) = (n < r.0) × Above n rs

-- The revisions of the replies rise strictly, so no two of them are equal.
abbrev pub Rising : Replies → Type 0
Rising [] = Unit {0}
Rising (r ∷ rs) = Above r.0 rs × Rising rs

-- A pending request has no reply yet.
abbrev pub Unanswered : Option Pending → State → Type 0
Unanswered none c = Below (c.status.subscription_revision + 1) c.replies
Unanswered (some p) c =
    Below c.status.subscription_revision c.replies × (p.revision ≡ c.status.subscription_revision)

pub record IsAnsweredOnce (c : State) : Type 0 where
  pub rising : Rising c.replies
  pub unanswered : Unanswered c.pending c

Below-weaken : (m n : ℕ) (rs : Replies) → m ≤ n → Below m rs → Below n rs
Below-weaken m n [] le h = tt
Below-weaken m n (r ∷ rs) le (lt, h) = (omega (arith, lt, le), Below-weaken m n rs le h)

Below-snoc : (n k : ℕ) (r : Reply) (rs : Replies) → k < n → Below n rs → Below n (rs ++ (k, r) ∷ [])
Below-snoc n k r [] lt h = (lt, tt)
Below-snoc n k r (q ∷ rs) lt (less, h) = (less, Below-snoc n k r rs lt h)

Above-snoc : (n k : ℕ) (r : Reply) (rs : Replies) → n < k → Above n rs → Above n (rs ++ (k, r) ∷ [])
Above-snoc n k r [] lt h = (lt, tt)
Above-snoc n k r (q ∷ rs) lt (less, h) = (less, Above-snoc n k r rs lt h)

Rising-snoc :
    (k : ℕ) (r : Reply) (rs : Replies) → Below k rs → Rising rs → Rising (rs ++ (k, r) ∷ [])
Rising-snoc k r [] below rising = (tt, tt)
Rising-snoc k r (q ∷ rs) (less, below) (above, rising) =
    (Above-snoc q.0 k r rs less above, Rising-snoc k r rs below rising)

-- Nothing is sent on a reply channel, and a pending request is kept or dropped.
abbrev Untouched : State → State → Type 0
Untouched c d =
    (d.replies ≡ c.replies)
    × (d.status.subscription_revision ≡ c.status.subscription_revision)
    × (d.pending ≡ c.pending ⊎ d.pending ≡ none)

Below-revision :
    (c : State) → IsAnsweredOnce c → Below (c.status.subscription_revision + 1) c.replies
Below-revision c h =
    elim c.pending as (λ p. Unanswered p c → Below (c.status.subscription_revision + 1) c.replies) [
      | none ↦ λ u. u
      | some p ↦ λ u. Below-weaken _ _ c.replies (omega arith) u.0
    ]
      h.unanswered

keeps_once : (c d : State) → Untouched c d → IsAnsweredOnce c → IsAnsweredOnce d
keeps_once c d untouched h = let below = Below-revision c h in ground arith

untouched : (c : State) → Untouched c c
untouched c = (refl, refl, inl refl)

stop_locked-Untouched : (e : Option StreamError) (c : State) → Untouched c (stop_locked e c)
unfolding stop_locked clear_locked
stop_locked-Untouched e c = ground arith

emit_locked-Untouched : (e : Event) (c : State) → Untouched c (emit_locked e c)
unfolding emit_locked stop_locked clear_locked
emit_locked-Untouched e c = ground arith

Untouched-trans : (c d e : State) → Untouched c d → Untouched d e → Untouched c e
Untouched-trans c d e h k = ground arith

published-Untouched : (s : ℕ) (c : State) → Untouched c (published s c)
published-Untouched s c = (refl, refl, inl refl)

install-Untouched : (s : ℕ) (c : State) → Untouched c (install s c).0
unfolding install
install-Untouched s c =
    if-holds {A = State × Bool} (λ p. Untouched c p.0) (c.is_stopped || c.canceled)
      (λ refused. untouched c)
      (λ allowed.
        let fresh = published s c in
        let told = connection_changed fresh.status in
        Untouched-trans c fresh (emit_locked told fresh) (published-Untouched s c)
          (emit_locked-Untouched told fresh))

lost-Untouched : (e : StreamError) (c : State) → Untouched c (reconnecting_from e c)
unfolding clear_locked
lost-Untouched e c = ground arith

lose_session-Untouched : (e : StreamError) (c : State) → Untouched c (lose_session e c)
unfolding lose_session
lose_session-Untouched e c =
    if-holds {A = State} (Untouched c) c.is_stopped (λ halted. ground arith)
      (λ running.
        let lost = reconnecting_from e c in
        let told = connection_changed lost.status in
        Untouched-trans c lost (emit_locked told lost) (lost-Untouched e c)
          (emit_locked-Untouched told lost))

discard-Untouched : (s : ℕ) (e : StreamError) (c : State) → Untouched c (discard s e c)
unfolding discard
discard-Untouched s e c =
    if-holds {A = State} (λ d. Untouched c (cancel_session s d)) (is_current c.current s)
      (λ now. lose_session-Untouched e (note_failure s (some e) c)) (λ other. untouched c)

-- The sections that send a reply or ask for one.
begin_subscription-IsAnsweredOnce :
    (s : ℕ) (filters : List PairFilter) (c : State)
    → IsAnsweredOnce c
    → IsAnsweredOnce (begin_subscription s filters c).0
unfolding begin_subscription start_subscription clear_locked
begin_subscription-IsAnsweredOnce s filters c h = let below = Below-revision c h in ground arith

replied-IsAnsweredOnce :
    (n : ℕ) (r : Reply) (c : State)
    → n ≡ c.status.subscription_revision
    → Below n c.replies
    → Rising c.replies
    → c.pending ≡ none
    → IsAnsweredOnce (send_reply n r c)
replied-IsAnsweredOnce n r c same below rising done =
    let longer =
      Below-snoc (c.status.subscription_revision + 1) n r c.replies (omega (arith, same)) (
        Below-weaken n (c.status.subscription_revision + 1) c.replies (omega (arith, same))
          below) in
    let risen = Rising-snoc n r c.replies below rising in ground arith

told-IsAnsweredOnce :
    (e : Event) (n : ℕ) (r : Reply) (c : State)
    → n ≡ c.status.subscription_revision
    → Below n c.replies
    → Rising c.replies
    → c.pending ≡ none
    → IsAnsweredOnce (send_reply n r (emit_locked e c))
told-IsAnsweredOnce e n r c same below rising done =
    let (replies, revision, pending) = emit_locked-Untouched e c in
    replied-IsAnsweredOnce n r (emit_locked e c) (ground arith) (ground arith) (ground arith)
      (ground arith)

accept-IsAnsweredOnce :
    (s : ℕ) (p : Pending) (items : List ItemResult) (accepted : List PairFilter) (c : State)
    → c.pending ≡ some p
    → IsAnsweredOnce c
    → IsAnsweredOnce (accept s p items accepted c)
unfolding accept
accept-IsAnsweredOnce s p items accepted c awaits h =
    told-IsAnsweredOnce _ p.revision _
      (record c { accepted = accepted; ready = true; pending = none }) (ground arith) (ground arith)
      h.rising refl

settle-IsAnsweredOnce :
    (s : ℕ) (p : Pending) (r : Option (List ItemResult × List PairFilter)) (c : State)
    → c.pending ≡ some p
    → IsAnsweredOnce c
    → IsAnsweredOnce (settle s p r c).0
unfolding settle
settle-IsAnsweredOnce s p none c awaits h = h
settle-IsAnsweredOnce s p (some (items, accepted)) c awaits h =
    accept-IsAnsweredOnce s p items accepted c awaits h

abbrev Answer : Type 0
Answer = State × Option StreamError

ack_pending-IsAnsweredOnce :
    (s : ℕ) (results : List (Option FilterResult)) (p : Option Pending) (c : State)
    → c.pending ≡ p
    → IsAnsweredOnce c
    → IsAnsweredOnce (ack_pending s results p c).0
unfolding ack_pending
ack_pending-IsAnsweredOnce s results none c awaits h = h
ack_pending-IsAnsweredOnce s results (some p) c awaits h =
    let settled = settle-IsAnsweredOnce s p (collect 0 p.filters results) c awaits h in
    if-holds {A = Answer} (λ r. IsAnsweredOnce r.0) (not (p.session == s)) (λ other. h)
      (λ own.
        if-holds {A = Answer} (λ r. IsAnsweredOnce r.0) (not (length results == length p.filters))
          (λ short. h) (λ full. settled))

ack-IsAnsweredOnce :
    (s : ℕ) (results : List (Option FilterResult)) (c : State)
    → IsAnsweredOnce c
    → IsAnsweredOnce (ack s results c).0
unfolding ack
ack-IsAnsweredOnce s results c h =
    if-holds {A = Answer} (λ r. IsAnsweredOnce r.0) (not (is_current c.current s) || c.is_stopped)
      (λ ignored. h) (λ heard. ack_pending-IsAnsweredOnce s results c.pending c refl h)

reject_pending-IsAnsweredOnce :
    (code message : Text) (p : Option Pending) (c : State)
    → c.pending ≡ p
    → IsAnsweredOnce c
    → IsAnsweredOnce (reject_pending code message p c).0
unfolding reject_pending
reject_pending-IsAnsweredOnce code message none c awaits h = h
reject_pending-IsAnsweredOnce code message (some p) c awaits h =
    keeps_once _ _ (emit_locked-Untouched _ _) (
      replied-IsAnsweredOnce p.revision (refused (server_error_info code message))
        (record c { pending = none }) (ground arith) (ground arith) h.rising refl)

server_error_message-IsAnsweredOnce :
    (s : ℕ) (too_large : Bool) (code message : Text) (c : State)
    → IsAnsweredOnce c
    → IsAnsweredOnce (server_error_message s too_large code message c).0
unfolding server_error_message
server_error_message-IsAnsweredOnce s too_large code message c h =
    if-holds {A = Answer} (λ r. IsAnsweredOnce r.0) (not (is_current c.current s) || c.is_stopped)
      (λ ignored. h)
      (λ heard.
        if-holds {A = Answer} (λ r. IsAnsweredOnce r.0) too_large
          (λ rejected. reject_pending-IsAnsweredOnce code message c.pending c refl h)
          (λ other. keeps_once c _ (emit_locked-Untouched (server_error code message) c) h))

deliver_pair-Untouched :
    (text : AddressText) (s : ℕ) (value : MarketFrame) (pair : Option PairKey) (c : State)
    → Untouched c (deliver_pair text s value pair c).0
unfolding deliver_pair deliver
deliver_pair-Untouched text s value none c = untouched c
deliver_pair-Untouched text s value (some pair) c =
    if-holds {A = Answer} (λ r. Untouched c r.0)
      (not (matches_locked text (key_of text pair value.maker_addr) c.accepted))
      (λ other. untouched c)
      (λ wanted.
        if-holds {A = Answer} (λ r. Untouched c r.0) (ltb (length c.frames) c.frame_capacity)
          (λ room. untouched c) (λ full. stop_locked-Untouched _ c))

update-Untouched :
    (text : AddressText) (s : ℕ) (value : MarketFrame) (c : State)
    → Untouched c (update text s value c).0
unfolding update
update-Untouched text s value c =
    if-holds {A = Answer} (λ r. Untouched c r.0)
      (not (is_current c.current s) || not c.ready || c.is_stopped) (λ ignored. untouched c)
      (λ heard. deliver_pair-Untouched text s value value.pair c)

Step-IsAnsweredOnce :
    (text : AddressText) (c d : State) → IsAnsweredOnce c → Step text c d → IsAnsweredOnce d
unfolding end_session
Step-IsAnsweredOnce text _ _ h (installs s c free) = keeps_once c _ (install-Untouched s c) h
Step-IsAnsweredOnce text _ _ h (discards s e c) = keeps_once c _ (discard-Untouched s e c) h
Step-IsAnsweredOnce text _ _ h (ends s e c serves) = keeps_once c _ (discard-Untouched s e c) h
Step-IsAnsweredOnce text _ _ h (notes s e c) = keeps_once c _ (untouched c) h
Step-IsAnsweredOnce text _ _ h (cancels s c) = keeps_once c _ (untouched c) h
Step-IsAnsweredOnce text _ _ h (stops e c) = keeps_once c _ (stop_locked-Untouched e c) h
Step-IsAnsweredOnce text _ _ h (expires c) = keeps_once c _ (untouched c) h
Step-IsAnsweredOnce text _ _ h (fails_dial e c) = keeps_once c _ (untouched c) h
Step-IsAnsweredOnce text _ _ h (restores b c) = keeps_once c _ (untouched c) h
Step-IsAnsweredOnce text _ _ h (begins s filters c) =
    begin_subscription-IsAnsweredOnce s filters c h
Step-IsAnsweredOnce text _ _ h (acknowledges s results c) = ack-IsAnsweredOnce s results c h
Step-IsAnsweredOnce text _ _ h (hears_error s l k m c) =
    server_error_message-IsAnsweredOnce s l k m c h
Step-IsAnsweredOnce text _ _ h (updates s value c) =
    keeps_once c _ (update-Untouched text s value c) h
Step-IsAnsweredOnce text _ _ h (takes_event e es c q) = keeps_once c _ (untouched c) h
Step-IsAnsweredOnce text _ _ h (takes_frame u us c q) = keeps_once c _ (untouched c) h

-- In every reachable state the replies sent so far are to strictly rising revisions, so that no
-- request gets a second reply, and a pending request, which has the current revision, has none yet:
-- its reply channel of one slot is empty, and the send under the lock cannot block.
pub Reach-IsAnsweredOnce :
    (text : AddressText) (events frames : ℕ) (c : State)
    → Reach text events frames c
    → IsAnsweredOnce c
Reach-IsAnsweredOnce text events frames _ start = record { rising = tt; unanswered = tt }
Reach-IsAnsweredOnce text events frames _ (then_step c d r s) =
    Step-IsAnsweredOnce text c d (Reach-IsAnsweredOnce text events frames c r) s
