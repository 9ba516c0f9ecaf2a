-- ===== src/Stream/Envelope/Faults.antt =====
-- The errors that the sections of internal/subscription.go and internal/quote.go can report for a
-- message of a router.
use takapu_protocol_sdk.Prelude.{
  ℕ, ◌≡◌, ◌⊎◌, inl, inr, refl, Bool, not, ◌||◌, ltb, ◌==◌, List, length, Option, none, some,
  if-holds,
}
use takapu_protocol_sdk.Decimal.Digits.{Text}
use takapu_protocol_sdk.Wire.{PairKey, PairFilter, MarketFrame, AddressText}
use takapu_protocol_sdk.Stream.Types.{
  State, Fault, StreamError, Pending, ItemResult, protocol_violation, frame_buffer_full, is_current,
  missing_result, unsolicited_ack, result_count, unsolicited_rejection, missing_frame,
}
use takapu_protocol_sdk.Stream.Subscription.{
  FilterResult, ack, ack_pending, settle, server_error_message, reject_pending, update, deliver,
  deliver_pair, collect, matches_locked, key_of,
}
use takapu_protocol_sdk.Stream.Envelope.{Outcome}

-- What a section under the lock can report: nothing, a fault of the server, or a full buffer.
abbrev pub IsFault : Option StreamError → Type 0
IsFault e =
    (e ≡ none) ⊎ ((f : Fault) × (e ≡ some (protocol_violation f))) ⊎ (e ≡ some frame_buffer_full)

settle-IsFault :
    (s : ℕ) (p : Pending) (found : Option (List ItemResult × List PairFilter)) (c : State)
    → IsFault (settle s p found c).1
unfolding settle
settle-IsFault s p none c = inr (inl (missing_result, refl))
settle-IsFault s p (some (items, accepted)) c = inl refl

ack_pending-IsFault :
    (s : ℕ) (results : List (Option FilterResult)) (p : Option Pending) (c : State)
    → IsFault (ack_pending s results p c).1
unfolding ack_pending
ack_pending-IsFault s results none c = inr (inl (unsolicited_ack, refl))
ack_pending-IsFault s results (some p) c =
    if-holds {A = Outcome} (λ r. IsFault r.1) (not (p.session == s))
      (λ other. inr (inl (unsolicited_ack, refl)))
      (λ same.
        if-holds {A = Outcome} (λ r. IsFault r.1) (not (length results == length p.filters))
          (λ counts. inr (inl (result_count, refl)))
          (λ equal. settle-IsFault s p (collect 0 p.filters results) c))

pub ack-IsFault :
    (s : ℕ) (results : List (Option FilterResult)) (c : State) → IsFault (ack s results c).1
unfolding ack
ack-IsFault s results c =
    if-holds {A = Outcome} (λ r. IsFault r.1) (not (is_current c.current s) || c.is_stopped)
      (λ stale. inl refl) (λ fresh. ack_pending-IsFault s results c.pending c)

reject_pending-IsFault :
    (code words : Text) (p : Option Pending) (c : State) → IsFault (reject_pending code words p c).1
unfolding reject_pending
reject_pending-IsFault code words none c = inr (inl (unsolicited_rejection, refl))
reject_pending-IsFault code words (some p) c = inl refl

pub server_error_message-IsFault :
    (s : ℕ) (too_large : Bool) (code words : Text) (c : State)
    → IsFault (server_error_message s too_large code words c).1
unfolding server_error_message
server_error_message-IsFault s too_large code words c =
    if-holds {A = Outcome} (λ r. IsFault r.1) (not (is_current c.current s) || c.is_stopped)
      (λ stale. inl refl)
      (λ fresh.
        if-holds {A = Outcome} (λ r. IsFault r.1) too_large
          (λ large. reject_pending-IsFault code words c.pending c) (λ small. inl refl))

deliver-IsFault :
    (text : AddressText) (s : ℕ) (pair : PairKey) (value : MarketFrame) (c : State)
    → IsFault (deliver text s pair value c).1
unfolding deliver
deliver-IsFault text s pair value c =
    if-holds {A = Outcome} (λ r. IsFault r.1)
      (not (matches_locked text (key_of text pair value.maker_addr) c.accepted))
      (λ unselected. inl refl)
      (λ selected.
        if-holds {A = Outcome} (λ r. IsFault r.1) (ltb (length c.frames) c.frame_capacity)
          (λ room. inl refl) (λ full. inr (inr refl)))

deliver_pair-IsFault :
    (text : AddressText) (s : ℕ) (value : MarketFrame) (pair : Option PairKey) (c : State)
    → IsFault (deliver_pair text s value pair c).1
unfolding deliver_pair
deliver_pair-IsFault text s value none c = inr (inl (missing_frame, refl))
deliver_pair-IsFault text s value (some pair) c = deliver-IsFault text s pair value c

pub update-IsFault :
    (text : AddressText) (s : ℕ) (value : MarketFrame) (c : State)
    → IsFault (update text s value c).1
unfolding update
update-IsFault text s value c =
    if-holds {A = Outcome} (λ r. IsFault r.1)
      (not (is_current c.current s) || not c.ready || c.is_stopped) (λ stale. inl refl)
      (λ fresh. deliver_pair-IsFault text s value value.pair c)
