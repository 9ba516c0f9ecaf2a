-- ===== src/Stream/Envelope/Requests.antt =====
-- What the messages that a router of internal/wire.go reads can ask for.
use takapu_protocol_sdk.Prelude.{
  ◌∙◌, true, ℕ, ◌≡◌, arith, false, not, ◌&&◌, ◌==◌, List, Option, none, some,
}
use takapu_protocol_sdk.Decimal.Print.{is_empty}
use takapu_protocol_sdk.Wire.{MarketFrame, Heartbeat, ServerError}
use takapu_protocol_sdk.Stream.Subscription.{FilterResult}
use takapu_protocol_sdk.Stream.Envelope.{
  Payload, empty, heartbeat_payload, connection_ack_payload, frame_ack_payload,
  subscribe_ack_payload, update_payload, error_payload, Codec, Envelope, Message, get_heartbeat,
  get_subscribe_ack, get_update, get_error,
}
use mathlib.Core.Path.{ap}
use takapu_protocol_sdk.Stream.Envelope.Known.{IsKnown}

-- What a router's envelope can ask for.
pub data Request : Type 0 where
  ping pong : Request
  acknowledged : List (Option FilterResult) → Request
  updated : MarketFrame → Request
  failed : ServerError → Request

-- The envelopes that ask for it: the number of the type, the payload, and what must hold of it.
abbrev pub Asks : Request → Envelope → Type 0
Asks ping e = (e.kind ≡ 6) × (h : Heartbeat) × (e.payload ≡ heartbeat_payload h) × (h.ping ≡ true)
Asks pong e =
    (e.kind ≡ 6)
    × (h : Heartbeat) × (e.payload ≡ heartbeat_payload h)
    × (h.ping ≡ false)
    × (h.pong ≡ true)
Asks (acknowledged results) e = (e.kind ≡ 3) × (e.payload ≡ subscribe_ack_payload results)
Asks (updated value) e = (e.kind ≡ 5) × (e.payload ≡ update_payload value)
Asks (failed error) e =
    (e.kind ≡ 7) × (e.payload ≡ error_payload error) × (is_empty error.code ≡ false)

-- The bytes of an envelope that asks for it, without unknown fields at any depth.
abbrev pub Holds : Option (Envelope × Message) → Request → Type 0
Holds decoded r =
    (e : Envelope) × (shown : Message) × (decoded ≡ some (e, shown)) × IsKnown shown × Asks r e

abbrev pub Arrives : Codec → List ℕ → Request → Type 0
Arrives codec bytes r = Holds (codec.router bytes) r

pub get_heartbeat-eq :
    (p : Payload) (x : Heartbeat) → get_heartbeat p ≡ some x → p ≡ heartbeat_payload x
get_heartbeat-eq empty x h = cc
get_heartbeat-eq (heartbeat_payload y) x h = cc
get_heartbeat-eq (connection_ack_payload y) x h = cc
get_heartbeat-eq (frame_ack_payload y) x h = cc
get_heartbeat-eq (subscribe_ack_payload y) x h = cc
get_heartbeat-eq (update_payload y) x h = cc
get_heartbeat-eq (error_payload y) x h = cc

pub get_subscribe_ack-eq :
    (p : Payload) (x : List (Option FilterResult))
    → get_subscribe_ack p ≡ some x
    → p ≡ subscribe_ack_payload x
get_subscribe_ack-eq empty x h = cc
get_subscribe_ack-eq (heartbeat_payload y) x h = cc
get_subscribe_ack-eq (connection_ack_payload y) x h = cc
get_subscribe_ack-eq (frame_ack_payload y) x h = cc
get_subscribe_ack-eq (subscribe_ack_payload y) x h = cc
get_subscribe_ack-eq (update_payload y) x h = cc
get_subscribe_ack-eq (error_payload y) x h = cc

pub get_update-eq : (p : Payload) (x : MarketFrame) → get_update p ≡ some x → p ≡ update_payload x
get_update-eq empty x h = cc
get_update-eq (heartbeat_payload y) x h = cc
get_update-eq (connection_ack_payload y) x h = cc
get_update-eq (frame_ack_payload y) x h = cc
get_update-eq (subscribe_ack_payload y) x h = cc
get_update-eq (update_payload y) x h = cc
get_update-eq (error_payload y) x h = cc

pub get_error-eq : (p : Payload) (x : ServerError) → get_error p ≡ some x → p ≡ error_payload x
get_error-eq empty x h = cc
get_error-eq (heartbeat_payload y) x h = cc
get_error-eq (connection_ack_payload y) x h = cc
get_error-eq (frame_ack_payload y) x h = cc
get_error-eq (subscribe_ack_payload y) x h = cc
get_error-eq (update_payload y) x h = cc
get_error-eq (error_payload y) x h = cc

pub no_heartbeat :
    (e : Envelope) → e.kind ≡ 6 → get_heartbeat e.payload ≡ none → (r : Request) → Asks r e → ⊥
no_heartbeat e k n ping (k', h, p, b) = cc (n, ap get_heartbeat p)
no_heartbeat e k n pong (k', h, p, b, d) = cc (n, ap get_heartbeat p)
no_heartbeat e k n (acknowledged rs) (k', p) = omega arith
no_heartbeat e k n (updated v) (k', p) = omega arith
no_heartbeat e k n (failed x) (k', p, q) = omega arith

pub no_ack :
    (e : Envelope) → e.kind ≡ 3 → get_subscribe_ack e.payload ≡ none → (r : Request) → Asks r e → ⊥
no_ack e k n ping (k', h, p, b) = omega arith
no_ack e k n pong (k', h, p, b, d) = omega arith
no_ack e k n (acknowledged rs) (k', p) = cc (n, ap get_subscribe_ack p)
no_ack e k n (updated v) (k', p) = omega arith
no_ack e k n (failed x) (k', p, q) = omega arith

pub no_update :
    (e : Envelope) → e.kind ≡ 5 → get_update e.payload ≡ none → (r : Request) → Asks r e → ⊥
no_update e k n ping (k', h, p, b) = omega arith
no_update e k n pong (k', h, p, b, d) = omega arith
no_update e k n (acknowledged rs) (k', p) = omega arith
no_update e k n (updated v) (k', p) = cc (n, ap get_update p)
no_update e k n (failed x) (k', p, q) = omega arith

pub no_error :
    (e : Envelope) → e.kind ≡ 7 → get_error e.payload ≡ none → (r : Request) → Asks r e → ⊥
no_error e k n ping (k', h, p, b) = omega arith
no_error e k n pong (k', h, p, b, d) = omega arith
no_error e k n (acknowledged rs) (k', p) = omega arith
no_error e k n (updated v) (k', p) = omega arith
no_error e k n (failed x) (k', p, q) = cc (n, ap get_error p)

pub no_other :
    (e : Envelope)
    → (e.kind == 6) ≡ false
    → (e.kind == 3) ≡ false
    → (e.kind == 5) ≡ false
    → (e.kind == 7) ≡ false
    → (r : Request) → Asks r e
    → ⊥
no_other e a b d f ping (k, h, p, q) = ground arith
no_other e a b d f pong (k, h, p, q, l) = ground arith
no_other e a b d f (acknowledged rs) (k, p) = ground arith
no_other e a b d f (updated v) (k, p) = ground arith
no_other e a b d f (failed x) (k, p, q) = ground arith

pub not_beat :
    (e : Envelope) (h : Heartbeat)
    → e.kind ≡ 6
    → get_heartbeat e.payload ≡ some h
    → (not h.ping && not h.pong) ≡ true
    → (r : Request) → Asks r e
    → ⊥
not_beat e h k n idle ping (k', h', p, b) =
    let same : h ≡ h' = cc (n, ap get_heartbeat p) in
    let pings : h.ping ≡ true = ap (λ x. x.ping) same ∙ b in ground arith
not_beat e h k n idle pong (k', h', p, b, d) =
    let same : h ≡ h' = cc (n, ap get_heartbeat p) in
    let pongs : h.pong ≡ true = ap (λ x. x.pong) same ∙ d in ground arith
not_beat e h k n idle (acknowledged rs) (k', p) = omega arith
not_beat e h k n idle (updated v) (k', p) = omega arith
not_beat e h k n idle (failed x) (k', p, q) = omega arith

pub nameless :
    (e : Envelope) (x : ServerError)
    → e.kind ≡ 7
    → get_error e.payload ≡ some x
    → is_empty x.code ≡ true
    → (r : Request) → Asks r e
    → ⊥
nameless e x k n blank ping (k', h, p, b) = omega arith
nameless e x k n blank pong (k', h, p, b, d) = omega arith
nameless e x k n blank (acknowledged rs) (k', p) = omega arith
nameless e x k n blank (updated v) (k', p) = omega arith
nameless e x k n blank (failed y) (k', p, q) =
    let same : x ≡ y = cc (n, ap get_error p) in
    let named : is_empty x.code ≡ false = ap (λ z. is_empty z.code) same ∙ q in cc (named, blank)
