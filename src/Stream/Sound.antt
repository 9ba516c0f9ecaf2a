-- ===== src/Stream/Sound.antt =====
-- What holds of a router's state between any two sections under `client.mu`.
use takapu_protocol_sdk.Prelude.{
  ℕ, ◌≤◌, ◌≡◌, refl, arith, Bool, true, false, List, [], Option, none, some, length, All,
}
use takapu_protocol_sdk.Wire.{PairFilter, AddressText}
use takapu_protocol_sdk.Stream.Types.{
  State, Status, FrameUpdate, Pending, connected, stopped, new_client,
}
use takapu_protocol_sdk.Stream.Subscription.{matches_locked}

-- A queued frame belongs to the current generation and revision, and an accepted filter selects it.
abbrev pub IsCurrentFrame : AddressText → Status → List PairFilter → FrameUpdate → Type 0
IsCurrentFrame text status accepted u =
    (u.generation ≡ status.generation)
    × (u.subscription_revision ≡ status.subscription_revision)
    × (matches_locked text u.key accepted ≡ true)

-- With no session there is no subscription; with one, the client is connected through it.
abbrev pub Linked : Option ℕ → State → Type 0
Linked none c = (c.frames ≡ []) × (c.ready ≡ false) × (c.accepted ≡ []) × (c.pending ≡ none)
Linked (some s) c =
    (c.serving ≡ some s)
    × ((c.sessions s).generation ≡ c.status.generation)
    × (c.is_stopped ≡ false)
    × (c.status.phase ≡ connected)

-- While a request awaits its acknowledgement no frame is delivered, and the request is the saved one.
abbrev pub Awaits : Option Pending → State → Type 0
Awaits none c = Unit {0}
Awaits (some p) c =
    (c.ready ≡ false)
    × (c.frames ≡ [])
    × (p.revision ≡ c.status.subscription_revision)
    × (c.current ≡ some p.session)
    × (c.saved ≡ some p.filters)

abbrev pub Halted : Bool → State → Type 0
Halted true c = (c.current ≡ none) × (c.status.phase ≡ stopped)
Halted false c = Unit {0}

pub record IsSound (text : AddressText) (c : State) : Type 0 where
  pub router : c.is_maker ≡ false
  pub linked : Linked c.current c
  pub awaits : Awaits c.pending c
  pub halted : Halted c.is_stopped c
  pub fresh : All (IsCurrentFrame text c.status c.accepted) c.frames
  pub frame_room : length c.frames ≤ c.frame_capacity
  pub event_room : length c.events ≤ c.event_capacity

pub new_client-IsSound :
    (text : AddressText) (events frames : ℕ) → IsSound text (new_client false events frames)
new_client-IsSound text events frames = record {
  router = refl;
  linked = (refl, refl, refl, refl);
  awaits = tt;
  halted = tt;
  fresh = tt;
  frame_room = omega arith;
  event_room = omega arith;
}
