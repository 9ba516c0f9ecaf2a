-- ===== src/Stream/Publish/Delivered.antt =====
-- What the outcome of a Publish of internal/maker.go says.
use takapu_protocol_sdk.Prelude.{ℕ, ◌≡◌, ◌⊎◌, true, false, List, length, Option, none, some, ℤ, ok}
use takapu_protocol_sdk.Frame.Words.{byte_at}
use takapu_protocol_sdk.Wire.{MarketFrame}
use takapu_protocol_sdk.Stream.Types.{State, StreamError}
use takapu_protocol_sdk.Stream.Client.{discard}
use takapu_protocol_sdk.Stream.Envelope.{Outbound, marshal}
use takapu_protocol_sdk.Stream.Publish.{
  granted, WriteRun, Written, not_sent, unknown, PublishError, stream_error, Published,
}

-- A session through which a message may go: the current one of a client that runs, not canceled.
abbrev pub IsOpen : ℕ → State → Type 0
IsOpen s c =
    (c.is_stopped ≡ false)
    × (c.current ≡ some s)
    × ((c.sessions s).canceled ≡ false)
    × (c.canceled ≡ false)

-- What has become of a message that went out from the state `d`: the others have gone on, and without
-- the session if it failed.
abbrev pub IsSent : ℕ → WriteRun → State → Written → Type 0
IsSent s run d w =
    (w.started ≡ true)
    × (run.gate ≡ granted)
    × (run.ended ≡ none)
    × IsOpen s d
    × (((w.error ≡ none) × (w.state ≡ run.meanwhile d))
        ⊎ ((e : StreamError) × (w.error ≡ some e) × (w.state ≡ discard s e (run.meanwhile d))))

-- A write that has not started has an error and changes nothing.
abbrev pub IsUnsent : State → Written → Type 0
IsUnsent d w = (w.started ≡ false) × (w.state ≡ d) × ((e : StreamError) × (w.error ≡ some e))

-- The outcomes of a write in the state `c`.
abbrev pub IsWrite : ℕ → WriteRun → State → Written → Type 0
IsWrite s run c w = IsUnsent c w ⊎ (IsUnsent (run.queued c) w ⊎ IsSent s run (run.queued c) w)

-- A frame that Publish may put on the network.
pub record IsPublishable (envelope : MarketFrame → Outbound) (limit : ℤ)
    (value : Option MarketFrame) (c : State) (s : ℕ) : Type 0 where
  pub frame : MarketFrame
  pub given : value ≡ some frame
  pub bytes : length frame.signature ≡ 65
  pub recovery : (byte_at frame.signature 64 ≡ 27) ⊎ (byte_at frame.signature 64 ≡ 28)
  pub marshaled : (out : List ℕ) × (marshal limit (envelope frame) ≡ ok out)
  pub running : c.is_stopped ≡ false
  pub session : c.current ≡ some s

-- Not sent: Publish leaves the state as it was, or as the others have left it at the gate.
abbrev pub IsNotSent : WriteRun → State → Published → Type 0
IsNotSent run c p =
    ((p.state ≡ c) ⊎ (p.state ≡ run.queued c))
    × ((e : PublishError) × (p.error ≡ some (not_sent, e)))

-- Attempted: from the state that the others have left at the gate, through its open session, which is
-- the one that Publish saw; the outcome is unknown if it failed, which loses the session.
abbrev pub IsAttempted :
    (MarketFrame → Outbound) → ℤ → WriteRun → Option MarketFrame → State → Published → Type 0
IsAttempted envelope limit run value c p =
    (s : ℕ) × IsPublishable envelope limit value c s
    × (run.gate ≡ granted)
    × (run.ended ≡ none)
    × IsOpen s (run.queued c)
    × (((p.error ≡ none) × (p.state ≡ run.meanwhile (run.queued c)))
        ⊎ ((e : StreamError) × (p.error ≡ some (unknown, stream_error e))
            × (p.state ≡ discard s e (run.meanwhile (run.queued c)))))

abbrev pub IsPublished :
    (MarketFrame → Outbound) → ℤ → WriteRun → Option MarketFrame → State → Published → Type 0
IsPublished envelope limit run value c p =
    IsNotSent run c p ⊎ IsAttempted envelope limit run value c p

module _ (envelope : MarketFrame → Outbound) (limit : ℤ) (run : WriteRun) (c : State) where
  -- A signature in the form of the wire.
  abbrev IsSigned : MarketFrame → Type 0
  IsSigned frame =
      (length frame.signature ≡ 65)
      × ((byte_at frame.signature 64 ≡ 27) ⊎ (byte_at frame.signature 64 ≡ 28))
