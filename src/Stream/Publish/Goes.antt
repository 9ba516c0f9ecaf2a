-- ===== src/Stream/Publish/Goes.antt =====
-- When a Publish of internal/maker.go puts its frame on the network.
use takapu_protocol_sdk.Prelude.{ℕ, ◌≡◌, ◌⊎◌, none, some}
use takapu_protocol_sdk.Stream.Types.{State, StreamError}
use takapu_protocol_sdk.Stream.Client.{discard}
use takapu_protocol_sdk.Stream.Publish.{
  WriteRun, Written, write_error, finish_write, unknown, stream_error, Published,
}

-- What a write that goes out leaves behind.
abbrev sent_by : ℕ → WriteRun → State → Written
sent_by s run d = finish_write s (write_error run) (run.meanwhile d)

-- The outcome of a write that goes out.
abbrev pub IsGone : ℕ → WriteRun → State → Published → Type 0
IsGone s run d p =
    ((write_error run ≡ none) × (p.error ≡ none) × (p.state ≡ run.meanwhile d))
    ⊎ ((e : StreamError) × (write_error run ≡ some e)
        × (p.error ≡ some (unknown, stream_error e))
        × (p.state ≡ discard s e (run.meanwhile d)))
