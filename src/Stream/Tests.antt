-- ===== src/Stream/Tests.antt =====
-- A run of a router: a session, a subscription, its acknowledgement and an update.
use takapu_protocol_sdk.Prelude.{
  ◌⊎◌, ℕ, ◌*◌, ◌^◌, ◌≡◌, refl, arith, true, false, List, [], ◌∷◌, ◌++◌, replicate, Option, none,
  some, length, not, pos, ok,
}
use takapu_protocol_sdk.Decimal.Digits.{Text}
use takapu_protocol_sdk.Decimal.Print.{is_empty}
use takapu_protocol_sdk.Wire.{PairKey, PairFilter, MarketFrame, AddressText}
use takapu_protocol_sdk.Stream.Types.{
  State, ItemResult, new_client, other_error, manual_reconnect, protocol_violation, invalid_message,
}
use takapu_protocol_sdk.Stream.Client.{install, end_session, emit_locked}
use takapu_protocol_sdk.Stream.Subscription.{
  FilterResult, begin_subscription, start_subscription, ack, ack_pending, settle, collect, accept,
  update, deliver, deliver_pair, matches_locked, filter_matches,
}
use takapu_protocol_sdk.Stream.Subscription.Answers.{Reports, collect-Reports}
use takapu_protocol_sdk.Stream.Sound.{IsSound}
use takapu_protocol_sdk.Stream.Steps.{
  Reach, start, then_step, installs, begins, acknowledges, updates, Reach-IsSound,
}
use takapu_protocol_sdk.Stream.Steps.Later.{IsLater, Step-IsLater}
use takapu_protocol_sdk.Stream.Steps.Once.{IsAnsweredOnce, Reach-IsAnsweredOnce}
use takapu_protocol_sdk.Stream.Config.{
  ConnectionConfig, default_durations, default_capacities, normalize_connection,
}
use takapu_protocol_sdk.Stream.Config.Defaults.{IsUsable, normalize_connection-IsUsable}
use takapu_protocol_sdk.Stream.Envelope.{
  Message, message, bare, scalar, nested, has_unknown_fields, has_unknown_in, has_unknown_list,
  Envelope, update_payload, Codec, Outbound, decode, handle,
}
use takapu_protocol_sdk.Stream.Envelope.Requests.{Request, ping, Arrives}
use takapu_protocol_sdk.Stream.Envelope.Handled.{IsRefused, serve, handle-IsHandled}
use takapu_protocol_sdk.Stream.Reconnect.Terminal.{IsStopped, IsLost, handle-terminal}
use takapu_protocol_sdk.Stream.Reconnect.{terminal_error, Gaps, returns, after_session, retry}
use takapu_protocol_sdk.Stream.Reconnect.Backoff.{capped, failed, retry-doubles}
use takapu_protocol_sdk.Stream.Publish.{granted, WriteRun, send_heartbeat}

-- A reading of addresses for the runs: the number of the first byte.
abbrev first_byte : Text → ℕ
first_byte [] = 0
first_byte (c ∷ cs) = c

abbrev text : AddressText
text = record {
  is_hex_address = λ t. not (is_empty t);
  hex_to_address = first_byte;
  address_to_hex = λ a. a ∷ [];
}

abbrev key : PairKey
key = record { chain_id = 1; pair_id = 7; base_token = []; quote_token = [] }

abbrev any_maker : PairFilter
any_maker = record {
  pair = some key;
  maker = [];
  allow_pair_gray = false;
  allow_maker_gray = false;
}

abbrev one_maker : PairFilter
one_maker = record {
  pair = none;
  maker = 9 ∷ [];
  allow_pair_gray = false;
  allow_maker_gray = false;
}

abbrev filters : List PairFilter
filters = any_maker ∷ one_maker ∷ []

abbrev results : List (Option FilterResult)
results =
    some (record { is_ok = true; reason = [] })
    ∷ some (record { is_ok = false; reason = b'n' ∷ b'o' ∷ [] })
    ∷ []

abbrev frame : MarketFrame
frame = record {
  updated_at = 1_700_000_000;
  pair = some key;
  bids = [];
  asks = [];
  frame = none;
  signature = [];
  maker_addr = 5 ∷ [];
}

abbrev fresh : State
fresh = new_client false 4 2

abbrev connected_state : State
connected_state = (install 0 fresh).0

abbrev waiting : State
waiting = (begin_subscription 0 filters connected_state).0

abbrev subscribed : State
subscribed = (ack 0 results waiting).0

abbrev updated : State
updated = (update text 0 frame subscribed).0

run : Reach text 4 2 updated
run =
    then_step subscribed updated
      (then_step waiting subscribed
        (then_step connected_state waiting
          (then_step fresh connected_state start (installs 0 fresh refl))
          (begins 0 filters connected_state))
        (acknowledges 0 results waiting))
      (updates 0 frame subscribed)

-- The run delivers the frame.
one_frame : length updated.frames ≡ 1
unfolding update ack begin_subscription install emit_locked start_subscription ack_pending settle
    collect accept deliver_pair deliver matches_locked filter_matches
one_frame = refl

Reach-IsSound_example : IsSound text updated
Reach-IsSound_example = Reach-IsSound text 4 2 updated run

Reach-IsAnsweredOnce_example : IsAnsweredOnce updated
Reach-IsAnsweredOnce_example = Reach-IsAnsweredOnce text 4 2 updated run

Step-IsLater_example : IsLater connected_state waiting
Step-IsLater_example = Step-IsLater text connected_state waiting (begins 0 filters connected_state)

collect-Reports_example :
    (a : List ItemResult × List PairFilter) × (collect 0 filters results ≡ some a)
    × Reports 0 filters results a
collect-Reports_example = collect-Reports 0 filters results refl tt

-- Settings that leave everything to the defaults.
abbrev no_settings : ConnectionConfig
no_settings = record {
  url = [];
  api_key = [];
  handshake_timeout = pos 0;
  write_timeout = pos 0;
  heartbeat_interval = pos 0;
  read_idle_timeout = pos 0;
  event_buffer_size = pos 0;
  max_read_message_bytes = pos 0;
  max_write_message_bytes = pos 0;
  reconnect = record { policy = 0; initial_delay = pos 0; max_delay = pos 0; reset_after = pos 0 };
}

abbrev default_settings : ConnectionConfig
default_settings = record {
  url = [];
  api_key = [];
  handshake_timeout = pos 10_000_000_000;
  write_timeout = pos 5_000_000_000;
  heartbeat_interval = pos 10_000_000_000;
  read_idle_timeout = pos 30_000_000_000;
  event_buffer_size = pos 256;
  max_read_message_bytes = pos 524_288;
  max_write_message_bytes = pos 524_288;
  reconnect = record {
    policy = 0;
    initial_delay = pos 500_000_000;
    max_delay = pos 30_000_000_000;
    reset_after = pos 60_000_000_000;
  };
}

defaults : normalize_connection no_settings ≡ ok default_settings
unfolding normalize_connection default_durations default_capacities
defaults = refl

normalize_connection-IsUsable_example :
    IsUsable default_settings × (normalize_connection default_settings ≡ ok default_settings)
normalize_connection-IsUsable_example =
    normalize_connection-IsUsable no_settings default_settings defaults

-- A message with a scalar, and a nested message that holds an unknown byte.
abbrev odd_message : Message
odd_message = message [] (scalar (nested (message (1 ∷ []) bare) bare))

odd : has_unknown_fields odd_message ≡ true
unfolding has_unknown_fields has_unknown_in has_unknown_list
odd = refl

-- A codec that reads an update from one byte and nothing else.
abbrev read_router : List ℕ → Option (Envelope × Message)
read_router [] = none
read_router (b ∷ bs) = some (record { kind = 5; payload = update_payload frame }, message [] bare)

abbrev envelopes : Codec
envelopes = record { maker = λ bytes. none; router = read_router }

abbrev small : MarketFrame → Outbound
small value = record { size = 100; shown = message [] bare; bytes = ok (1 ∷ 2 ∷ []) }

-- A write that the network refuses.
abbrev refused_write : WriteRun
refused_write = record {
  queued = λ c. c;
  gate = granted;
  ended = none;
  meanwhile = λ c. c;
  network = some (other_error 7);
  ended_after = none;
}

handle-IsHandled_example :
    let answer = send_heartbeat (pos 1000) (small frame) 0 refused_write in
    let out = handle envelopes text 0 answer (1 ∷ []) fresh in
    ((r : Request) × Arrives envelopes (1 ∷ []) r × (out ≡ serve text 0 answer r fresh))
    ⊎ (((r : Request) → Arrives envelopes (1 ∷ []) r → ⊥) × IsRefused fresh out)
handle-IsHandled_example =
    handle-IsHandled envelopes text 0 (pos 1000) (small frame) refused_write (1 ∷ []) fresh refl

garbage :
    (handle envelopes text 0 (send_heartbeat (pos 1000) (small frame) 0 refused_write) [] fresh).1
    ≡ some (protocol_violation invalid_message)
unfolding handle decode
garbage = refl

no_ping : Arrives envelopes [] ping → ⊥
no_ping (e, shown, q, clean, asks) = cc q

abbrev quiet : Gaps
quiet = record { unlocked = λ c. c; checked = λ c. c; discarded = λ c. c }

handle-terminal_example :
    let e = protocol_violation invalid_message in
    let lost = end_session 0 e fresh in
    let out = after_session 0 0 manual_reconnect quiet e fresh in
    (out.1 ≡ returns) × IsStopped (some e) lost out.0 × IsLost 0 fresh lost
handle-terminal_example =
    handle-terminal envelopes text 0 (pos 1000) (small frame) refused_write [] fresh
      (protocol_violation invalid_message) 0 manual_reconnect quiet fresh refl no_ping garbage refl
      refl

network_is_not_terminal : terminal_error (other_error 7) ≡ false
unfolding terminal_error
network_is_not_terminal = refl

retry-doubles_example :
    retry 30_000 500 false (replicate 3 (failed (other_error 7)) ++ [])
    ≡ retry 30_000 (capped 30_000 (500 * 2 ^ 3)) false []
retry-doubles_example =
    retry-doubles 3 30_000 500 (other_error 7) [] (omega arith) network_is_not_terminal

abbrev connected_maker : State
connected_maker = (install 0 (new_client true 4 0)).0

abbrev signed_value : MarketFrame
signed_value = record frame { signature = replicate 64 1 ++ 27 ∷ [] }
