-- ===== src/Stream/Config.antt =====
-- internal/config.go: the settings of a client and their defaults. A time.Duration is an integer of
-- nanoseconds.
pub mod Defaults
use takapu_protocol_sdk.Prelude.{
  ℕ, ◌*◌, Bool, true, false, not, ◌||◌, ltb, leb, ◌==◌, if◌then◌else◌, ℤ, pos, negsuc, List, [],
  ◌∷◌, Result, ok, err, fail_if, ◌>>=◌, ◌>>◌, ◌++◌,
}
use takapu_protocol_sdk.Decimal.Digits.{Text}
use takapu_protocol_sdk.Decimal.Print.{is_empty}

pub data ConfigError : Type 0 where
  negative_duration heartbeat_or_reconnect negative_capacity negative_router : ConfigError

-- `ReconnectPolicy`, a uint8: 0 is Enabled and 1 is Disabled.
abbrev pub disabled : ℕ
disabled = 1

pub record ReconnectConfig : Type 0 where
  pub policy : ℕ
  pub initial_delay : ℤ
  pub max_delay : ℤ
  pub reset_after : ℤ

pub record ConnectionConfig : Type 0 where
  pub url : Text
  pub api_key : Text
  pub handshake_timeout : ℤ
  pub write_timeout : ℤ
  pub heartbeat_interval : ℤ
  pub read_idle_timeout : ℤ
  pub event_buffer_size : ℤ
  pub max_read_message_bytes : ℤ
  pub max_write_message_bytes : ℤ
  pub reconnect : ReconnectConfig

-- `ListingConfig`; a shared HTTP client is a number, and 0 is nil.
pub record ListingConfig : Type 0 where
  pub base_url : Text
  pub http_client : ℕ
  pub timeout : ℤ

pub record MakerConfig : Type 0 where
  pub connection : ConnectionConfig
  pub listing : ListingConfig

pub record RouterConfig : Type 0 where
  pub connection : ConnectionConfig
  pub listing : ListingConfig
  pub subscribe_timeout : ℤ
  pub max_subscribe_filters : ℤ
  pub frame_buffer_size : ℤ

abbrev pub second : ℕ
second = 1_000_000_000

abbrev pub millisecond : ℕ
millisecond = 1_000_000

abbrev pub is_negative : ℤ → Bool
is_negative (pos n) = false
is_negative (negsuc n) = true

-- `a < b`
abbrev pub less : ℤ → ℤ → Bool
less (pos a) (pos b) = ltb a b
less (pos a) (negsuc b) = false
less (negsuc a) (pos b) = true
less (negsuc a) (negsuc b) = ltb b a

-- `if v == 0 { v = d }`
abbrev pub or_default : ℤ → ℕ → ℤ
or_default (pos n) d = if n == 0 then pos d else pos n
or_default (negsuc n) d = negsuc n

-- One turn of the loop over the durations.
abbrev pub duration : ℤ → ℕ → Result ConfigError ℤ
duration v d = do fail_if (is_negative v) negative_duration; ok (or_default v d)

-- The loop over the durations, on the seven destinations in their order.
unfoldable pub default_durations : ConnectionConfig → Result ConfigError ConnectionConfig
default_durations cfg = do
  handshake ← duration cfg.handshake_timeout (10 * second)
  write ← duration cfg.write_timeout (5 * second)
  heartbeat ← duration cfg.heartbeat_interval (10 * second)
  idle ← duration cfg.read_idle_timeout (30 * second)
  initial ← duration cfg.reconnect.initial_delay (500 * millisecond)
  longest ← duration cfg.reconnect.max_delay (30 * second)
  reset ← duration cfg.reconnect.reset_after (60 * second)
  ok (record cfg {
    handshake_timeout = handshake;
    write_timeout = write;
    heartbeat_interval = heartbeat;
    read_idle_timeout = idle;
    reconnect = record cfg.reconnect {
      initial_delay = initial;
      max_delay = longest;
      reset_after = reset;
    };
  })

abbrev pub bad_reconnect : ConnectionConfig → Bool
bad_reconnect cfg =
    not (less cfg.heartbeat_interval cfg.read_idle_timeout)
    || less cfg.reconnect.max_delay cfg.reconnect.initial_delay
    || ltb disabled cfg.reconnect.policy

-- The checks behind the loop, and the defaults of the capacities.
unfoldable pub default_capacities : ConnectionConfig → Result ConfigError ConnectionConfig
default_capacities cfg = do
  fail_if (bad_reconnect cfg) heartbeat_or_reconnect
  fail_if
      (is_negative cfg.event_buffer_size
        || is_negative cfg.max_read_message_bytes
        || is_negative cfg.max_write_message_bytes)
      negative_capacity
  ok (record cfg {
    event_buffer_size = or_default cfg.event_buffer_size 256;
    max_read_message_bytes = or_default cfg.max_read_message_bytes (512 * 1024);
    max_write_message_bytes = or_default cfg.max_write_message_bytes (512 * 1024);
  })

-- `normalizeConnection`
unfoldable pub normalize_connection : ConnectionConfig → Result ConfigError ConnectionConfig
normalize_connection cfg = do timed ← default_durations cfg; default_capacities timed

-- `DefaultMakerURL` and `DefaultRouterURL`
abbrev pub host : Text
host =
    b'w' ∷ b's' ∷ b's' ∷ b':' ∷ b'/' ∷ b'/' ∷ b'a' ∷ b'p' ∷ b'i' ∷ b'.' ∷ b't' ∷ b'a' ∷ b'k' ∷ b'a'
    ∷ b'p' ∷ b'u' ∷ b'.' ∷ b'o' ∷ b'r' ∷ b'g' ∷ b'/' ∷ b'm' ∷ b'a' ∷ b'r' ∷ b'k' ∷ b'e' ∷ b't'
    ∷ b's' ∷ b't' ∷ b'r' ∷ b'e' ∷ b'a' ∷ b'm' ∷ b'/' ∷ []

abbrev pub default_maker_url : Text
default_maker_url = host ++ b'm' ∷ b'a' ∷ b'k' ∷ b'e' ∷ b'r' ∷ []

abbrev pub default_router_url : Text
default_router_url = host ++ b'r' ∷ b'o' ∷ b'u' ∷ b't' ∷ b'e' ∷ b'r' ∷ []

abbrev pub with_url : Text → ConnectionConfig → ConnectionConfig
with_url url cfg = if is_empty cfg.url then record cfg { url = url } else cfg

-- `normalizeMaker`
unfoldable pub normalize_maker : MakerConfig → Result ConfigError MakerConfig
normalize_maker cfg = do
  connection ← normalize_connection (with_url default_maker_url cfg.connection)
  ok (record cfg { connection = connection })

-- `normalizeRouter`
unfoldable pub normalize_router : RouterConfig → Result ConfigError RouterConfig
normalize_router cfg = do
  connection ← normalize_connection (with_url default_router_url cfg.connection)
  fail_if
      (is_negative cfg.subscribe_timeout
        || is_negative cfg.max_subscribe_filters
        || is_negative cfg.frame_buffer_size)
      negative_router
  ok (record cfg {
    connection = connection;
    subscribe_timeout = or_default cfg.subscribe_timeout (10 * second);
    max_subscribe_filters = or_default cfg.max_subscribe_filters 100;
    frame_buffer_size = or_default cfg.frame_buffer_size 256;
  })
