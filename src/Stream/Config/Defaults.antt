-- ===== src/Stream/Config/Defaults.antt =====
-- The settings that internal/config.go lets through.
use takapu_protocol_sdk.Prelude.{
  ℕ, zero, suc, ◌*◌, ◌≤◌, ◌<◌, ◌≡◌, refl, sym, arith, Bool, true, false, ◌||◌, ltb, ℤ, pos, negsuc,
  ok, fail_if, fail_if-eq-ok, >>=-eq-ok, ok-injective_eq, ||-eq-false, not-eq-false,
}
use mathlib.Core.Path.{subst}
use takapu_protocol_sdk.Stream.Config.{
  heartbeat_or_reconnect, negative_capacity, disabled, ConnectionConfig, second, millisecond,
  is_negative, less, or_default, duration, default_durations, bad_reconnect, default_capacities,
  normalize_connection,
}

-- A positive setting.
abbrev pub IsPositive : ℤ → Type 0
IsPositive v = (n : ℕ) × (v ≡ pos n) × (0 < n)

-- Settings that a client can run with.
pub record IsUsable (cfg : ConnectionConfig) : Type 0 where
  pub handshake : IsPositive cfg.handshake_timeout
  pub write : IsPositive cfg.write_timeout
  pub heartbeat : IsPositive cfg.heartbeat_interval
  pub idle : IsPositive cfg.read_idle_timeout
  pub patient : less cfg.heartbeat_interval cfg.read_idle_timeout ≡ true
  pub initial : IsPositive cfg.reconnect.initial_delay
  pub longest : IsPositive cfg.reconnect.max_delay
  pub ordered : less cfg.reconnect.max_delay cfg.reconnect.initial_delay ≡ false
  pub reset : IsPositive cfg.reconnect.reset_after
  pub policy : cfg.reconnect.policy ≤ disabled
  pub events : IsPositive cfg.event_buffer_size
  pub reads : IsPositive cfg.max_read_message_bytes
  pub writes : IsPositive cfg.max_write_message_bytes

or_default-IsPositive :
    (v : ℤ) (d : ℕ) → 0 < d → is_negative v ≡ false → IsPositive (or_default v d)
or_default-IsPositive (negsuc n) d p h = cc
or_default-IsPositive (pos zero) d p h = (d, refl, p)
or_default-IsPositive (pos (suc n)) d p h = (suc n, ground arith, omega arith)

duration-IsPositive : (v : ℤ) (d : ℕ) (out : ℤ) → 0 < d → duration v d ≡ ok out → IsPositive out
duration-IsPositive v d out p h =
    let nonnegative : is_negative v ≡ false = ground arith in
    let same : or_default v d ≡ out = ground arith in
    subst IsPositive same (or_default-IsPositive v d p nonnegative)

-- A duration that the loop leaves as it is.
duration_same : (v : ℤ) (d : ℕ) → IsPositive v → duration v d ≡ ok v
duration_same v d (n, e, p) = subst (λ w. duration w d ≡ ok w) (sym e) (positive_same n p)
  where
    positive_same : (n : ℕ) → 0 < n → duration (pos n) d ≡ ok (pos n)
    positive_same zero p = absurd (omega arith)
    positive_same (suc n) p = ground arith

or_default_same : (v : ℤ) (d : ℕ) → IsPositive v → or_default v d ≡ v
or_default_same v d (n, e, p) = subst (λ w. or_default w d ≡ w) (sym e) (positive_same n p)
  where
    positive_same : (n : ℕ) → 0 < n → or_default (pos n) d ≡ pos n
    positive_same zero p = absurd (omega arith)
    positive_same (suc n) p = ground arith

positive_nonnegative : (v : ℤ) → IsPositive v → is_negative v ≡ false
positive_nonnegative (pos n) p = refl
positive_nonnegative (negsuc n) (m, e, p) = cc

-- The durations of a connection.
abbrev pub IsTimed : ConnectionConfig → Type 0
IsTimed cfg =
    IsPositive cfg.handshake_timeout
    × IsPositive cfg.write_timeout
    × IsPositive cfg.heartbeat_interval
    × IsPositive cfg.read_idle_timeout
    × IsPositive cfg.reconnect.initial_delay
    × IsPositive cfg.reconnect.max_delay
    × IsPositive cfg.reconnect.reset_after

default_durations-IsTimed :
    (cfg out : ConnectionConfig) → default_durations cfg ≡ ok out → IsTimed out
unfolding default_durations
default_durations-IsTimed cfg out h =
    let (a, ea, ha) = >>=-eq-ok (duration cfg.handshake_timeout (10 * second)) _ h in
    let (b, eb, hb) = >>=-eq-ok (duration cfg.write_timeout (5 * second)) _ ha in
    let (c, ec, hc) = >>=-eq-ok (duration cfg.heartbeat_interval (10 * second)) _ hb in
    let (d, ed, hd) = >>=-eq-ok (duration cfg.read_idle_timeout (30 * second)) _ hc in
    let (e, ee, he) = >>=-eq-ok (duration cfg.reconnect.initial_delay (500 * millisecond)) _ hd in
    let (f, ef, hf) = >>=-eq-ok (duration cfg.reconnect.max_delay (30 * second)) _ he in
    let (g, eg, hg) = >>=-eq-ok (duration cfg.reconnect.reset_after (60 * second)) _ hf in
    let same = ok-injective_eq hg in
    subst IsTimed same (
      duration-IsPositive cfg.handshake_timeout (10 * second) a (omega arith) ea,
      duration-IsPositive cfg.write_timeout (5 * second) b (omega arith) eb,
      duration-IsPositive cfg.heartbeat_interval (10 * second) c (omega arith) ec,
      duration-IsPositive cfg.read_idle_timeout (30 * second) d (omega arith) ed,
      duration-IsPositive cfg.reconnect.initial_delay (500 * millisecond) e (omega arith) ee,
      duration-IsPositive cfg.reconnect.max_delay (30 * second) f (omega arith) ef,
      duration-IsPositive cfg.reconnect.reset_after (60 * second) g (omega arith) eg,
    )

default_durations_same : (cfg : ConnectionConfig) → IsTimed cfg → default_durations cfg ≡ ok cfg
unfolding default_durations
default_durations_same cfg (a, b, c, d, e, f, g) = rw (
  duration_same cfg.handshake_timeout (10 * second) a,
  duration_same cfg.write_timeout (5 * second) b,
  duration_same cfg.heartbeat_interval (10 * second) c,
  duration_same cfg.read_idle_timeout (30 * second) d,
  duration_same cfg.reconnect.initial_delay (500 * millisecond) e,
  duration_same cfg.reconnect.max_delay (30 * second) f,
  duration_same cfg.reconnect.reset_after (60 * second) g,
)

abbrev negative : ConnectionConfig → Bool
negative cfg =
    is_negative cfg.event_buffer_size
    || is_negative cfg.max_read_message_bytes
    || is_negative cfg.max_write_message_bytes

capacities-IsUsable :
    (cfg out : ConnectionConfig) → IsTimed cfg → default_capacities cfg ≡ ok out → IsUsable out
unfolding default_capacities
capacities-IsUsable cfg out (a, b, c, d, e, f, g) h =
    let (u, bad, h1) = >>=-eq-ok (fail_if (bad_reconnect cfg) heartbeat_or_reconnect) _ h in
    let (v, neg, h2) = >>=-eq-ok (fail_if (negative cfg) negative_capacity) _ h1 in
    let fine = fail_if-eq-ok (bad_reconnect cfg) heartbeat_or_reconnect bad in
    let (two, policy) = ||-eq-false _ (ltb disabled cfg.reconnect.policy) fine in
    let (slow, order) =
      ||-eq-false _ (less cfg.reconnect.max_delay cfg.reconnect.initial_delay) two in
    let (some_two, n3) =
      ||-eq-false _ (is_negative cfg.max_write_message_bytes)
        (fail_if-eq-ok (negative cfg) negative_capacity neg) in
    let (n1, n2) = ||-eq-false _ (is_negative cfg.max_read_message_bytes) some_two in
    let usable : IsUsable (record cfg {
      event_buffer_size = or_default cfg.event_buffer_size 256;
      max_read_message_bytes = or_default cfg.max_read_message_bytes (512 * 1024);
      max_write_message_bytes = or_default cfg.max_write_message_bytes (512 * 1024);
    }) =
      record {
        handshake = a;
        write = b;
        heartbeat = c;
        idle = d;
        patient = not-eq-false (less cfg.heartbeat_interval cfg.read_idle_timeout) slow;
        initial = e;
        longest = f;
        ordered = order;
        reset = g;
        policy = ground (arith, policy);
        events = or_default-IsPositive cfg.event_buffer_size 256 (omega arith) n1;
        reads = or_default-IsPositive cfg.max_read_message_bytes (512 * 1024) (omega arith) n2;
        writes = or_default-IsPositive cfg.max_write_message_bytes (512 * 1024) (omega arith) n3;
      } in
    subst IsUsable (ok-injective_eq h2) usable

capacities_same : (cfg : ConnectionConfig) → IsUsable cfg → default_capacities cfg ≡ ok cfg
unfolding default_capacities
capacities_same cfg u =
    let fits : ltb disabled cfg.reconnect.policy ≡ false = ground (arith, u.policy) in
    rw (
      u.patient,
      u.ordered,
      fits,
      positive_nonnegative cfg.event_buffer_size u.events,
      positive_nonnegative cfg.max_read_message_bytes u.reads,
      positive_nonnegative cfg.max_write_message_bytes u.writes,
      or_default_same cfg.event_buffer_size 256 u.events,
      or_default_same cfg.max_read_message_bytes (512 * 1024) u.reads,
      or_default_same cfg.max_write_message_bytes (512 * 1024) u.writes,
    )

normalized_same : (cfg : ConnectionConfig) → IsUsable cfg → normalize_connection cfg ≡ ok cfg
unfolding normalize_connection
normalized_same cfg u = rw (
  default_durations_same cfg
      (u.handshake, u.write, u.heartbeat, u.idle, u.initial, u.longest, u.reset),
  capacities_same cfg u,
)

normalized-IsUsable :
    (cfg out : ConnectionConfig) → normalize_connection cfg ≡ ok out → IsUsable out
unfolding normalize_connection
normalized-IsUsable cfg out h =
    let (timed, e, rest) = >>=-eq-ok (default_durations cfg) _ h in
    capacities-IsUsable timed out (default_durations-IsTimed cfg timed e) rest

-- What normalizeConnection returns can be run with: every timeout, delay and capacity is positive,
-- the idle timeout of reads exceeds the heartbeat's interval, the largest delay of a reconnect is not
-- below the first, and the policy is one of the two. Normalizing the result again changes nothing.
pub normalize_connection-IsUsable :
    (cfg out : ConnectionConfig)
    → normalize_connection cfg ≡ ok out
    → IsUsable out × (normalize_connection out ≡ ok out)
normalize_connection-IsUsable cfg out h =
    let usable = normalized-IsUsable cfg out h in (usable, normalized_same out usable)
