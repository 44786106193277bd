-- ===== src/Session/Lifecycle.antt =====
-- classes/read_session.py: a new session, and the end of a connection. Every operation here runs in
-- one piece: what it awaits inside the lifecycle lock (the closing of a writer or a reader task,
-- which the stream library does) leaves nothing behind.

use luxpower_ha_integration.Base.{
  ℕ, ◌+◌, Bool, true, false, not, ◌&&◌, ◌||◌, Option, none, some, [], leb, ◌==◌, if◌then◌else◌,
  is_empty, length, Outcome, Exception, ok, raised, value_error, connection_lost, session_closed,
}
use luxpower_ha_integration.Base.Dict.{Dict}
use luxpower_ha_integration.Packet.Bytes.{Bytes}
use luxpower_ha_integration.Decoder.{LuxFrameDecoder, stats, reset}
use luxpower_ha_integration.Telemetry.{TelemetryGroup}
use luxpower_ha_integration.Session.{Counters, failed, Config, LuxReadSession, settle, new_decoder}

-- READ_TIMEOUT of const.py, in seconds
abbrev pub read_timeout_seconds : ℕ
read_timeout_seconds = 3

-- The arguments of __init__ that it checks or keeps; numbers are not negative, and finite.
pub record Arguments : Type 0 where
  pub host : Bytes
  pub port : ℕ
  pub dongle_serial : Bytes
  pub inverter_serial : Bytes
  pub request_timeout : ℕ
  pub drain_timeout : Option ℕ
  pub reply_timeout : Option ℕ
  pub tcp_keepalive : Bool
  pub tcp_keepalive_idle_seconds : ℕ
  pub receive_inactivity_timeout : Option ℕ

-- `x is not None and x <= 0`
abbrev pub is_given_zero : Option ℕ → Bool
is_given_zero none = false
is_given_zero (some x) = x == 0

abbrev pub is_given : Option ℕ → Bool
is_given none = false
is_given (some x) = true

abbrev pub or_default : Option ℕ → ℕ → ℕ
or_default none d = d
or_default (some x) d = x

abbrev pub config_of : Arguments → Dict ℕ TelemetryGroup → Config
config_of arguments groups = record {
  dongle_serial = arguments.dongle_serial;
  inverter_serial = arguments.inverter_serial;
  request_timeout = arguments.request_timeout;
  drain_timeout = or_default arguments.drain_timeout arguments.request_timeout;
  reply_timeout = or_default arguments.reply_timeout arguments.request_timeout;
  split_request_deadlines = is_given arguments.drain_timeout || is_given arguments.reply_timeout;
  tcp_keepalive = arguments.tcp_keepalive;
  receive_inactivity_timeout = arguments.receive_inactivity_timeout;
  groups = groups;
}

abbrev pub no_counts : Counters
no_counts = record {
  connections = 0;
  connection_attempts = 0;
  connection_failures = 0;
  connection_losses = 0;
  bytes_received = 0;
  frames_received = 0;
  validated_fc4_frames = 0;
  expected_fc4_responses = 0;
  unmatched_fc4_observations = 0;
  duplicate_fc4_frames = 0;
  invalid_frames = 0;
  function_193_frames = 0;
  explicit_requests = 0;
  request_timeouts = 0;
  ambiguous_requests = 0;
  modbus_rejections = 0;
  receive_inactivity_timeouts = 0;
  operational_registers_expected = 0;
  operational_registers_unmatched = 0;
  request_latencies_ms = [];
  request_latency_samples_total = 0;
  decoder_discarded_total = 0;
}

abbrev pub new_session : Config → LuxReadSession
new_session config = record {
  config = config;
  has_writer = false;
  has_reader_task = false;
  generation = 0;
  active_connection_generation = none;
  decoder = new_decoder;
  pending = none;
  requests = [];
  next_request = 0;
  connection_lost = false;
  requests_on_generation = 0;
  subscriptions = record {
    cells = [];
    next_observation_subscription_id = 1;
    legacy_observation_subscription = none;
    observation_queue_drops = 0;
  };
  inputs = record {
    input_registers = [];
    input_observed_at = [];
    input_sources = [];
    input_observation_sequences = [];
    input_observation_ranges = [];
    explicit_observed_at = [];
    unsolicited_observed_at = [];
    last_block_values = [];
    observation_sequence = 0;
  };
  counters = no_counts;
  keepalive = record {
    applied_connections = 0;
    idle_applied_connections = 0;
    configuration_failures = 0;
    configuration_unavailable = 0;
  };
}

-- __init__
unfoldable pub init : Arguments → Dict ℕ TelemetryGroup → Outcome LuxReadSession
init arguments groups =
    if is_empty arguments.host
      || not (leb 1 arguments.port && leb arguments.port 65535)
      || not (length arguments.dongle_serial == 10)
      || not (length arguments.inverter_serial == 10)
      || arguments.request_timeout == 0
      || is_given_zero arguments.drain_timeout
      || is_given_zero arguments.reply_timeout
      || arguments.tcp_keepalive_idle_seconds == 0
      || is_given_zero arguments.receive_inactivity_timeout
    then raised value_error
    else ok (new_session (config_of arguments groups))

-- _fail_pending
unfoldable pub fail_pending : Exception → LuxReadSession → LuxReadSession
fail_pending error self = elim self.pending [
  | none ↦ self
  | some id ↦ record self { pending = none; requests = settle id (failed error) self.requests }
]

-- The decoder's bytes are accounted for, and it is reset.
abbrev pub retire_counts : LuxFrameDecoder → Counters → Counters
retire_counts decoder counters = record counters {
  decoder_discarded_total = counters.decoder_discarded_total + (stats decoder).discarded_bytes;
  invalid_frames =
      if (stats decoder).buffered_bytes == 0
      then counters.invalid_frames
      else counters.invalid_frames + 1;
}

unfoldable pub retire_decoder : LuxReadSession → LuxReadSession
retire_decoder self = record self {
  counters = retire_counts self.decoder self.counters;
  decoder = reset self.decoder;
}

-- _taint_current_generation
abbrev pub taint : LuxReadSession → LuxReadSession
taint self = record self { generation = self.generation + 1 }

-- async_close
unfoldable pub async_close : LuxReadSession → LuxReadSession
async_close self =
    let dropped = record self {
      has_reader_task = false;
      has_writer = false;
      active_connection_generation = none;
      connection_lost = false;
      generation = self.generation + 1;
    } in
    retire_decoder (fail_pending session_closed dropped)

-- _reader_failed
unfoldable pub reader_failed : (generation : ℕ) → LuxReadSession → LuxReadSession
reader_failed generation self =
    if not (generation == self.generation)
    then self
    else let lost = record self {
      has_writer = false;
      has_reader_task = false;
      active_connection_generation = none;
      generation = self.generation + 1;
      connection_lost = true;
      counters = record self.counters { connection_losses = self.counters.connection_losses + 1 };
    } in
      retire_decoder (fail_pending connection_lost lost)
