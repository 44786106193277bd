-- ===== src/Session.antt =====
-- classes/read_session.py: LuxReadSession, which owns one connection and routes what it receives
-- to the one outstanding read, to the register snapshot and to the subscribers. Here are its types
-- and its state; the operations stand in the modules below. Times are numbers. The object of a read
-- in progress, which `_pending` and the waiting coroutine share, stands in `requests` under its
-- number, with the state of its future. The diagnostic journal is written and never read by the
-- session, and is left out here.
pub mod Delivery
pub mod Frame
pub mod Lifecycle
pub mod Reader
pub mod Request
pub mod Reach
pub mod Views
pub mod Run
pub mod Classify
pub mod Connect
use luxpower_ha_integration.Base.{
  ℕ, ◌+◌, ◌-◌, ◌&&◌, Bool, true, false, Option, none, some, List, [], ◌==◌, if◌then◌else◌,
  Exception,
}
use luxpower_ha_integration.Base.Dict.{Dict, Eq, nat_eq, lookup, put}
use luxpower_ha_integration.Packet.Bytes.{Bytes}
use luxpower_ha_integration.Decoder.{LuxFrameDecoder, max_packet_size}
use luxpower_ha_integration.Telemetry.{TelemetryGroup}

pub data LuxObservationSource : Type 0 where
  explicit unsolicited : LuxObservationSource

pub record LuxReadObservation : Type 0 where
  pub register_start : ℕ
  pub register_count : ℕ
  pub values : Dict ℕ ℕ
  pub observed_at : ℕ
  pub explicit_response : Bool
  pub duplicate : Bool
  pub sequence : ℕ

-- register_end
abbrev pub register_end : LuxReadObservation → ℕ
register_end o = o.register_start + o.register_count - 1

-- What a subscriber's queue holds: observations, and _OBSERVATION_SUBSCRIPTION_CLOSED.
pub data Item : Type 0 where
  observation : LuxReadObservation → Item
  subscription_closed : Item

-- _ObservationSubscriptionState
pub record SubscriptionState : Type 0 where
  pub queue : List Item
  pub capacity : ℕ
  pub observations_received : ℕ
  pub observations_dropped : ℕ
  pub last_sequence_received : Option ℕ
  pub active : Bool
  pub consumer_waiting : Bool

-- A subscription that was ever made: its state, and whether `_observation_subscriptions` has it.
pub record SubscriptionCell : Type 0 where
  pub registered : Bool
  pub state : SubscriptionState

-- The part of the session that the subscriptions use.
pub record Subscriptions : Type 0 where
  pub cells : Dict ℕ SubscriptionCell
  pub next_observation_subscription_id : ℕ
  pub legacy_observation_subscription : Option ℕ
  pub observation_queue_drops : ℕ

-- The snapshot's dictionaries, and the latest values of each block.
pub record Inputs : Type 0 where
  pub input_registers : Dict ℕ ℕ
  pub input_observed_at : Dict ℕ ℕ
  pub input_sources : Dict ℕ LuxObservationSource
  pub input_observation_sequences : Dict ℕ ℕ
  pub input_observation_ranges : Dict ℕ (ℕ × ℕ)
  pub explicit_observed_at : Dict ℕ ℕ
  pub unsolicited_observed_at : Dict ℕ ℕ
  pub last_block_values : Dict (ℕ × ℕ) (Dict ℕ ℕ)
  pub observation_sequence : ℕ

pub record Counters : Type 0 where
  pub connections : ℕ
  pub connection_attempts : ℕ
  pub connection_failures : ℕ
  pub connection_losses : ℕ
  pub bytes_received : ℕ
  pub frames_received : ℕ
  pub validated_fc4_frames : ℕ
  pub expected_fc4_responses : ℕ
  pub unmatched_fc4_observations : ℕ
  pub duplicate_fc4_frames : ℕ
  pub invalid_frames : ℕ
  pub function_193_frames : ℕ
  pub explicit_requests : ℕ
  pub request_timeouts : ℕ
  pub ambiguous_requests : ℕ
  pub modbus_rejections : ℕ
  pub receive_inactivity_timeouts : ℕ
  pub operational_registers_expected : ℕ
  pub operational_registers_unmatched : ℕ
  pub request_latencies_ms : List ℕ
  pub request_latency_samples_total : ℕ
  pub decoder_discarded_total : ℕ

-- The counters of _configure_tcp_keepalive.
pub record Keepalive : Type 0 where
  pub applied_connections : ℕ
  pub idle_applied_connections : ℕ
  pub configuration_failures : ℕ
  pub configuration_unavailable : ℕ

-- asyncio.Future
pub data Future : Type 0 where
  waiting cancelled : Future
  result : LuxReadObservation → Future
  failed : Exception → Future

-- _PendingRead
pub record PendingRead : Type 0 where
  pub start : ℕ
  pub count : ℕ
  pub generation : ℕ
  pub sent_monotonic : ℕ
  pub future : Future

-- What __init__ keeps of its arguments, and the module's map of register groups.
pub record Config : Type 0 where
  pub dongle_serial : Bytes
  pub inverter_serial : Bytes
  pub request_timeout : ℕ
  pub drain_timeout : ℕ
  pub reply_timeout : ℕ
  pub split_request_deadlines : Bool
  pub tcp_keepalive : Bool
  pub receive_inactivity_timeout : Option ℕ
  pub groups : Dict ℕ TelemetryGroup

-- The attributes of LuxReadSession. `has_writer` and `has_reader_task` say that the attribute is
-- not None. A reader task that is done has lost its generation to a handler that drops it, too.
pub record LuxReadSession : Type 0 where
  pub config : Config
  pub has_writer : Bool
  pub has_reader_task : Bool
  pub generation : ℕ
  pub active_connection_generation : Option ℕ
  pub decoder : LuxFrameDecoder
  pub pending : Option ℕ
  pub requests : Dict ℕ PendingRead
  pub next_request : ℕ
  pub connection_lost : Bool
  pub requests_on_generation : ℕ
  pub subscriptions : Subscriptions
  pub inputs : Inputs
  pub counters : Counters
  pub keepalive : Keepalive

-- connected
abbrev pub is_connected : LuxReadSession → Bool
is_connected self = self.has_writer && self.has_reader_task

-- future.done()
abbrev pub is_done : Future → Bool
is_done waiting = false
is_done _ = true

-- if not future.done(): the future is settled
abbrev pub settle_read : Future → PendingRead → PendingRead
settle_read f p = if is_done p.future then p else record p { future = f }

abbrev pub settle_found : Option PendingRead → ℕ → Future → Dict ℕ PendingRead → Dict ℕ PendingRead
settle_found none id f requests = requests
settle_found (some p) id f requests = put id (settle_read f p) requests

unfoldable pub settle : ℕ → Future → Dict ℕ PendingRead → Dict ℕ PendingRead
settle id f requests = settle_found (lookup id requests) id f requests

abbrev pub at_generation : ℕ → ℕ → Option PendingRead → Option (ℕ × PendingRead)
at_generation generation id none = none
at_generation generation id (some p) = if p.generation == generation then some (id, p) else none

-- self._pending, if it is of this generation
unfoldable pub pending_at : ℕ → LuxReadSession → Option (ℕ × PendingRead)
pending_at generation self = elim self.pending [
  | none ↦ none
  | some id ↦ at_generation generation id (lookup id self.requests)
]

abbrev pub new_decoder : LuxFrameDecoder
new_decoder = record {
  max_frame_size = max_packet_size;
  buffer = [];
  frames = 0;
  discarded_bytes = 0;
  malformed_lengths = 0;
}
