-- ===== src/Client.antt =====
-- classes/modbus_client.py: the state of LxpModbusApiClient, and what it talks to. The parts of
-- the state that a method cannot touch are records of their own, so its type shows what it keeps.
pub mod Cycle
pub mod Request
pub mod Pass
pub mod Poll
pub mod Fetch
pub mod Write
use luxpower_ha_integration.Base.{
  ℕ, ◌+◌, Bool, true, false, Option, none, List, [], ◌∷◌, Outcome, ok, raised, connection_error,
  value_error, some,
}
use luxpower_ha_integration.Base.Dict.{Dict}
use luxpower_ha_integration.Packet.Bytes.{Bytes}
use luxpower_ha_integration.Batteries.{Battery, BatteryKey}
use luxpower_ha_integration.PacketRecovery.{PacketRecoveryHandler, fresh_handler}
use luxpower_ha_integration.Stream.{Script}

-- The constants of const.py.
abbrev pub total_registers : ℕ
total_registers = 750

abbrev pub hold_register_poll_every : ℕ
hold_register_poll_every = 5

abbrev pub battery_empty_polls_before_backoff : ℕ
battery_empty_polls_before_backoff = 5

abbrev pub battery_backoff_poll_every : ℕ
battery_backoff_poll_every = 10

abbrev pub max_cached_data_failures : ℕ
max_cached_data_failures = 2

-- What `__init__` is given, its connection manager's options with it.
pub record Config : Type 0 where
  pub dongle_serial : Bytes
  pub inverter_serial : Bytes
  pub block_size : ℕ
  pub connection_retries : ℕ
  pub skip_initial_data : Bool
  pub request_battery_data : Bool
  pub battery_serials_configured : Bool

-- The known-good values, and when each was observed. A time is a number.
pub record Cache : Type 0 where
  pub last_good_input_regs : Dict ℕ ℕ
  pub last_good_hold_regs : Dict ℕ ℕ
  pub last_good_battery_data : Dict Bytes Battery
  pub input_observed_at : Dict ℕ ℕ
  pub hold_observed_at : Dict ℕ ℕ
  pub battery_observed_at : Dict Bytes (Dict BatteryKey ℕ)

abbrev pub empty_cache : Cache
empty_cache = record {
  last_good_input_regs = [];
  last_good_hold_regs = [];
  last_good_battery_data = [];
  input_observed_at = [];
  hold_observed_at = [];
  battery_observed_at = [];
}

-- The counters that decide what a poll reads.
pub record Cadence : Type 0 where
  pub poll_count : ℕ
  pub hold_polls : ℕ
  pub polls_since_hold : ℕ
  pub battery_empty_polls : ℕ
  pub battery_skipped_polls : ℕ
  pub battery_backoff_counter : ℕ
  pub force_hold_poll : Bool

abbrev pub fresh_cadence : Cadence
fresh_cadence = record {
  poll_count = 0;
  hold_polls = 0;
  polls_since_hold = 0;
  battery_empty_polls = 0;
  battery_skipped_polls = 0;
  battery_backoff_counter = 0;
  force_hold_poll = true;
}

pub record Client : Type 0 where
  pub cache : Cache
  pub cadence : Cadence
  pub packet_recovery : PacketRecoveryHandler
  pub connection_retry_count : ℕ
  pub last_successful_connection : Option ℕ
  pub connection_failure_count : ℕ

-- __init__
abbrev pub init : Client
init = record {
  cache = empty_cache;
  cadence = fresh_cadence;
  packet_recovery = fresh_handler;
  connection_retry_count = 0;
  last_successful_connection = none;
  connection_failure_count = 0;
}

-- Outside the repository: what each `asyncio.open_connection` gives, the observation clock, which
-- gives an aware time or something that require_aware_utc refuses, and time.time(). The clocks'
-- readings depend on the number of readings before.
pub record World : Type 0 where
  pub connections : List (Outcome Script)
  pub clock : ℕ → Option ℕ
  pub unix_time : ℕ → ℕ
  pub ticks : ℕ

-- require_aware_utc of observation.py
abbrev pub require_aware_utc : Option ℕ → Outcome ℕ
require_aware_utc none = raised value_error
require_aware_utc (some t) = ok t

-- async_connect; where no connection is scripted, it is refused.
unfoldable pub async_connect : World → World × Outcome Script
async_connect world = elim world.connections [
  | [] ↦ (world, raised connection_error)
  | c ∷ cs ↦ (record world { connections = cs }, c)
]

-- An open connection: the reads to come, and the packets that were written. An exception of
-- `drain` is the exception of the read behind it.
pub record Line : Type 0 where
  pub packet_recovery : PacketRecoveryHandler
  pub stream : Script
  pub sent : List Bytes
