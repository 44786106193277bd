-- ===== src/Client/Fetch.antt =====
-- classes/modbus_client.py: async_get_data, its attempts, and what it reports when all have failed.
pub mod Window
use luxpower_ha_integration.Base.{
  ℕ, zero, suc, ◌+◌, Bool, true, false, not, ◌&&◌, Option, none, some, List, [], ◌∷◌, leb, ltb,
  if◌then◌else◌, is_empty, Outcome, Exception, ok, raised, timeout_error, connection_error,
  os_error, communication_error,
}
use luxpower_ha_integration.Base.Dict.{Dict, nat_eq, lookup}
use luxpower_ha_integration.Packet.Bytes.{Bytes}
use luxpower_ha_integration.Batteries.{Battery, BatteryKey, key_eq}
use luxpower_ha_integration.Client.{Cache, Client, Config, World, max_cached_data_failures}
use luxpower_ha_integration.Client.Poll.{async_poll_once}

-- What _snapshot returns. Values are immutable here, so the copies of the source are the values.
pub record Data : Type 0 where
  pub input : Dict ℕ ℕ
  pub hold : Dict ℕ ℕ
  pub battery : Dict Bytes Battery

abbrev pub snapshot : Cache → Data
snapshot cache = record {
  input = cache.last_good_input_regs;
  hold = cache.last_good_hold_regs;
  battery = cache.last_good_battery_data;
}

-- The exceptions that async_get_data catches: timeouts and OSError, with its ConnectionError.
abbrev pub is_retried : Exception → Bool
is_retried timeout_error = true
is_retried connection_error = true
is_retried os_error = true
is_retried _ = false

-- _handle_poll_failure
unfoldable pub handle_poll_failure : Client → Client × Outcome Data
handle_poll_failure self =
    let counted = record self { connection_failure_count = self.connection_failure_count + 1 } in
    (
      counted,
      if not (is_empty counted.cache.last_good_input_regs)
            && not (is_empty counted.cache.last_good_hold_regs)
            && leb counted.connection_failure_count max_cached_data_failures
          then ok (snapshot counted.cache)
          else raised communication_error,
    )

-- The end of a good attempt, with the time.
unfoldable pub succeed : (attempt : ℕ) → Client × World → (Client × World) × Outcome Data
succeed attempt (self, world) =
    let connected = record self {
      last_successful_connection = some (world.unix_time world.ticks);
      connection_failure_count = 0;
      connection_retry_count =
          if ltb 0 attempt then self.connection_retry_count + 1 else self.connection_retry_count;
    } in
    ((connected, record world { ticks = world.ticks + 1 }), ok (snapshot self.cache))

-- An attempt's outcome, over the later attempts.
abbrev pub after_attempt :
    (rest : Client × World → (Client × World) × Outcome Data) (attempt : ℕ)
    → (Client × World) × Outcome (Unit {0})
    → (Client × World) × Outcome Data
after_attempt rest attempt (state, ok _) = succeed attempt state
after_attempt rest attempt (state, raised e) =
    if is_retried e then rest state else (state, raised e)

-- The attempts, `left` of them from `attempt` on.
unfoldable pub attempts :
    Config → (left attempt : ℕ) → Client × World → (Client × World) × Outcome Data
attempts config zero attempt (self, world) =
    let failed = handle_poll_failure self in ((failed.0, world), failed.1)
attempts config (suc left) attempt state =
    after_attempt (attempts config left (attempt + 1)) attempt (async_poll_once config state)

unfoldable pub async_get_data : Config → Client × World → (Client × World) × Outcome Data
async_get_data config state = attempts config config.connection_retries 0 state

-- {key: observed_at[key] for key in values if key in observed_at}
unfoldable pub times_of : Dict ℕ ℕ → Dict ℕ ℕ → Dict ℕ ℕ
times_of [] observed_at = []
times_of ((register, v) ∷ values) observed_at =
    let rest = times_of values observed_at in
    elim (lookup register observed_at) [ none ↦ rest | some t ↦ (register, t) ∷ rest ]

-- get_observation_times, of the input and the holding registers
abbrev pub input_times : Cache → Dict ℕ ℕ
input_times cache = times_of cache.last_good_input_regs cache.input_observed_at

abbrev pub hold_times : Cache → Dict ℕ ℕ
hold_times cache = times_of cache.last_good_hold_regs cache.hold_observed_at
