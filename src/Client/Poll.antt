-- ===== src/Client/Poll.antt =====
-- classes/modbus_client.py: _async_poll_once, one pass over a new connection. What the pass has
-- collected is kept apart from the client until it is merged, as in the source.
pub mod Kept
pub mod Steps
pub mod Requested
pub mod Coherent
pub mod Refresh
use luxpower_ha_integration.Base.{
  ℕ, zero, suc, ◌+◌, ◌-◌, Bool, true, false, not, ◌&&◌, Option, none, some, List, [], ◌∷◌, map, ltb,
  leb, ◌==◌, if◌then◌else◌, is_empty, Outcome, Exception, ok, raised, value_error, timeout_error,
}
use luxpower_ha_integration.Base.Dict.{Dict, nat_eq, lookup, contains, update}
use luxpower_ha_integration.Base.Exec.{Exec, return, lift, modify, for_each, ◌>>=◌, ◌>>◌}
use luxpower_ha_integration.Packet.Bytes.{Bytes, bytes_eq}
use luxpower_ha_integration.PacketRecovery.{PacketRecoveryHandler}
use luxpower_ha_integration.Validator.{RequestType, input, input_bat, hold}
use luxpower_ha_integration.Batteries.{Battery, BatteryKey, battery_info_start_register}
use luxpower_ha_integration.Stream.{Script, read}
use luxpower_ha_integration.Packet.Response.{parse}
use luxpower_ha_integration.Client.{
  Cache, Cadence, Client, Config, Line, World, async_connect, empty_cache, total_registers,
}
use luxpower_ha_integration.Client.Cycle.{
  record_battery_result, should_poll_battery, should_poll_hold,
}
use luxpower_ha_integration.Client.Request.{Block, registers, batteries, async_request_registers}
use luxpower_ha_integration.Client.Pass.{
  Pass, i_bat_parallel_num, range, poll_input_block, poll_hold_block, poll_battery_block,
}

-- The reads of the battery block, when the options and the number of batteries ask for it.
abbrev pub wants_batteries : Config → Dict ℕ ℕ → Bool
wants_batteries config newly_polled_input_regs =
    config.request_battery_data
    && has_batteries (lookup i_bat_parallel_num newly_polled_input_regs)
    && leb 120 config.block_size
  where
    has_batteries : Option ℕ → Bool
    has_batteries none = false
    has_batteries (some n) = ltb 0 n

abbrev pub on_cadence : (Cadence → Cadence) → Exec Pass (Unit {0})
on_cadence f = modify (λ self. record self { cadence = f self.cadence })

-- if self._should_poll_battery()
unfoldable pub should_poll_battery_now : Config → Exec Pass Bool
should_poll_battery_now config self =
    let (cadence', polls) = should_poll_battery config self.cadence in
    (record self { cadence = cadence' }, ok polls)

-- record_battery_result(bool(newly_polled_battery_data))
unfoldable pub record_now : Exec Pass (Unit {0})
record_now self =
    let got_data = not (is_empty self.newly.last_good_battery_data) in
    (record self { cadence = record_battery_result got_data self.cadence }, ok tt)

-- The two branches of `if self._should_poll_battery()`.
abbrev pub battery_reads : Config → (polls : Bool) → Exec Pass (Unit {0})
battery_reads config true = do
  regs ←
      lift (range battery_info_start_register (battery_info_start_register + 120) config.block_size)
  for_each regs (poll_battery_block config)
  record_now
battery_reads config false =
    on_cadence (λ c. record c { battery_skipped_polls = c.battery_skipped_polls + 1 })

unfoldable pub poll_batteries : Config → Exec Pass (Unit {0})
poll_batteries config = should_poll_battery_now config >>= battery_reads config

unfoldable pub poll_batteries_if : Config → Exec Pass (Unit {0})
poll_batteries_if config self =
    (if wants_batteries config self.newly.last_good_input_regs
        then poll_batteries config
        else return tt)
      self

unfoldable pub poll_settings : Config → (poll_hold : Bool) → Exec Pass (Unit {0})
poll_settings config poll_hold =
    if poll_hold
    then (do
      regs ← lift (range 0 total_registers config.block_size)
      for_each regs (poll_hold_block config)
      on_cadence (λ c. record c { hold_polls = c.hold_polls + 1 }))
    else return tt

-- The `try` around the three groups of reads, which a timeout ends early.
unfoldable pub poll_groups : Config → (poll_hold : Bool) → Exec Pass (Unit {0})
poll_groups config poll_hold = do
  regs ← lift (range 0 total_registers config.block_size)
  for_each regs (poll_input_block config)
  poll_batteries_if config
  poll_settings config poll_hold

-- except asyncio.TimeoutError
abbrev pub suppress_timeout : {S : Type 0} → S × Outcome (Unit {0}) → S × Outcome (Unit {0})
suppress_timeout (s, raised timeout_error) = (s, ok tt)
suppress_timeout (s, outcome) = (s, outcome)

-- async_discard_initial_data of classes/connection_manager.py: what it reads only has to parse.
abbrev pub discard : Script × Outcome Bytes → Script × Outcome (Unit {0})
discard (stream, raised timeout_error) = (stream, ok tt)
discard (stream, raised e) = (stream, raised e)
discard (stream, ok []) = (stream, ok tt)
discard (stream, ok (b ∷ bs)) =
    (stream, elim (parse (b ∷ bs)) [ ok r ↦ ok tt | raised e ↦ raised e ])

unfoldable pub async_discard_initial_data : Config → Script → Script × Outcome (Unit {0})
async_discard_initial_data config stream =
    if config.skip_initial_data
    then (let (outcome, later) = read 300 stream in discard (later, outcome))
    else (stream, ok tt)

unfoldable pub skip_initial_data : Config → Exec Pass (Unit {0})
skip_initial_data config self =
    let (later, outcome) = async_discard_initial_data config self.line.stream in
    (record self { line = record self.line { stream = later } }, outcome)

-- The part of a pass on the open connection.
unfoldable pub poll_connection : Config → (poll_hold : Bool) → Exec Pass (Unit {0})
poll_connection config poll_hold =
    skip_initial_data config >> λ self. suppress_timeout (poll_groups config poll_hold self)

unfoldable pub merge_input : Cache → Cache → Cache
merge_input old newly = if is_empty newly.last_good_input_regs then old else record old {
  last_good_input_regs = update old.last_good_input_regs newly.last_good_input_regs;
  input_observed_at = update old.input_observed_at newly.input_observed_at;
}

unfoldable pub merge_batteries : Cache → Cache → Cache
merge_batteries old newly = if is_empty newly.last_good_battery_data then old else record old {
  last_good_battery_data = update old.last_good_battery_data newly.last_good_battery_data;
  battery_observed_at = update old.battery_observed_at newly.battery_observed_at;
}

unfoldable pub merge_hold : Cache → Cache → Cache
merge_hold old newly = if is_empty newly.last_good_hold_regs then old else record old {
  last_good_hold_regs = update old.last_good_hold_regs newly.last_good_hold_regs;
  hold_observed_at = update old.hold_observed_at newly.hold_observed_at;
}

-- Merge new data with the last known good data.
abbrev pub merge : Cache → Cache → Cache
merge old newly = merge_hold (merge_batteries (merge_input old newly) newly) newly

-- The client behind a pass that has not been merged.
abbrev pub after_pass : Client → Pass → Client
after_pass self pass = record self {
  cadence = pass.cadence;
  packet_recovery = pass.line.packet_recovery;
}

-- The end of a pass. An exception of `async_close`, which is not a timeout and not a
-- ConnectionError, is left out.
abbrev pub end_pass : Client → Pass × Outcome (Unit {0}) → (Client × World) × Outcome (Unit {0})
end_pass self (pass, raised e) = ((after_pass self pass, pass.world), raised e)
end_pass self (pass, ok _) =
    ((record (after_pass self pass) { cache = merge self.cache pass.newly }, pass.world), ok tt)

-- The pass, behind the attempt to connect.
abbrev pub poll_connected :
    Config
    → (poll_hold : Bool) → Client
    → World × Outcome Script
    → (Client × World) × Outcome (Unit {0})
poll_connected config poll_hold self (world, raised e) = ((self, world), raised e)
poll_connected config poll_hold self (world, ok stream) = end_pass self (
    poll_connection config poll_hold (record {
      line = record { packet_recovery = self.packet_recovery; stream = stream; sent = [] };
      world = world;
      cadence = self.cadence;
      newly = empty_cache;
    }))

unfoldable pub async_poll_once : Config → Exec (Client × World) (Unit {0})
async_poll_once config (self, world) =
    let asked = should_poll_hold self.cadence in
    poll_connected config asked.1 (record self { cadence = asked.0 }) (async_connect world)
