-- ===== src/Client/Pass.antt =====
-- classes/modbus_client.py: the requests of _async_poll_once, block by block. What a pass collects
-- is kept apart from the client until it is merged, as in the source.
pub mod Blocks
use luxpower_ha_integration.Base.{
  ℕ, zero, suc, ◌+◌, ◌-◌, Bool, true, false, not, ◌&&◌, Option, none, some, List, [], ◌∷◌, map, ltb,
  leb, ◌==◌, if◌then◌else◌, is_empty, Outcome, Exception, ok, raised, value_error, timeout_error,
}
use luxpower_ha_integration.Base.Dict.{Dict, nat_eq, lookup, contains, update}
use luxpower_ha_integration.Base.Exec.{Exec, return, lift, modify, for_each, ◌>>=◌, ◌>>◌}
use luxpower_ha_integration.Packet.Bytes.{Bytes, bytes_eq}
use luxpower_ha_integration.PacketRecovery.{PacketRecoveryHandler}
use luxpower_ha_integration.Validator.{RequestType, input, input_bat, hold}
use luxpower_ha_integration.Batteries.{Battery, BatteryKey, battery_info_start_register}
use luxpower_ha_integration.Stream.{Script, read}
use luxpower_ha_integration.Packet.Response.{parse}
use luxpower_ha_integration.Client.{
  Cache, Cadence, Client, Config, Line, World, async_connect, empty_cache, require_aware_utc,
  total_registers,
}
use luxpower_ha_integration.Client.Cycle.{
  record_battery_result, should_poll_battery, should_poll_hold,
}
use luxpower_ha_integration.Client.Request.{Block, registers, batteries, async_request_registers}

-- A pass: the connection, the clock, the counters, and the newly polled values.
pub record Pass : Type 0 where
  pub line : Line
  pub world : World
  pub cadence : Cadence
  pub newly : Cache

-- I_BAT_PARALLEL_NUM
abbrev pub i_bat_parallel_num : ℕ
i_bat_parallel_num = 96

-- range(start, stop, step) for a step that is not zero, of which `fuel` numbers are made
unfoldable pub range_from : (fuel start stop step : ℕ) → List ℕ
range_from zero start stop step = []
range_from (suc fuel) start stop step =
    let rest = range_from fuel (start + step) stop step in
    if ltb start stop then start ∷ rest else []

-- range(start, stop, step); it has `stop - start` numbers at most.
unfoldable pub range : (start stop step : ℕ) → Outcome (List ℕ)
range start stop step =
    if step == 0 then raised value_error else ok (range_from (stop - start) start stop step)

-- The dictionary that a request returns; a request below register 5000 returns no batteries.
abbrev pub register_block : Block → Dict ℕ ℕ
register_block (registers d) = d
register_block (batteries d) = []

-- The dictionary that a request from register 5000 on returns: batteries, or nothing.
abbrev pub battery_block : Block → Dict Bytes Battery
battery_block (registers d) = []
battery_block (batteries d) = d

-- {key: observed_at for key in d}
abbrev pub stamp {ℓ κ} : {K : Type ℓ} {V : Type κ} → ℕ → Dict K V → Dict K ℕ
stamp observed_at [] = []
stamp observed_at ((k, v) ∷ d) = (k, observed_at) ∷ stamp observed_at d

abbrev pub stamp_batteries : ℕ → Dict Bytes Battery → Dict Bytes (Dict BatteryKey ℕ)
stamp_batteries observed_at [] = []
stamp_batteries observed_at ((serial, regs) ∷ d) =
    (serial, stamp observed_at regs) ∷ stamp_batteries observed_at d

-- A request on the connection of the pass.
unfoldable pub request : Config → (reg : ℕ) → RequestType → (function_code : ℕ) → Exec Pass Block
request config reg request_type function_code self =
    let (line, outcome) = async_request_registers config reg request_type function_code self.line in
    (record self { line = line }, outcome)

-- _observed_now
unfoldable pub observed_now : Exec Pass ℕ
observed_now self =
    let world = self.world in
    (
      record self { world = record world { ticks = world.ticks + 1 } },
      require_aware_utc (world.clock world.ticks),
    )

-- The changes of the collected values, all of them updates.
abbrev pub on_newly : (Cache → Cache) → Exec Pass (Unit {0})
on_newly f = modify (λ self. record self { newly = f self.newly })

-- The values of an input block that is not empty, and then their times.
unfoldable pub accept_input : Dict ℕ ℕ → Exec Pass (Unit {0})
accept_input [] = return tt
accept_input (entry ∷ entries) = do
  on_newly
      (λ c. record c { last_good_input_regs = update c.last_good_input_regs (entry ∷ entries) })
  observed_at ← observed_now
  on_newly (λ c. record c {
    input_observed_at = update c.input_observed_at (stamp observed_at (entry ∷ entries));
  })

-- The same for a block of settings.
unfoldable pub accept_hold : Dict ℕ ℕ → Exec Pass (Unit {0})
accept_hold [] = return tt
accept_hold (entry ∷ entries) = do
  on_newly (λ c. record c { last_good_hold_regs = update c.last_good_hold_regs (entry ∷ entries) })
  observed_at ← observed_now
  on_newly (λ c. record c {
    hold_observed_at = update c.hold_observed_at (stamp observed_at (entry ∷ entries));
  })

-- The same for batteries, whose update by nothing changes nothing.
unfoldable pub accept_batteries : Dict Bytes Battery → Exec Pass (Unit {0})
accept_batteries [] = return tt
accept_batteries (entry ∷ entries) = do
  on_newly
      (λ c. record c { last_good_battery_data = update c.last_good_battery_data (entry ∷ entries) })
  observed_at ← observed_now
  on_newly (λ c. record c {
    battery_observed_at =
        update c.battery_observed_at (stamp_batteries observed_at (entry ∷ entries));
  })

unfoldable pub poll_input_block : Config → ℕ → Exec Pass (Unit {0})
poll_input_block config reg =
    request config reg input 4 >>= λ block. accept_input (register_block block)

unfoldable pub poll_hold_block : Config → ℕ → Exec Pass (Unit {0})
poll_hold_block config reg =
    request config reg hold 3 >>= λ block. accept_hold (register_block block)

unfoldable pub poll_battery_block : Config → ℕ → Exec Pass (Unit {0})
poll_battery_block config reg =
    request config reg input_bat 4 >>= λ block. accept_batteries (battery_block block)
