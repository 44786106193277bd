-- ===== src/Client/Write.antt =====
-- classes/modbus_client.py: async_write_register, its attempts, the judgement of the
-- acknowledgement, and the re-read of the settings block behind a confirmed write.
pub mod Confirmed
pub mod Effects
pub mod Register
use luxpower_ha_integration.Base.{
  is_cancellation, ℕ, zero, suc, ◌+◌, ◌*◌, ◌/◌, Bool, true, false, not, ◌&&◌, ◌||◌, Option, none,
  some, List, [], ◌∷◌, leb, ltb, ◌==◌, if◌then◌else◌, is_empty, Outcome, Exception, ok, raised,
  timeout_error, connection_error, os_error, value_error,
}
use luxpower_ha_integration.Base.Dict.{Dict, nat_eq, lookup, put, remove, update}
use luxpower_ha_integration.Base.Exec.{Exec, return, lift, ◌>>=◌, ◌>>◌}
use luxpower_ha_integration.Packet.Bytes.{Bytes}
use luxpower_ha_integration.Packet.Builder.{prepare_packet_for_read, prepare_packet_for_write}
use luxpower_ha_integration.Packet.Response.{LxpResponse, parse, parsed_values_dictionary}
use luxpower_ha_integration.PacketRecovery
use luxpower_ha_integration.PacketRecovery.{length_value}
use luxpower_ha_integration.Validator.{hold, is_data_sane, all_sane, member}
use luxpower_ha_integration.Stream.{Script, read}
use luxpower_ha_integration.Client.{
  Cache, Client, Config, Line, World, async_connect, require_aware_utc,
}
use luxpower_ha_integration.Client.Cycle.{request_hold_refresh}
use luxpower_ha_integration.Client.Request.{
  write, receive, async_safe_packet_recovery, async_request_registers,
}
use luxpower_ha_integration.Client.Pass.{register_block, stamp}
use luxpower_ha_integration.Client.Poll.{async_discard_initial_data}
use luxpower_ha_integration.Client.Fetch.{is_retried}

abbrev pub write_response_length : ℕ
write_response_length = 76

-- True, False and None of a write attempt.
pub data Verdict : Type 0 where
  confirmed failed rejected : Verdict

-- received_value == value, where `none` is a missing register
abbrev pub echoes : Option ℕ → ℕ → Bool
echoes none value = false
echoes (some received_value) value = received_value == value

-- What _evaluate_write_response returns for a parsed response.
abbrev pub judge : LxpResponse → (register value : ℕ) → Verdict
judge response register value =
    if leb 0x80 (length_value response.device_function) || not (response.exception == 0)
    then rejected
    else if response.packet_error
    then failed
    else if echoes (lookup register (parsed_values_dictionary response)) value
    then confirmed
    else failed

-- The cache's holding register behind a confirmed write, without the time of the old value.
abbrev pub accept_value : (register value : ℕ) → Cache → Cache
accept_value register value cache = record cache {
  last_good_hold_regs = put register value cache.last_good_hold_regs;
  hold_observed_at = remove register cache.hold_observed_at;
}

abbrev pub on_verdict : (register value : ℕ) → Verdict → Cache → Cache
on_verdict register value confirmed cache = accept_value register value cache
on_verdict register value failed cache = cache
on_verdict register value rejected cache = cache

-- _evaluate_write_response
unfoldable pub evaluate_write_response :
    (response_buf : Bytes) (register value : ℕ) → Cache → Cache × Outcome Verdict
evaluate_write_response [] register value cache = (cache, ok failed)
evaluate_write_response (b ∷ bs) register value cache = elim (parse (b ∷ bs)) [
  | raised e ↦ (cache, raised e)
  | ok response ↦
      let verdict = judge response register value in
      (on_verdict register value verdict cache, ok verdict)
]

-- The state of an attempt on an open connection.
pub record Writing : Type 0 where
  pub client : Client
  pub world : World
  pub line : Line

abbrev pub on_client : (Client → Client) → Writing → Writing
on_client f self = record self { client = f self.client }

abbrev pub on_cache : (Cache → Cache) → Writing → Writing
on_cache f = on_client (λ c. record c { cache = f c.cache })

-- self.request_hold_refresh()
abbrev pub refresh_later : Writing → Writing
refresh_later = on_client (λ c. record c { cadence = request_hold_refresh c.cadence })

-- The re-read values, and then their times.
abbrev pub store_block : Dict ℕ ℕ → Writing → Writing
store_block reg_block self =
    on_cache (λ c. record c { last_good_hold_regs = update c.last_good_hold_regs reg_block })
      (record self { world = record self.world { ticks = self.world.ticks + 1 } })

abbrev pub stamp_block : Dict ℕ ℕ → Writing → Outcome ℕ → Writing × Outcome (Unit {0})
stamp_block reg_block self (raised e) = (self, raised e)
stamp_block reg_block self (ok observed_at) = (
  on_cache
      (λ c. record c { hold_observed_at = update c.hold_observed_at (stamp observed_at reg_block) })
      self,
  ok tt,
)

-- The end of the re-read, behind its request. TimeoutError and ConnectionResetError are OSErrors.
unfoldable pub after_reread : Writing → Outcome (Dict ℕ ℕ) → Writing × Outcome (Unit {0})
after_reread self (raised e) =
    if is_retried e then (refresh_later self, ok tt) else (self, raised e)
after_reread self (ok []) = (refresh_later self, ok tt)
after_reread self (ok (entry ∷ entries)) =
    stamp_block (entry ∷ entries) (store_block (entry ∷ entries) self)
      (require_aware_utc (self.world.clock self.world.ticks))

-- _async_reread_hold_block. A block size of zero raises ZeroDivisionError, here a value_error.
unfoldable pub async_reread_hold_block : Config → (register : ℕ) → Exec Writing (Unit {0})
async_reread_hold_block config register self =
    let block_start = register / config.block_size * config.block_size in
    let asked = async_request_registers config block_start hold 3 self.line in
    if config.block_size == 0
    then (self, raised value_error)
    else after_reread (record self { line = asked.0 })
        (elim asked.1 [ ok block ↦ ok (register_block block) | raised e ↦ raised e ])

-- A step on the connection of a write attempt.
abbrev pub on_line : {A : Type 0} → Exec Line A → Exec Writing A
on_line m self = let (line, outcome) = m self.line in (record self { line = line }, outcome)

unfoldable pub skip_initial_data : Config → Exec Line (Unit {0})
skip_initial_data config line =
    let (later, outcome) = async_discard_initial_data config line.stream in
    (record line { stream = later }, outcome)

-- The `try` block: what the inverter answers.
unfoldable pub exchange : Config → (register value : ℕ) → Exec Line Bytes
exchange config register value = do
  skip_initial_data config
  req ← lift (prepare_packet_for_write config.dongle_serial config.inverter_serial register value)
  write req
  receive write_response_length

-- if result is True: await self._async_reread_hold_block(...); return result
abbrev pub reread_if_confirmed : Config → (register : ℕ) → Verdict → Exec Writing Verdict
reread_if_confirmed config register confirmed =
    async_reread_hold_block config register >> return confirmed
reread_if_confirmed config register verdict = return verdict

abbrev pub evaluate : (register value : ℕ) → Bytes → Exec Writing Verdict
evaluate register value response_buf self =
    let (cache', outcome) = evaluate_write_response response_buf register value self.client.cache in
    (on_cache (λ _. cache') self, outcome)

-- The `except asyncio.TimeoutError` and the `else` of the `try`.
abbrev pub after_exchange :
    Config → (register value : ℕ) → Writing × Outcome Bytes → Writing × Outcome Verdict
after_exchange config register value (self, raised timeout_error) = (self, ok failed)
after_exchange config register value (self, raised e) = (self, raised e)
after_exchange config register value (self, ok response_buf) =
    (evaluate register value response_buf >>= reread_if_confirmed config register) self

abbrev pub end_write : Writing × Outcome Verdict → (Client × World) × Outcome Verdict
end_write (self, outcome) =
    ((record self.client { packet_recovery = self.line.packet_recovery }, self.world), outcome)

-- The attempt, behind the attempt to connect.
abbrev pub write_connected :
    Config
    → (register value : ℕ) → Client
    → World × Outcome Script
    → (Client × World) × Outcome Verdict
write_connected config register value self (world, raised e) =
    ((self, world), if is_retried e then ok failed else raised e)
write_connected config register value self (world, ok stream) = end_write (
    after_exchange config register value (
      on_line (exchange config register value) (record {
        client = self;
        world = world;
        line = record { packet_recovery = self.packet_recovery; stream = stream; sent = [] };
      })))

-- _async_write_once
unfoldable pub async_write_once : Config → (register value : ℕ) → Exec (Client × World) Verdict
async_write_once config register value (self, world) =
    write_connected config register value self (async_connect world)

-- An attempt's result, over the later attempts. An exception is logged, but a cancellation passes.
abbrev pub after_write :
    (rest : Exec (Client × World) Bool)
    → (Client × World) × Outcome Verdict
    → (Client × World) × Outcome Bool
after_write rest (state, ok confirmed) = (state, ok true)
after_write rest (state, ok rejected) = (state, ok false)
after_write rest (state, ok failed) = rest state
after_write rest (state, raised e) = if is_cancellation e then (state, raised e) else rest state

-- The attempts of async_write_register, `left` of them.
unfoldable pub write_attempts : Config → (register value left : ℕ) → Exec (Client × World) Bool
write_attempts config register value zero state = (state, ok false)
write_attempts config register value (suc left) state =
    after_write (write_attempts config register value left)
      (async_write_once config register value state)

unfoldable pub async_write_register : Config → (register value : ℕ) → Exec (Client × World) Bool
async_write_register config register value state =
    write_attempts config register value config.connection_retries state

-- Named on the `unfolding` line of a test, this opens a write and all that it calls.
unfoldable pub program : Unit {0}
unfolding PacketRecovery.program async_connect write receive async_safe_packet_recovery
    async_request_registers async_discard_initial_data request_hold_refresh prepare_packet_for_read
    prepare_packet_for_write is_data_sane all_sane member evaluate_write_response after_reread
    async_reread_hold_block skip_initial_data exchange async_write_once write_attempts
    async_write_register lookup put remove update
program = tt
