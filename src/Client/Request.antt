-- ===== src/Client/Request.antt =====
-- classes/modbus_client.py: async_request_registers, one request and its response on a connection.
pub mod Accepts
use luxpower_ha_integration.Base.{
  ℕ, ◌+◌, ◌-◌, ◌*◌, Bool, true, false, not, ◌&&◌, Option, none, some, List, [], ◌∷◌, ◌++◌, ltb, leb,
  ◌==◌, if◌then◌else◌, length, min, Outcome, ok, raised,
}
use luxpower_ha_integration.Base.Dict.{Dict}
use luxpower_ha_integration.Base.Exec.{Exec, return, lift, ◌>>=◌, ◌>>◌}
use luxpower_ha_integration.Packet.Bytes.{Bytes, bytes_beq}
use luxpower_ha_integration.Packet.Builder.{prepare_packet_for_read}
use luxpower_ha_integration.Packet.Response.{
  LxpResponse, response_overhead, parse, parsed_values_dictionary,
}
use luxpower_ha_integration.PacketRecovery.{length_value, async_attempt_recovery}
use luxpower_ha_integration.Validator.{RequestType, is_data_sane}
use luxpower_ha_integration.Batteries.{Battery, battery_info_start_register, get_battery_info}
use luxpower_ha_integration.Stream.{read}
use luxpower_ha_integration.Client.{Config, Line, total_registers}

-- What a request returns: registers, or batteries.
pub data Block : Type 0 where
  registers : Dict ℕ ℕ → Block
  batteries : Dict Bytes Battery → Block

-- writer.write(req); await writer.drain()
unfoldable pub write : Bytes → Exec Line (Unit {0})
write req line = (record line { sent = line.sent ++ req ∷ [] }, ok tt)

-- await asyncio.wait_for(reader.read(n), timeout=…)
unfoldable pub receive : ℕ → Exec Line Bytes
receive n line =
    let (outcome, later) = read n line.stream in (record line { stream = later }, outcome)

-- async_safe_packet_recovery
unfoldable pub async_safe_packet_recovery : Bytes → (expected_length : ℕ) → Exec Line LxpResponse
async_safe_packet_recovery response_buf expected_length line =
    let (handler, outcome, later) =
      async_attempt_recovery line.packet_recovery line.stream response_buf expected_length in
    (record line { packet_recovery = handler; stream = later }, outcome)

-- `a == b`, where `none` is -1
abbrev pub equals : ℕ → Option ℕ → Bool
equals m none = false
equals m (some n) = m == n

-- response.serial_number == self._inverter_serial.encode(), where `none` is None
abbrev pub is_serial : Option Bytes → Bytes → Bool
is_serial none serial = false
is_serial (some s) serial = bytes_beq s serial

-- The tests on a response.
abbrev pub accepts : Config → (reg : ℕ) → RequestType → (function_code : ℕ) → LxpResponse → Bool
accepts config reg request_type function_code response =
    not response.packet_error
    && is_serial response.serial_number config.inverter_serial
    && equals function_code response.device_function
    && equals reg response.register
    && is_data_sane (parsed_values_dictionary response) request_type

-- The part behind the recovery.
abbrev pub block_of :
    Config → (reg : ℕ) → RequestType → (function_code : ℕ) → LxpResponse → Outcome Block
block_of config reg request_type function_code response =
    if accepts config reg request_type function_code response
    then (if leb battery_info_start_register (length_value response.register)
        then elim (get_battery_info response) [ ok b ↦ ok (batteries b) | raised e ↦ raised e ]
        else ok (registers (parsed_values_dictionary response)))
    else ok (registers [])

abbrev pub register_count : Config → ℕ → ℕ
register_count config reg =
    if ltb reg battery_info_start_register
    then min config.block_size (total_registers - reg)
    else config.block_size

-- response.packet_error and response.packet_length_calced > expected_length
abbrev pub needs_recovery : LxpResponse → ℕ → Bool
needs_recovery response expected_length =
    response.packet_error && ltb expected_length (length_value response.packet_length_calced)

abbrev pub recover_if_needed : Bytes → (expected_length : ℕ) → LxpResponse → Exec Line LxpResponse
recover_if_needed response_buf expected_length first =
    if needs_recovery first expected_length
    then async_safe_packet_recovery response_buf expected_length
    else return first

-- The part behind the read.
abbrev pub respond :
    Config → (reg : ℕ) → RequestType → (function_code expected_length : ℕ) → Bytes → Exec Line Block
respond config reg request_type function_code expected_length response_buf =
    if not (ltb response_overhead (length response_buf))
    then return (registers [])
    else (lift (parse response_buf)
        >>= recover_if_needed response_buf expected_length
        >>= λ response. lift (block_of config reg request_type function_code response))

unfoldable pub async_request_registers :
    Config → (reg : ℕ) → RequestType → (function_code : ℕ) → Exec Line Block
async_request_registers config reg request_type function_code = do
  let count = register_count config reg
  let expected_length = response_overhead + count * 2
  req ←
      lift (
        prepare_packet_for_read config.dongle_serial config.inverter_serial reg count function_code)
  write req
  response_buf ← receive expected_length
  respond config reg request_type function_code expected_length response_buf
