-- ===== src/Discovery.antt =====
-- classes/inverter_discovery.py: reading the model over a connection of its own.
pub mod Model
use luxpower_ha_integration.Base.{
  ℕ, Bool, true, false, List, [], ◌∷◌, if◌then◌else◌, Outcome, Exception, ok, raised,
}
use luxpower_ha_integration.Packet.Bytes.{Bytes}
use luxpower_ha_integration.Packet.Builder.{prepare_packet_for_read}
use luxpower_ha_integration.Packet.Response.{LxpResponse, parse, parsed_values_dictionary}
use luxpower_ha_integration.Stream.{Script, read}
use luxpower_ha_integration.Client.Fetch.{is_retried}
use luxpower_ha_integration.Utils.Texts.{decode_model_from_registers}

-- The model, CannotConnect or InvalidResponse, or an exception that is let through.
pub data Discovered : Type 0 where
  model : List ℕ → Discovered
  cannot_connect invalid_response : Discovered
  escapes : Exception → Discovered

-- Timeouts and OSError become CannotConnect.
abbrev pub connection_failed : Exception → Discovered
connection_failed e = if is_retried e then cannot_connect else escapes e

abbrev pub model_of : List ℕ → Discovered
model_of [] = invalid_response
model_of (c ∷ cs) = model (c ∷ cs)

-- What follows the `try` block.
abbrev pub judge_response : Outcome LxpResponse → Discovered
judge_response (raised e) = escapes e
judge_response (ok response) =
    if response.packet_error
    then invalid_response
    else model_of (decode_model_from_registers (parsed_values_dictionary response))

abbrev pub judge_answer : Outcome Bytes → Discovered
judge_answer (raised e) = connection_failed e
judge_answer (ok []) = invalid_response
judge_answer (ok (b ∷ bs)) = judge_response (parse (b ∷ bs))

abbrev pub ask : Outcome Bytes → Script → Discovered
ask (raised e) stream = connection_failed e
ask (ok req) stream = judge_answer (read 512 stream).0

-- get_inverter_model_from_device, with what `asyncio.open_connection` gives
unfoldable pub get_inverter_model_from_device :
    (connected : Outcome Script) (dongle_serial inverter_serial : Bytes) → Discovered
get_inverter_model_from_device (raised e) dongle_serial inverter_serial = connection_failed e
get_inverter_model_from_device (ok stream) dongle_serial inverter_serial =
    ask (prepare_packet_for_read dongle_serial inverter_serial 7 2 3) stream
