-- ===== src/Tests/Devices.antt =====
-- Discovery, texts and entities: runs, and the theorems at concrete inputs.
use luxpower_ha_integration.Base.{ℕ, ◌≡◌, refl, true, [], ◌∷◌, ok, timeout_error, some}
use luxpower_ha_integration.Base.Dict.{Dict, nat_eq, contains}
use luxpower_ha_integration.Packet.Bytes.{Bytes}
use luxpower_ha_integration.Stream.{Script, received, fails}
use luxpower_ha_integration.Utils
use luxpower_ha_integration.Utils.{set_bits}
use luxpower_ha_integration.Utils.Texts.{lstrip, rstrip, decode_model_from_registers}
use luxpower_ha_integration.Client.{init}
use luxpower_ha_integration.Client.Poll.Coherent.{Coherent}
use luxpower_ha_integration.Client.Fetch.{snapshot}
use luxpower_ha_integration.Client.Write
use luxpower_ha_integration.Client.Write.Confirmed.{Echoed}
use luxpower_ha_integration.Discovery.{model, get_inverter_model_from_device}
use luxpower_ha_integration.Discovery.Model.{Reported, get_inverter_model_from_device-Reported}
use luxpower_ha_integration.Entity.{Bridge, current_value, write_composed}
use luxpower_ha_integration.Entity.Siblings.{Siblings, write_composed-Siblings}
use luxpower_ha_integration.Tests.{dongle, inverter, config, ack_packet}

-- A read of the holding registers 7 and 8.
abbrev model_packet : Bytes
model_packet =
    161 ∷ 26 ∷ 2 ∷ 0 ∷ 35 ∷ 0 ∷ 1 ∷ 194 ∷ 66 ∷ 65 ∷ 49 ∷ 50 ∷ 51 ∷ 52 ∷ 53 ∷ 54 ∷ 55 ∷ 56 ∷ 21 ∷ 0
    ∷ 0 ∷ 3 ∷ 51 ∷ 49 ∷ 50 ∷ 51 ∷ 52 ∷ 53 ∷ 54 ∷ 55 ∷ 56 ∷ 57 ∷ 7 ∷ 0 ∷ 4 ∷ 65 ∷ 70 ∷ 66 ∷ 67 ∷ 196
    ∷ 175 ∷ []

abbrev model_stream : Script
model_stream = received model_packet ∷ []

-- The text FACB.
model_is_read :
    get_inverter_model_from_device (ok model_stream) dongle inverter
    ≡ model (70 ∷ 65 ∷ 67 ∷ 66 ∷ [])
unfolding Write.program get_inverter_model_from_device decode_model_from_registers lstrip rstrip
model_is_read = refl

get_inverter_model_from_device-Reported_example : Reported model_stream (70 ∷ 65 ∷ 67 ∷ 66 ∷ [])
get_inverter_model_from_device-Reported_example =
    get_inverter_model_from_device-Reported model_stream dongle inverter (70 ∷ 65 ∷ 67 ∷ 66 ∷ [])
      model_is_read

abbrev model_registers : Dict ℕ ℕ
model_registers = (7, 8257) ∷ (8, 32) ∷ []

-- The acknowledgement has 100 at register 64, which is 68 with the bit 5 set.
abbrev bridge : Bridge
bridge = record {
  shown = record { input = []; hold = (64, 68) ∷ []; battery = [] };
  client = init;
  world = record {
    connections = ok (fails timeout_error ∷ received ack_packet ∷ []) ∷ [];
    clock = λ n. some n;
    unix_time = λ n. n;
    ticks = 0;
  };
}

bit_is_written : (write_composed config 64 (λ current. set_bits current 5 1 1) bridge).1 ≡ ok true
unfolding Write.program Utils.program write_composed
bit_is_written = refl

start-Coherent : Coherent bridge.client.cache
unfolding contains
start-Coherent = record { input_ = λ j. refl; hold_ = λ j. refl; battery_ = λ j. refl }

write_composed-Siblings_example :
    (value : ℕ) × Siblings (current_value 64 bridge) 5 1 1 value
    × Echoed bridge.world.connections 64 value
    × ((write_composed config 64 (λ current. set_bits current 5 1 1) bridge).0.shown
        ≡ snapshot
            (write_composed config 64 (λ current. set_bits current 5 1 1) bridge).0.client.cache)
write_composed-Siblings_example =
    write_composed-Siblings config 64 5 1 1 bridge start-Coherent bit_is_written
