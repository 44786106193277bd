-- ===== src/Tests.antt =====
-- Runs of the definitions on concrete packets and connections, and the theorems at such inputs.
mod Packets
mod Streams
mod Values
mod Polls
mod Devices
mod Recoveries
mod Sessions
use luxpower_ha_integration.Base.{ℕ, List, [], ◌∷◌, true, false}
use luxpower_ha_integration.Packet.Bytes.{Bytes}
use luxpower_ha_integration.Client.{Config}

-- The serial numbers BA12345678 and 3123456789.
abbrev pub dongle : Bytes
dongle = 66 ∷ 65 ∷ 49 ∷ 50 ∷ 51 ∷ 52 ∷ 53 ∷ 54 ∷ 55 ∷ 56 ∷ []

abbrev pub inverter : Bytes
inverter = 51 ∷ 49 ∷ 50 ∷ 51 ∷ 52 ∷ 53 ∷ 54 ∷ 55 ∷ 56 ∷ 57 ∷ []

-- A read of the holding registers 0 and 1, which are 100 and 300.
abbrev pub hold_packet : Bytes
hold_packet =
    161 ∷ 26 ∷ 2 ∷ 0 ∷ 35 ∷ 0 ∷ 1 ∷ 194 ∷ 66 ∷ 65 ∷ 49 ∷ 50 ∷ 51 ∷ 52 ∷ 53 ∷ 54 ∷ 55 ∷ 56 ∷ 21 ∷ 0
    ∷ 0 ∷ 3 ∷ 51 ∷ 49 ∷ 50 ∷ 51 ∷ 52 ∷ 53 ∷ 54 ∷ 55 ∷ 56 ∷ 57 ∷ 0 ∷ 0 ∷ 4 ∷ 100 ∷ 0 ∷ 44 ∷ 1 ∷ 244
    ∷ 231 ∷ []

-- The acknowledgement of a write of 100 to register 64.
abbrev pub ack_packet : Bytes
ack_packet =
    161 ∷ 26 ∷ 1 ∷ 0 ∷ 32 ∷ 0 ∷ 1 ∷ 194 ∷ 66 ∷ 65 ∷ 49 ∷ 50 ∷ 51 ∷ 52 ∷ 53 ∷ 54 ∷ 55 ∷ 56 ∷ 18 ∷ 0
    ∷ 0 ∷ 6 ∷ 51 ∷ 49 ∷ 50 ∷ 51 ∷ 52 ∷ 53 ∷ 54 ∷ 55 ∷ 56 ∷ 57 ∷ 64 ∷ 0 ∷ 100 ∷ 0 ∷ 73 ∷ 72 ∷ []

abbrev pub config : Config
config = record {
  dongle_serial = dongle;
  inverter_serial = inverter;
  block_size = 2;
  connection_retries = 3;
  skip_initial_data = true;
  request_battery_data = false;
  battery_serials_configured = false;
}
