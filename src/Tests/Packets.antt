-- ===== src/Tests/Packets.antt =====
-- Packets, checksums and registers: runs, and the theorems at concrete packets.
use luxpower_ha_integration.Base.{
  ◌+◌, ◌%◌, ◌≤◌, ◌<◌, ◌≡◌, refl, arith, false, some, [], ◌∷◌, ◌++◌, length, slice, ok, raised,
  index_error,
}
use luxpower_ha_integration.Base.Dict.{nat_eq, lookup}
use luxpower_ha_integration.Packet.Bytes.{Bytes, little_endian}
use luxpower_ha_integration.Packet.Crc.{compute_crc, compute_crc_residue}
use luxpower_ha_integration.Packet.Builder.{
  write_single, prepare_packet_for_read, prepare_packet_for_write,
}
use luxpower_ha_integration.Packet.Response
use luxpower_ha_integration.Packet.Response.{
  LxpResponse, unparsed, parse, declared_length, parsed_values_dictionary,
}
use luxpower_ha_integration.Packet.Response.Parsing.{Sound, parse_raises, parse-Sound}
use luxpower_ha_integration.Packet.Response.Extension.{parse-append}
use luxpower_ha_integration.Packet.Response.RoundTrip.{
  Carries, parse-prepare_packet_for_read, parse-prepare_packet_for_write,
}
use luxpower_ha_integration.Packet.Response.Registers.{word_at, lookup-parsed_values_dictionary}
use luxpower_ha_integration.Packet.Response.ShortFrame.{parse-short_frame}
use luxpower_ha_integration.Tests.{dongle, inverter, hold_packet, ack_packet}

-- What the parser makes of the packet of the holding registers.
abbrev hold_response : LxpResponse
hold_response = record unparsed {
  packet_error = false;
  protocol_number = some 2;
  tcp_function = some 194;
  register = some 0;
  device_function = some 3;
  frame_length = some 35;
  data_length = some 21;
  packet_length_calced = some 41;
  dongle_serial = some dongle;
  serial_number = some inverter;
  value = 100 ∷ 0 ∷ 44 ∷ 1 ∷ [];
  address_action = some 0;
  data_frame = slice 20 39 hold_packet;
  crc_modbus = some 59380;
}

hold_packet_parses : parse hold_packet ≡ ok hold_response
unfolding Response.program
hold_packet_parses = refl

hold_values : parsed_values_dictionary hold_response ≡ (0, 100) ∷ (1, 300) ∷ []
unfolding Response.program
hold_values = refl

write_request : prepare_packet_for_write dongle inverter 64 100 ≡ ok ack_packet
unfolding prepare_packet_for_write compute_crc
write_request = refl

compute_crc_residue_example :
    compute_crc ((1 ∷ 255 ∷ 7 ∷ []) ++ little_endian 2 (compute_crc (1 ∷ 255 ∷ 7 ∷ []))) ≡ 0
compute_crc_residue_example =
    compute_crc_residue (1 ∷ 255 ∷ 7 ∷ []) (omega arith, (omega arith, (omega arith, tt)))

parse-prepare_packet_for_write_example :
    (p : Bytes) × (r : LxpResponse) × (prepare_packet_for_write dongle inverter 64 100 ≡ ok p)
    × (parse p ≡ ok r)
    × Carries dongle inverter write_single 64 (100 % 65536) r
parse-prepare_packet_for_write_example =
    parse-prepare_packet_for_write dongle inverter 64 100 refl refl (omega arith)

parse-prepare_packet_for_read_example :
    (p : Bytes) × (r : LxpResponse) × (prepare_packet_for_read dongle inverter 0 125 3 ≡ ok p)
    × (parse p ≡ ok r)
    × Carries dongle inverter 3 0 125 r
parse-prepare_packet_for_read_example =
    parse-prepare_packet_for_read dongle inverter 0 125 3 refl refl (omega arith) (omega arith)
      (omega arith) (omega arith)

parse-Sound_example : Sound hold_packet hold_response
parse-Sound_example = parse-Sound hold_packet hold_response hold_packet_parses refl refl

parse-append_example : parse (hold_packet ++ 161 ∷ 26 ∷ []) ≡ ok hold_response
parse-append_example =
    parse-append hold_packet (161 ∷ 26 ∷ []) hold_response hold_packet_parses refl refl

-- A packet that declares an empty data frame.
abbrev short_packet : Bytes
short_packet =
    0xA1 ∷ 0x1A ∷ 1 ∷ 0 ∷ 4 ∷ 0 ∷ 1 ∷ 194 ∷ 0xFF ∷ 0xFF ∷ 0 ∷ 0 ∷ 0 ∷ 0 ∷ 0 ∷ 0 ∷ 0 ∷ 0 ∷ 0 ∷ 0 ∷ 0
    ∷ 0 ∷ 0 ∷ 0 ∷ 0 ∷ 0 ∷ 0 ∷ 0 ∷ 0 ∷ 0 ∷ 0 ∷ 0 ∷ 0 ∷ 0 ∷ 0 ∷ 0 ∷ 0 ∷ []

short_packet_raises : parse short_packet ≡ raised index_error
unfolding Response.program
short_packet_raises = refl

parse_raises_example :
    (index_error ≡ index_error) × (declared_length short_packet < 37) × (37 ≤ length short_packet)
parse_raises_example = parse_raises short_packet index_error short_packet_raises

parse-short_frame_example : parse short_packet ≡ raised index_error
parse-short_frame_example =
    parse-short_frame 1 0 1
      (0 ∷ 0 ∷ 0 ∷ 0 ∷ 0 ∷ 0 ∷ 0 ∷ 0 ∷ 0 ∷ 0 ∷ 0 ∷ 0 ∷ 0 ∷ 0 ∷ 0 ∷ 0 ∷ 0 ∷ 0 ∷ 0 ∷ 0 ∷ 0 ∷ 0 ∷ 0 ∷ 0
        ∷ 0 ∷ 0 ∷ 0 ∷ [])
      (omega arith)

lookup-parsed_values_dictionary_example :
    lookup (0 + 1) (parsed_values_dictionary hold_response) ≡ word_at (100 ∷ 0 ∷ 44 ∷ 1 ∷ []) 1
lookup-parsed_values_dictionary_example =
    lookup-parsed_values_dictionary hold_response 0 1 refl refl refl
      (omega arith, (omega arith, (omega arith, (omega arith, tt))))
