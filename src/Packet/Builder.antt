-- ===== src/Packet/Builder.antt =====
-- classes/lxp_request_builder.py: the packets of a register read and a single-register write.
-- Register numbers, counts and values are not negative here, so the guards' lower bound 0 is
-- given for nothing.
use luxpower_ha_integration.Base.{
  ℕ, ◌&&◌, Bool, [], ◌∷◌, ◌++◌, leb, ◌==◌, if◌then◌else◌, length, slice, bit_and, Outcome, ok,
  raised, value_error, ◌>>=◌, ◌>>◌,
}
use luxpower_ha_integration.Packet.Bytes.{Bytes, to_bytes}
use luxpower_ha_integration.Packet.Crc.{compute_crc}

-- The class constants.
abbrev pub prefix : Bytes
prefix = 0xA1 ∷ 0x1A ∷ []

abbrev pub protocol : ℕ
protocol = 1

abbrev pub frame_length : ℕ
frame_length = 32

abbrev pub data_length : ℕ
data_length = 18

abbrev pub translated_data : ℕ
translated_data = 194

abbrev pub action_write : ℕ
action_write = 0

abbrev pub write_single : ℕ
write_single = 6

-- `if not test: raise ValueError`
abbrev pub require : Bool → Outcome (Unit {0})
require test = if test then ok tt else raised value_error

unfoldable pub prepare_packet_for_read :
    (dongle_serial serial_number : Bytes) (start_register register_count function_code : ℕ)
    → Outcome Bytes
prepare_packet_for_read dongle_serial serial_number start_register register_count function_code = do
  require (length dongle_serial == 10)
  require (length serial_number == 10)
  require (leb start_register 0xFFFF)
  require (leb 1 register_count && leb register_count 0xFFFF)
  protocol_bytes ← to_bytes 2 protocol
  frame_length_bytes ← to_bytes 2 frame_length
  one_byte ← to_bytes 1 1
  translated_byte ← to_bytes 1 translated_data
  data_length_bytes ← to_bytes 2 data_length
  action_byte ← to_bytes 1 action_write
  function_byte ← to_bytes 1 function_code
  start_bytes ← to_bytes 2 start_register
  count_bytes ← to_bytes 2 register_count
  let buf =
      prefix
      ++ (protocol_bytes
          ++ (frame_length_bytes
              ++ (one_byte
                  ++ (translated_byte
                      ++ (dongle_serial
                          ++ (data_length_bytes
                              ++ (action_byte
                                  ++ (function_byte
                                      ++ (serial_number ++ (start_bytes ++ count_bytes))))))))))
  crc_bytes ← to_bytes 2 (compute_crc (slice 20 36 buf))
  ok (buf ++ crc_bytes)

unfoldable pub prepare_packet_for_write :
    (dongle_serial serial_number : Bytes) (register value : ℕ) → Outcome Bytes
prepare_packet_for_write dongle_serial serial_number register value = do
  require (length dongle_serial == 10)
  require (length serial_number == 10)
  protocol_bytes ← to_bytes 2 protocol
  frame_length_bytes ← to_bytes 2 frame_length
  one_byte ← to_bytes 1 1
  translated_byte ← to_bytes 1 translated_data
  data_length_bytes ← to_bytes 2 data_length
  action_byte ← to_bytes 1 action_write
  function_byte ← to_bytes 1 write_single
  register_bytes ← to_bytes 2 register
  value_bytes ← to_bytes 2 (bit_and value 0xFFFF)
  let buf =
      prefix
      ++ (protocol_bytes
          ++ (frame_length_bytes
              ++ (one_byte
                  ++ (translated_byte
                      ++ (dongle_serial
                          ++ (data_length_bytes
                              ++ (action_byte
                                  ++ (function_byte
                                      ++ (serial_number ++ (register_bytes ++ value_bytes))))))))))
  crc_bytes ← to_bytes 2 (compute_crc (slice 20 36 buf))
  ok (buf ++ crc_bytes)
