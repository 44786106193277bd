-- ===== src/Packet/Response.antt =====
-- classes/lxp_response.py: parsing a packet, and the registers that it carries. The attribute
-- value -1 (or an attribute that is not yet set) is `none`. An index past the end of the data
-- frame raises `IndexError`, as it does in the source; a slice past the end is cut.
pub mod Parsing
pub mod Extension
pub mod Layout
pub mod RoundTrip
pub mod Registers
pub mod Calced
pub mod ShortFrame
use luxpower_ha_integration.Base.{
  ℕ, zero, suc, ◌+◌, ◌-◌, ◌*◌, ◌%◌, ◌≡◌, refl, Bool, true, false, not, ◌&&◌, ◌||◌, Option, none,
  some, List, [], ◌∷◌, arith, ltb, leb, ◌==◌, if◌then◌else◌, length, get_elem?, slice, drop, bit_or,
  Outcome, ok, raised, index_error, ◌>>=◌,
}
use luxpower_ha_integration.Base.Dict.{Dict}
use luxpower_ha_integration.Packet.Bytes.{Bytes, bytes_beq, from_bytes}
use luxpower_ha_integration.Packet.Builder.{prefix, translated_data}
use luxpower_ha_integration.Packet.Crc.{compute_crc}

-- `error_type`, with the numbers that its text shows.
pub data ErrorType : Type 0 where
  no_error packet_too_small missing_header translated_too_small small_193 : ErrorType
  wrong_length : (expected received : ℕ) → ErrorType
  wrong_crc : (calculated received : ℕ) → ErrorType
  unsupported : (tcp_function : ℕ) → ErrorType
  unsupported_wrong_crc : (tcp_function calculated received : ℕ) → ErrorType

pub record LxpResponse : Type 0 where
  pub packet_error : Bool
  pub error_type : ErrorType
  pub exception : ℕ
  pub protocol_number : Option ℕ
  pub tcp_function : Option ℕ
  pub register : Option ℕ
  pub device_function : Option ℕ
  pub frame_length : Option ℕ
  pub data_length : Option ℕ
  pub packet_length_calced : Option ℕ
  pub dongle_serial : Option Bytes
  pub serial_number : Option Bytes
  pub value : Bytes
  pub address_action : Option ℕ
  pub data_frame : Bytes
  pub crc_modbus : Option ℕ

-- The attributes before the packet is looked at.
abbrev pub unparsed : LxpResponse
unparsed = record {
  packet_error = true;
  error_type = no_error;
  exception = 0;
  protocol_number = none;
  tcp_function = none;
  register = none;
  device_function = none;
  frame_length = none;
  data_length = none;
  packet_length_calced = none;
  dongle_serial = none;
  serial_number = none;
  value = [];
  address_action = none;
  data_frame = [];
  crc_modbus = none;
}

-- RESPONSE_OVERHEAD of const.py.
abbrev pub response_overhead : ℕ
response_overhead = 37

-- `xs[i]`
abbrev pub index : Bytes → ℕ → Outcome ℕ
index xs i = elim (get_elem? xs i) [ none ↦ raised index_error | some b ↦ ok b ]

-- int.from_bytes(packet[4:6], 'little') + 6
abbrev pub declared_length : Bytes → ℕ
declared_length packet = from_bytes (slice 4 6 packet) + 6

-- __get_data_frame. Its slice ends at `start + (packet_length_calced - 2 - start)`, that is at
-- `packet_length_calced - 2`, which is 4 at least; it is empty if that lies before `start`.
pub get_data_frame : LxpResponse → Bytes → (packet_length start : ℕ) → LxpResponse × Bool
get_data_frame self packet packet_length start =
    let frame = slice start (packet_length - 2) packet in
    let received = from_bytes (slice (packet_length - 2) packet_length packet) in
    let read = record self { data_frame = frame; crc_modbus = some received } in
    if not (compute_crc frame == received)
    then (
      record read { error_type = wrong_crc (compute_crc frame) received; packet_error = true },
      false,
    )
    else (read, true)

-- The value part of a data frame whose header is read.
pub read_value : LxpResponse → (protocol function : ℕ) → Bytes → Outcome LxpResponse
read_value self protocol function frame =
    if (protocol == 2 || protocol == 5) && (not (function == 6) && ltb function 0x80)
    then (do
      value_length ← index frame 14
      ok (record self { value = slice 15 (15 + value_length) frame; packet_error = false }))
    else if leb 0x80 function
    then (do
      code ← index frame 14
      ok (record self { value = []; exception = code; packet_error = false }))
    else ok (record self { value = slice 14 16 frame; packet_error = false })

-- The fields of a data frame whose checksum is right.
pub read_frame : LxpResponse → (protocol : ℕ) → Bytes → Outcome LxpResponse
read_frame self protocol frame = do
  action ← index frame 0
  function ← index frame 1
  let self' = record self {
    address_action = some action;
    device_function = some function;
    serial_number = some (slice 2 12 frame);
    register = some (from_bytes (slice 12 14 frame));
  }
  read_value self' protocol function frame

pub parse_translated : LxpResponse → Bytes → (protocol packet_length : ℕ) → Outcome LxpResponse
parse_translated self packet protocol packet_length =
    if ltb (length packet) response_overhead
    then ok (record self { error_type = translated_too_small })
    else let self' = record self {
      dongle_serial = some (slice 8 18 packet);
      data_length = some (from_bytes (slice 18 20 packet));
    } in
      let (framed, right) = get_data_frame self' packet packet_length 20 in
      if right then read_frame framed protocol framed.data_frame else ok framed

-- Function 193: messages between the dongle and the vendor's servers.
pub parse_193 : LxpResponse → Bytes → LxpResponse
parse_193 self packet =
    if ltb (length packet) 19 then record self { error_type = small_193 } else record self {
      dongle_serial = some (slice 8 18 packet);
      value = drop 18 packet;
      packet_error = false;
    }

-- `error_type` with the tcp function in front of what `__get_data_frame` has set.
abbrev unsupported_type : ℕ → ErrorType → ErrorType
unsupported_type tcp (wrong_crc calculated received) = unsupported_wrong_crc tcp calculated received
unsupported_type tcp _ = unsupported tcp

pub parse_unsupported : LxpResponse → Bytes → (tcp packet_length : ℕ) → LxpResponse
parse_unsupported self packet tcp packet_length =
    let (framed, right) =
      get_data_frame (record self { packet_error = true }) packet packet_length 8 in
    if right
    then record framed { error_type = unsupported tcp }
    else record framed { error_type = unsupported_type tcp framed.error_type }

pub dispatch : LxpResponse → Bytes → (protocol packet_length tcp : ℕ) → Outcome LxpResponse
dispatch self packet protocol packet_length tcp =
    if tcp == translated_data
    then parse_translated self packet protocol packet_length
    else if tcp == 193
    then ok (parse_193 self packet)
    else ok (parse_unsupported self packet tcp packet_length)

-- LxpResponse(packet)
unfoldable pub parse : Bytes → Outcome LxpResponse
parse packet =
    if ltb (length packet) 8
    then ok (record unparsed { error_type = packet_too_small })
    else if not (bytes_beq (slice 0 2 packet) prefix)
    then ok (record unparsed { error_type = missing_header })
    else let protocol = from_bytes (slice 2 4 packet) in
      let frame_length = from_bytes (slice 4 6 packet) in
      let self = record unparsed {
        protocol_number = some protocol;
        frame_length = some frame_length;
        packet_length_calced = some (frame_length + 6);
      } in
      if ltb (length packet) (frame_length + 6)
      then ok (record self { error_type = wrong_length (frame_length + 6) (length packet) })
      else do
        tcp ← index packet 7
        dispatch (record self { tcp_function = some tcp }) packet protocol (frame_length + 6) tcp

-- [value[i] | value[i+1] << 8 for i in range(0, len(value), 2)]
pub words : Bytes → List ℕ
words (low ∷ high ∷ rest) = bit_or low (high * 256) ∷ words rest
words _ = []

-- `len(self.value) % 2 != 0 or self.exception`
abbrev pub has_no_values : LxpResponse → Bool
has_no_values self = not (length self.value % 2 == 0) || not (self.exception == 0)

unfoldable pub parsed_values : LxpResponse → List ℕ
parsed_values self = if has_no_values self then [] else words self.value

-- {start_register + i: word}
unfoldable pub number_from : ℕ → List ℕ → Dict ℕ ℕ
number_from start [] = []
number_from start (word ∷ rest) = (start, word) ∷ number_from (start + 1) rest

-- A packet of function 193 has the register -1, so its words stand at -1, 0, 1 and so on. The
-- word at -1, which no caller can ask for, is left out.
unfoldable pub number_words : Option ℕ → List ℕ → Dict ℕ ℕ
number_words (some start) ws = number_from start ws
number_words none [] = []
number_words none (word ∷ rest) = number_from 0 rest

unfoldable pub parsed_values_dictionary : LxpResponse → Dict ℕ ℕ
parsed_values_dictionary self =
    if has_no_values self then [] else number_words self.register (words self.value)

-- Named on the `unfolding` line of a test, this opens the whole parser.
unfoldable pub program : Unit {0}
unfolding bytes_beq compute_crc parse dispatch parse_translated parse_193 parse_unsupported
    get_data_frame read_frame read_value words parsed_values number_from number_words
    parsed_values_dictionary
program = tt
