-- ===== src/Packet/Response/RoundTrip.antt =====
-- What the request builder writes, the response parser reads back.
use luxpower_ha_integration.Base.{
  ℕ, ◌%◌, ◌/◌, ◌≤◌, ◌<◌, ◌≡◌, refl, ◌∙◌, false, some, [], ◌∷◌, arith, length, ok,
}
use luxpower_ha_integration.Base.Bits.{bit_or_low_first}
use luxpower_ha_integration.Packet.Bytes.{Bytes, little_endian}
use luxpower_ha_integration.Packet.Builder.{
  write_single, prepare_packet_for_read, prepare_packet_for_write,
}
use luxpower_ha_integration.Packet.Response.{
  LxpResponse, read_value, read_frame, parse, words, number_words, number_from,
  parsed_values_dictionary,
}
use luxpower_ha_integration.Packet.Response.Layout.{
  request_frame, request_packet, length-frame, serial-frame, first-frame, second-frame, read-layout,
  write-layout, framed, parse-packet,
}

-- What the parser makes of such a packet.
pub record Carries (dongle serial : Bytes) (function register word : ℕ) (r : LxpResponse)
    : Type 0 where
  pub accepted : r.packet_error ≡ false
  pub translated : r.tcp_function ≡ some 194
  pub from_dongle : r.dongle_serial ≡ some dongle
  pub from_inverter : r.serial_number ≡ some serial
  pub function_is : r.device_function ≡ some function
  pub starts_at : r.register ≡ some register
  pub words_are : parsed_values_dictionary r ≡ (register, word) ∷ []

module _ (serial : Bytes) (ten : length serial ≡ 10) where
  -- A frame of a function that is no exception carries one register.
  read-request_frame :
      (self : LxpResponse) (function first second : ℕ)
      → self.exception ≡ 0
      → function < 128
      → first < 65536
      → second < 65536
      → read_frame self 1 (request_frame function serial first second)
        ≡ ok (record self {
          address_action = some 0;
          device_function = some function;
          serial_number = some serial;
          register = some first;
          value = little_endian 2 second;
          packet_error = false;
        })
  unfolding read_frame read_value
  read-request_frame self function first second none' hf h1 h2 = ground (
    arith,
    serial-frame serial ten function first second,
    first-frame serial ten function first second,
    second-frame serial ten function first second,
  )

one_word :
    (r : LxpResponse) (register word : ℕ)
    → r.register ≡ some register
    → r.exception ≡ 0
    → word < 65536
    → r.value ≡ little_endian 2 word
    → parsed_values_dictionary r ≡ (register, word) ∷ []
unfolding parsed_values_dictionary words number_words number_from
one_word r register word er ee h ev =
    ground (arith, bit_or_low_first 8 (word / 256 % 256) (word % 256))

-- The response to a read or write request as its own packet carries what the request asked.
parse-request_packet :
    (dongle serial : Bytes) (function register word : ℕ)
    → length dongle ≡ 10
    → length serial ≡ 10
    → function < 128
    → register < 65536
    → word < 65536
    → (r : LxpResponse) × (parse
          (request_packet dongle (request_frame function serial register word))
        ≡ ok r)
      × Carries dongle serial function register word r
parse-request_packet dongle serial function register word ten ten' hf hr hw =
    let frame = request_frame function serial register word in
    let r = record (framed dongle frame ten (length-frame serial ten' function register word)) {
      address_action = some 0;
      device_function = some function;
      serial_number = some serial;
      register = some register;
      value = little_endian 2 word;
      packet_error = false;
    } in
    (
      r,
      parse-packet dongle frame ten (length-frame serial ten' function register word)
          ∙ read-request_frame serial ten' _ function register word refl hf hr hw,
      record {
        accepted = refl;
        translated = refl;
        from_dongle = refl;
        from_inverter = refl;
        function_is = refl;
        starts_at = refl;
        words_are = one_word r register word refl refl hw refl;
      },
    )

-- A read request with a function under 128 (the client asks with 3 and 4), serial numbers of ten
-- bytes, a start register of 16 bits and a count of 16 bits that is not zero parses without an error,
-- as a packet for the same serial numbers, function and start register whose one word is the count.
pub parse-prepare_packet_for_read :
    (dongle serial : Bytes) (start count function : ℕ)
    → length dongle ≡ 10
    → length serial ≡ 10
    → start < 65536
    → 1 ≤ count
    → count < 65536
    → function < 128
    → (p : Bytes) × (r : LxpResponse) × (prepare_packet_for_read dongle serial start count function
        ≡ ok p)
      × (parse p ≡ ok r)
      × Carries dongle serial function start count r
parse-prepare_packet_for_read dongle serial start count function ten ten' hs hc hc' hf =
    let (r, parsed, carries) =
      parse-request_packet dongle serial function start count ten ten' hf hs hc' in
    (
      request_packet dongle (request_frame function serial start count),
      r,
      read-layout dongle serial ten ten' start count function hs hc hc' (omega arith),
      parsed,
      carries,
    )

-- A write request parses without an error, as a packet of function 6 for the same serial numbers
-- and register, whose one word is the low 16 bits of the value.
pub parse-prepare_packet_for_write :
    (dongle serial : Bytes) (register value : ℕ)
    → length dongle ≡ 10
    → length serial ≡ 10
    → register < 65536
    → (p : Bytes) × (r : LxpResponse) × (prepare_packet_for_write dongle serial register value
        ≡ ok p)
      × (parse p ≡ ok r)
      × Carries dongle serial write_single register (value % 65536) r
parse-prepare_packet_for_write dongle serial register value ten ten' hr =
    let (r, parsed, carries) =
      parse-request_packet dongle serial write_single register (value % 65536) ten ten'
        (omega arith) hr (omega arith) in
    (
      request_packet dongle (request_frame write_single serial register (value % 65536)),
      r,
      write-layout dongle serial ten ten' register value hr,
      parsed,
      carries,
    )
