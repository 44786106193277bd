-- ===== src/Packet/Response/Layout.antt =====
-- The layout of a request packet: what the builder writes, and where the parser finds it.
use luxpower_ha_integration.Base.{
  ℕ, ◌-◌, ◌%◌, ◌≤◌, ◌<◌, ◌≡◌, ap, ◌∙◌, some, ◌∷◌, ◌++◌, append_assoc, arith, length, length-append,
  slice, take, take_all, drop, ok,
}
use luxpower_ha_integration.Base.Bits.{bit_and_mask}
use luxpower_ha_integration.Packet.Bytes.{
  Bytes, bytes_beq, little_endian, drop-length, take-length, drop_past,
}
use luxpower_ha_integration.Packet.Builder.{
  write_single, prepare_packet_for_read, prepare_packet_for_write,
}
use luxpower_ha_integration.Packet.Crc.{compute_crc, compute_crc-lt}
use luxpower_ha_integration.Packet.Response.{
  LxpResponse, unparsed, get_data_frame, read_frame, parse_translated, dispatch, parse,
}

-- The layout, independently of the builder: a data frame of 16 bytes, and the packet around it.
abbrev pub request_frame : (function : ℕ) (serial : Bytes) (first second : ℕ) → Bytes
request_frame function serial first second =
    0 ∷ function ∷ (serial ++ (little_endian 2 first ++ little_endian 2 second))

abbrev pub request_packet : (dongle frame : Bytes) → Bytes
request_packet dongle frame =
    0xA1
    ∷ 0x1A
    ∷ 1
    ∷ 0
    ∷ 32
    ∷ 0
    ∷ 1
    ∷ 194
    ∷ (dongle ++ (18 ∷ 0 ∷ (frame ++ little_endian 2 (compute_crc frame))))

module _ (serial : Bytes) (ten : length serial ≡ 10) (function first second : ℕ) where
  abbrev pub frame : Bytes
  frame = request_frame function serial first second

  pub length-frame : length frame ≡ 16
  length-frame =
      omega (arith, length-append serial (little_endian 2 first ++ little_endian 2 second))

  pub serial-frame : slice 2 12 frame ≡ serial
  serial-frame = take-length 10 serial (little_endian 2 first ++ little_endian 2 second) ten

  pub first-frame : slice 12 14 frame ≡ little_endian 2 first
  first-frame =
      ap (take 2) (drop-length 10 serial (little_endian 2 first ++ little_endian 2 second) ten)

  pub second-frame : slice 14 16 frame ≡ little_endian 2 second
  second-frame = ap (take 2) (
      drop_past 12 serial (little_endian 2 first ++ little_endian 2 second) (omega arith)
      ∙ ap (λ n. drop (12 - n) (little_endian 2 first ++ little_endian 2 second)) ten)

module _ (dongle rest : Bytes) (ten : length dongle ≡ 10) where
  -- What stands behind the dongle's serial number, from a position on.
  pub behind : (k : ℕ) → 10 ≤ k → drop k (dongle ++ rest) ≡ drop (k - 10) rest
  behind k h = drop_past k dongle rest (omega arith) ∙ ap (λ n. drop (k - n) rest) ten

module _ (dongle serial : Bytes) (ten : length dongle ≡ 10) (ten' : length serial ≡ 10) where
  -- The frame, as the builder cuts it out of the buffer.
  pub slice-buffer :
      (function first second : ℕ)
      → slice 20 36 (
          0xA1
          ∷ 0x1A
          ∷ 1
          ∷ 0
          ∷ 32
          ∷ 0
          ∷ 1
          ∷ 194
          ∷ (dongle ++ (18 ∷ 0 ∷ request_frame function serial first second)))
        ≡ request_frame function serial first second
  slice-buffer function first second =
      ap (take 16)
        (behind dongle (18 ∷ 0 ∷ request_frame function serial first second) ten 12 (omega arith))
      ∙ take_all 16 (request_frame function serial first second)
          (omega (arith, length-frame serial ten' function first second))

  pub read-layout :
      (start count function : ℕ)
      → start < 65536
      → 1 ≤ count
      → count < 65536
      → function < 256
      → prepare_packet_for_read dongle serial start count function
        ≡ ok (request_packet dongle (request_frame function serial start count))
  unfolding prepare_packet_for_read
  read-layout start count function hs hc hc' hf =
      let frame = request_frame function serial start count in
      let byte : function % 256 ≡ function = omega arith in
      ground (
        arith,
        slice-buffer function start count,
        compute_crc-lt frame,
        append_assoc dongle (18 ∷ 0 ∷ frame) (little_endian 2 (compute_crc frame)),
      )

  pub write-layout :
      (register value : ℕ)
      → register < 65536
      → prepare_packet_for_write dongle serial register value
        ≡ ok (request_packet dongle (request_frame write_single serial register (value % 65536)))
  unfolding prepare_packet_for_write
  write-layout register value hr =
      let frame = request_frame write_single serial register (value % 65536) in
      ground (
        arith,
        bit_and_mask 16 value,
        slice-buffer write_single register (value % 65536),
        compute_crc-lt frame,
        append_assoc dongle (18 ∷ 0 ∷ frame) (little_endian 2 (compute_crc frame)),
      )

module _ (dongle frame : Bytes) (ten : length dongle ≡ 10) (sixteen : length frame ≡ 16) where
  abbrev pub packet : Bytes
  packet = request_packet dongle frame

  abbrev pub tail : Bytes
  tail = 18 ∷ 0 ∷ (frame ++ little_endian 2 (compute_crc frame))

  pub length-packet : length packet ≡ 38
  length-packet =
      omega (
        arith,
        length-append dongle tail,
        length-append frame (little_endian 2 (compute_crc frame)),
      )

  pub frame-packet : slice 20 36 packet ≡ frame
  frame-packet =
      ap (take 16) (behind dongle tail ten 12 (omega arith))
      ∙ take-length 16 frame (little_endian 2 (compute_crc frame)) sixteen

  pub crc-packet : slice 36 38 packet ≡ little_endian 2 (compute_crc frame)
  crc-packet = ap (take 2) (
      behind dongle tail ten 28 (omega arith)
      ∙ drop-length 16 frame (little_endian 2 (compute_crc frame)) sixteen)

  -- The attributes when the data frame has passed its checksum.
  abbrev pub framed : LxpResponse
  framed = record unparsed {
    protocol_number = some 1;
    frame_length = some 32;
    packet_length_calced = some 38;
    tcp_function = some 194;
    dongle_serial = some dongle;
    data_length = some 18;
    data_frame = frame;
    crc_modbus = some (compute_crc frame);
  }

  pub parse-packet : parse packet ≡ read_frame framed 1 frame
  unfolding parse dispatch parse_translated get_data_frame bytes_beq
  parse-packet = ground (
    arith,
    length-packet,
    take-length 10 dongle tail ten,
    ap (take 2) (behind dongle tail ten 10 (omega arith)),
    frame-packet,
    crc-packet,
    compute_crc-lt frame,
  )
