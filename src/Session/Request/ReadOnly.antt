-- ===== src/Session/Request/ReadOnly.antt =====
-- _assert_read_only_packet: the packets that may reach the socket.
use luxpower_ha_integration.Base.{
  ℕ, zero, suc, ◌+◌, ◌-◌, ◌≤◌, ◌<◌, ◌≡◌, refl, sym, ap, ◌∙◌, true, List, [], ◌∷◌, ◌++◌, arith,
  length, get_elem?, take, drop, slice, slice-append, drop-drop, ok,
}
use luxpower_ha_integration.Packet.Bytes.{
  Bytes, bytes_beq, bytes_beq_iff, from_bytes-word, little_endian, take-length,
}
use luxpower_ha_integration.Packet.Crc.{compute_crc, compute_crc-lt}
use luxpower_ha_integration.Packet.Response.Layout.{
  request_frame, request_packet, length-frame, serial-frame, first-frame, second-frame, read-layout,
  behind, tail, length-packet, frame-packet, crc-packet,
}
use luxpower_ha_integration.Session.{Config}
use luxpower_ha_integration.Session.Classify.{read_input_function_code}
use luxpower_ha_integration.Session.Request.{
  packet_checks, assert_read_only_packet, validate_read_range, read_packet,
}

get_elem?-drop :
    {A : Type 0} (n i : ℕ) (xs : List A) → get_elem? xs (n + i) ≡ get_elem? (drop n xs) i
get_elem?-drop zero i xs = let e : 0 + i ≡ i = omega arith in ap (get_elem? xs) e
get_elem?-drop (suc n) i [] = refl
get_elem?-drop (suc n) i (x ∷ xs) =
    let e : suc n + i ≡ suc (n + i) = omega arith in
    ap (get_elem? (x ∷ xs)) e ∙ get_elem?-drop n i xs

module _ (config : Config) (start count : ℕ) where
  abbrev pub the_frame : Bytes
  the_frame = request_frame read_input_function_code config.inverter_serial start count

  -- The FC4 read request for the range, byte for byte.
  abbrev pub read_request : Bytes
  read_request = request_packet config.dongle_serial the_frame

  module _ (ten : length config.dongle_serial ≡ 10) (ten' : length config.inverter_serial ≡ 10)
      (small : start < 65536) (small' : count < 65536) where
    pub sixteen : length the_frame ≡ 16
    sixteen = length-frame config.inverter_serial ten' read_input_function_code start count

    drop-read_request : drop 20 read_request ≡ the_frame ++ little_endian 2 (compute_crc the_frame)
    drop-read_request =
        behind config.dongle_serial (tail config.dongle_serial the_frame ten sixteen) ten 12
          (omega arith)

    -- Slices of the request's second half are slices of its frame.
    pub inside_frame :
        (i j : ℕ) → i ≤ 16 → j ≤ 16 → slice (20 + i) (20 + j) read_request ≡ slice i j the_frame
    inside_frame i j h h' =
        ap (λ t. take (20 + j - (20 + i)) t)
          (sym (drop-drop i 20 read_request) ∙ ap (drop i) drop-read_request)
        ∙ ap (λ n. take n (drop i (the_frame ++ little_endian 2 (compute_crc the_frame))))
            (omega arith)
        ∙ slice-append i j the_frame (little_endian 2 (compute_crc the_frame))
            (omega (arith, sixteen)) (omega (arith, sixteen))

    frame_byte :
        (i : ℕ)
        → get_elem? read_request (20 + i)
          ≡ get_elem? (the_frame ++ little_endian 2 (compute_crc the_frame)) i
    frame_byte i = get_elem?-drop 20 i read_request ∙ ap (λ t. get_elem? t i) drop-read_request

    packet_checks-read_request : packet_checks config read_request start count ≡ ok true
    unfolding packet_checks bytes_beq
    packet_checks-read_request = ground (
      arith,
      frame_byte 0,
      frame_byte 1,
      length-packet config.dongle_serial the_frame ten sixteen,
      take-length 10 config.dongle_serial (tail config.dongle_serial the_frame ten sixteen) ten,
      bytes_beq_iff config.dongle_serial config.dongle_serial,
      bytes_beq_iff config.inverter_serial config.inverter_serial,
      ap (take 2) (
          behind config.dongle_serial (tail config.dongle_serial the_frame ten sixteen) ten 10
            (omega arith)),
      inside_frame 2 12 (omega arith) (omega arith)
          ∙ serial-frame config.inverter_serial ten' read_input_function_code start count,
      inside_frame 12 14 (omega arith) (omega arith)
          ∙ first-frame config.inverter_serial ten' read_input_function_code start count,
      inside_frame 14 16 (omega arith) (omega arith)
          ∙ second-frame config.inverter_serial ten' read_input_function_code start count,
      from_bytes-word start small,
      from_bytes-word count small',
      frame-packet config.dongle_serial the_frame ten sixteen,
      crc-packet config.dongle_serial the_frame ten sixteen,
      compute_crc-lt the_frame,
    )

validate_read_range-ok :
    (start count : ℕ) (u : Unit {0})
    → validate_read_range start count ≡ ok u
    → (start < 750) × (1 ≤ count) × (count ≤ 125) × (start + count ≤ 750)
unfolding validate_read_range
validate_read_range-ok start count u h = ground arith

-- With serial numbers of ten bytes, each range that _validate_read_range lets through gets the FC4
-- read request for it as its packet: the builder makes it, and the checks pass it.
pub read_packet_total :
    (config : Config) (start count : ℕ)
    → length config.dongle_serial ≡ 10
    → length config.inverter_serial ≡ 10
    → validate_read_range start count ≡ ok tt
    → read_packet config start count ≡ ok (read_request config start count)
unfolding read_packet assert_read_only_packet
read_packet_total config start count ten ten' valid =
    let (small, some', few, within) = validate_read_range-ok start count tt valid in
    ground (
      arith,
      read-layout config.dongle_serial config.inverter_serial ten ten' start count
          read_input_function_code (omega arith) some' (omega arith) (omega arith),
      packet_checks-read_request config start count ten ten' (omega arith) (omega arith),
    )
