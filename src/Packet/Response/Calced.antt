-- ===== src/Packet/Response/Calced.antt =====
-- The attribute `packet_length_calced`: it is set exactly when the header is there, to the length
-- that the header declares, and no later step changes it.
use luxpower_ha_integration.Base.{
  ℕ, ◌≤◌, ◌≡◌, sym, ◌∙◌, inl, inr, true, some, [], ◌∷◌, arith, length, get_elem?-some, slice, ok,
  Bool-cases, ltb,
}
use luxpower_ha_integration.Packet.Bytes.{Bytes, from_bytes, bytes_beq, bytes_beq_iff}
use luxpower_ha_integration.Packet.Builder.{prefix}
use luxpower_ha_integration.Packet.Response.{
  LxpResponse, declared_length, get_data_frame, read_value, read_frame, parse_translated, parse_193,
  parse_unsupported, dispatch, parse,
}
use luxpower_ha_integration.Packet.Response.Parsing.{with_tcp, Headed-intro}

read_frame-calced :
    (self r : LxpResponse) (protocol : ℕ) (frame : Bytes)
    → read_frame self protocol frame ≡ ok r
    → r.packet_length_calced ≡ self.packet_length_calced
unfolding read_frame read_value
read_frame-calced self r protocol [] h = ground arith
read_frame-calced self r protocol (a ∷ []) h = ground arith
read_frame-calced self r protocol (a ∷ f ∷ frame) h = ground arith

get_data_frame-calced :
    (self : LxpResponse) (packet : Bytes) (packet_length start : ℕ)
    → (get_data_frame self packet packet_length start).0.packet_length_calced
      ≡ self.packet_length_calced
unfolding get_data_frame
get_data_frame-calced self packet packet_length start = ground arith

parse_translated-calced :
    (self r : LxpResponse) (packet : Bytes) (protocol packet_length : ℕ)
    → parse_translated self packet protocol packet_length ≡ ok r
    → r.packet_length_calced ≡ self.packet_length_calced
unfolding parse_translated
parse_translated-calced self r packet protocol packet_length h =
    let self' = record self {
      dongle_serial = some (slice 8 18 packet);
      data_length = some (from_bytes (slice 18 20 packet));
    } in
    let framed = get_data_frame self' packet packet_length 20 in
    ground (
      arith,
      get_data_frame-calced self' packet packet_length 20,
      read_frame-calced framed.0 r protocol framed.0.data_frame,
    )

dispatch-calced :
    (self r : LxpResponse) (packet : Bytes) (protocol packet_length tcp : ℕ)
    → dispatch self packet protocol packet_length tcp ≡ ok r
    → r.packet_length_calced ≡ self.packet_length_calced
unfolding dispatch parse_193 parse_unsupported
dispatch-calced self r packet protocol packet_length tcp h = ground (
  arith,
  parse_translated-calced self r packet protocol packet_length,
  get_data_frame-calced (record self { packet_error = true }) packet packet_length 8,
)

pub parse-calced :
    (packet : Bytes) (r : LxpResponse)
    → parse packet ≡ ok r
    → 8 ≤ length packet
    → slice 0 2 packet ≡ prefix
    → r.packet_length_calced ≡ some (declared_length packet)
unfolding parse
parse-calced packet r h big starts =
    elim (Bool-cases (ltb (length packet) (declared_length packet))) [
      | inl cut ↦ ground (arith, bytes_beq_iff (slice 0 2 packet) prefix)
      | inr whole ↦
          let (tcp, seven) = get_elem?-some packet 7 big in
          let v = Headed-intro packet tcp seven starts (ground arith) big in
          dispatch-calced (with_tcp packet tcp) r packet (from_bytes (slice 2 4 packet))
            (declared_length packet) tcp (sym v.parsed ∙ h)
    ]

pub parse-calced_header :
    (packet : Bytes) (r : LxpResponse) (n : ℕ)
    → parse packet ≡ ok r
    → r.packet_length_calced ≡ some n
    → (8 ≤ length packet) × (slice 0 2 packet ≡ prefix) × (n ≡ declared_length packet)
unfolding parse
parse-calced_header packet r n h e = elim (Bool-cases (ltb (length packet) 8)) [
  | inl small ↦ ground arith
  | inr big ↦ elim (Bool-cases (bytes_beq (slice 0 2 packet) prefix)) [
    | inr other ↦ ground arith
    | inl same ↦
        let starts = (bytes_beq_iff (slice 0 2 packet) prefix).0 same in
        let large : 8 ≤ length packet = ground arith in
        (large, starts, ground (arith, parse-calced packet r h large starts))
  ]
]
