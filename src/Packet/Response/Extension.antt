-- ===== src/Packet/Response/Extension.antt =====
-- LxpResponse does not read bytes behind the declared end of a packet of translated data.
use luxpower_ha_integration.Base.{
  ℕ, ◌-◌, ◌≤◌, ◌≡◌, refl, ap, sym, subst, ◌∙◌, inl, inr, true, false, some, ◌++◌, arith, ◌==◌,
  length, slice, slice-append, length-append, get_elem?-append, ok, Bool-cases,
}
use luxpower_ha_integration.Packet.Bytes.{Bytes, from_bytes}
use luxpower_ha_integration.Packet.Builder.{translated_data}
use luxpower_ha_integration.Packet.Response.{
  LxpResponse, declared_length, get_data_frame, parse_translated, dispatch, parse,
}
use luxpower_ha_integration.Packet.Response.Parsing.{
  with_tcp, Refused, Headed, Headed-intro, parse_cases, parse-Sound, other_tcp,
}

module _ (packet extra : Bytes) where
  get_data_frame-append :
      (self : LxpResponse) (packet_length start : ℕ)
      → start ≤ length packet
      → packet_length ≤ length packet
      → get_data_frame self (packet ++ extra) packet_length start
        ≡ get_data_frame self packet packet_length start
  unfolding get_data_frame
  get_data_frame-append self packet_length start fits whole = ground (
    arith,
    slice-append start (packet_length - 2) packet extra,
    slice-append (packet_length - 2) packet_length packet extra,
  )

  parse_translated-append :
      (self : LxpResponse) (protocol packet_length : ℕ)
      → 37 ≤ length packet
      → packet_length ≤ length packet
      → parse_translated self (packet ++ extra) protocol packet_length
        ≡ parse_translated self packet protocol packet_length
  unfolding parse_translated
  parse_translated-append self protocol packet_length enough whole =
      let self' = record self {
        dongle_serial = some (slice 8 18 packet);
        data_length = some (from_bytes (slice 18 20 packet));
      } in
      ground (
        arith,
        length-append packet extra,
        slice-append 8 18 packet extra,
        slice-append 18 20 packet extra,
        get_data_frame-append self' packet_length 20,
      )

  with_tcp-append :
      (tcp : ℕ) → 8 ≤ length packet → with_tcp (packet ++ extra) tcp ≡ with_tcp packet tcp
  with_tcp-append tcp big =
      ground (arith, slice-append 2 4 packet extra, slice-append 4 6 packet extra)

  Headed-append : (tcp : ℕ) → Headed packet tcp → Headed (packet ++ extra) tcp
  Headed-append tcp v =
      let big = v.big in
      Headed-intro (packet ++ extra) tcp (get_elem?-append packet extra 7 v.big ∙ v.at_seven)
        (slice-append 0 2 packet extra (omega arith) (omega arith) ∙ v.starts)
        (omega (
          arith,
          v.whole,
          length-append packet extra,
          ap from_bytes (slice-append 4 6 packet extra (omega arith) (omega arith)),
        ))
        (omega (arith, length-append packet extra))

  dispatch-append :
      (tcp : ℕ)
      → (tcp == translated_data) ≡ true
      → Headed packet tcp
      → 37 ≤ length packet
      → dispatch
          (with_tcp (packet ++ extra) tcp)
          (packet ++ extra)
          (from_bytes (slice 2 4 (packet ++ extra)))
          (declared_length (packet ++ extra))
          tcp
        ≡ dispatch
            (with_tcp packet tcp)
            packet
            (from_bytes (slice 2 4 packet))
            (declared_length packet)
            tcp
  unfolding dispatch
  dispatch-append tcp is_translated v enough =
      let big = v.big in
      rw
        (
          is_translated,
          with_tcp-append tcp big,
          slice-append 2 4 packet extra (omega arith) (omega arith),
          slice-append 4 6 packet extra (omega arith) (omega arith),
        )
        (parse_translated-append (with_tcp packet tcp) (from_bytes (slice 2 4 packet))
          (declared_length packet) enough v.whole)

-- Whatever follows a packet of translated data that is accepted, the parser returns the same
-- response.
pub parse-append :
    (packet extra : Bytes) (r : LxpResponse)
    → parse packet ≡ ok r
    → r.packet_error ≡ false
    → r.tcp_function ≡ some translated_data
    → parse (packet ++ extra) ≡ ok r
parse-append packet extra r h good translated = elim (parse_cases packet) [
  | inl refused ↦ let no_error = (subst Refused h refused).0 in cc
  | inr (tcp, v) ↦ elim (Bool-cases (tcp == translated_data)) [
    | inr no' ↦ absurd (
        other_tcp (with_tcp packet tcp) r packet (from_bytes (slice 2 4 packet))
          (declared_length packet) tcp refl no' (sym v.parsed ∙ h) translated)
    | inl yes' ↦
        let sound = parse-Sound packet r h good translated in
        let more = Headed-append packet extra tcp v in
        more.parsed ∙ dispatch-append packet extra tcp yes' v sound.long_enough ∙ sym v.parsed ∙ h
  ]
]
