-- ===== src/Packet/Response/Parsing.antt =====
-- What LxpResponse makes of any packet: when it raises, what an accepted packet satisfies, and
-- that bytes behind the declared end are not read.
use luxpower_ha_integration.Base.{
  ℕ, zero, suc, ◌-◌, ◌≤◌, ◌<◌, ◌≡◌, refl, sym, subst, ◌∙◌, ◌⊎◌, inl, inr, true, false, none, some,
  [], ◌∷◌, arith, ltb, ◌==◌, length, get_elem?, get_elem?-some, slice, length-slice, Outcome,
  Exception, ok, raised, index_error, Bool-cases,
}
use luxpower_ha_integration.Packet.Bytes.{Bytes, bytes_beq, bytes_beq_iff, from_bytes}
use luxpower_ha_integration.Packet.Builder.{prefix, translated_data}
use luxpower_ha_integration.Packet.Crc.{compute_crc}
use luxpower_ha_integration.Packet.Response.{
  LxpResponse, unparsed, index, declared_length, get_data_frame, read_value, read_frame,
  parse_translated, parse_193, parse_unsupported, dispatch, parse,
}

index_raises :
    (xs : Bytes) (i : ℕ) {e : Exception}
    → index xs i ≡ raised e
    → (e ≡ index_error) × (length xs ≤ i)
index_raises [] i h = ground arith
index_raises (x ∷ xs) zero h = cc
index_raises (x ∷ xs) (suc i) h = let (a, b) = index_raises xs i h in (a, omega arith)

read_frame_raises :
    (self : LxpResponse) (protocol : ℕ) (frame : Bytes) (e : Exception)
    → read_frame self protocol frame ≡ raised e
    → (e ≡ index_error) × (length frame < 15)
unfolding read_frame read_value
read_frame_raises self protocol [] e h = ground arith
read_frame_raises self protocol (a ∷ []) e h = ground arith
read_frame_raises self protocol (a ∷ f ∷ frame) e h =
    ground (arith, index_raises (a ∷ f ∷ frame) 14 {e = e})

length-frame :
    (self : LxpResponse) (packet : Bytes) (packet_length start : ℕ)
    → packet_length ≤ length packet
    → length (get_data_frame self packet packet_length start).0.data_frame
      ≡ packet_length - 2 - start
unfolding get_data_frame
length-frame self packet packet_length start h =
    ground (arith, length-slice start (packet_length - 2) packet)

parse_translated_raises :
    (self : LxpResponse) (packet : Bytes) (protocol packet_length : ℕ) (e : Exception)
    → packet_length ≤ length packet
    → parse_translated self packet protocol packet_length ≡ raised e
    → (e ≡ index_error) × (packet_length < 37) × (37 ≤ length packet)
unfolding parse_translated
parse_translated_raises self packet protocol packet_length e fits h =
    let self' = record self {
      dongle_serial = some (slice 8 18 packet);
      data_length = some (from_bytes (slice 18 20 packet));
    } in
    let framed = get_data_frame self' packet packet_length 20 in
    ground (
      arith,
      length-frame self' packet packet_length 20,
      read_frame_raises framed.0 protocol framed.0.data_frame e,
    )

-- The attributes once the header of a packet is read.
abbrev pub headed : Bytes → LxpResponse
headed packet = record unparsed {
  protocol_number = some (from_bytes (slice 2 4 packet));
  frame_length = some (from_bytes (slice 4 6 packet));
  packet_length_calced = some (declared_length packet);
}

abbrev pub with_tcp : Bytes → ℕ → LxpResponse
with_tcp packet tcp = record (headed packet) { tcp_function = some tcp }

-- The two ends of the header's checks: the packet is refused, or its tcp function is looked at.
abbrev pub Refused : Outcome LxpResponse → Type 0
Refused (raised e) = ⊥
Refused (ok r) = (r.packet_error ≡ true) × (r.tcp_function ≡ none)

pub record Headed (packet : Bytes) (tcp : ℕ) : Type 0 where
  pub at_seven : get_elem? packet 7 ≡ some tcp
  pub starts : slice 0 2 packet ≡ prefix
  pub whole : declared_length packet ≤ length packet
  pub big : 8 ≤ length packet
  pub parsed :
      parse packet
      ≡ dispatch
          (with_tcp packet tcp)
          packet
          (from_bytes (slice 2 4 packet))
          (declared_length packet)
          tcp

pub Headed-intro :
    (packet : Bytes) (tcp : ℕ)
    → get_elem? packet 7 ≡ some tcp
    → slice 0 2 packet ≡ prefix
    → declared_length packet ≤ length packet
    → 8 ≤ length packet
    → Headed packet tcp
unfolding parse
Headed-intro packet tcp seven starts whole big = record {
  at_seven = seven;
  starts = starts;
  whole = whole;
  big = big;
  parsed = ground (arith, bytes_beq_iff (slice 0 2 packet) prefix);
}

pub parse_cases : (packet : Bytes) → Refused (parse packet) ⊎ ((tcp : ℕ) × Headed packet tcp)
unfolding parse
parse_cases packet = elim (Bool-cases (ltb (length packet) 8)) [
  | inl small ↦ inl (ground arith)
  | inr big ↦ elim (Bool-cases (bytes_beq (slice 0 2 packet) prefix)) [
    | inr other ↦ inl (ground arith)
    | inl starts ↦ elim (Bool-cases (ltb (length packet) (declared_length packet))) [
      | inl cut ↦ inl (ground arith)
      | inr whole ↦
          let (tcp, seven) = get_elem?-some packet 7 (ground arith) in
          let starts' = (bytes_beq_iff (slice 0 2 packet) prefix).0 starts in
          inr (tcp, Headed-intro packet tcp seven starts' (ground arith) (ground arith))
    ]
  ]
]

-- A packet makes the parser raise only with `IndexError`, and only if it declares a length below
-- 37 bytes and is itself no shorter than that.
pub parse_raises :
    (packet : Bytes) (e : Exception)
    → parse packet ≡ raised e
    → (e ≡ index_error) × (declared_length packet < 37) × (37 ≤ length packet)
parse_raises packet e h = elim (parse_cases packet) [
  | inl refused ↦ absurd (subst Refused h refused)
  | inr (tcp, v) ↦ dispatch_raises v (sym v.parsed ∙ h)
]
  where
    dispatch_raises :
        {tcp : ℕ}
        → Headed packet tcp
        → dispatch
            (with_tcp packet tcp)
            packet
            (from_bytes (slice 2 4 packet))
            (declared_length packet)
            tcp
          ≡ raised e
        → (e ≡ index_error) × (declared_length packet < 37) × (37 ≤ length packet)
    dispatch_raises {tcp} v h = elim (Bool-cases (tcp == translated_data)) [
      | inl yes' ↦
          parse_translated_raises (with_tcp packet tcp) packet (from_bytes (slice 2 4 packet))
            (declared_length packet) e v.whole (unfold dispatch in ground arith)
      | inr no' ↦ unfold dispatch in ground arith
    ]

-- What an accepted packet of translated data satisfies.
pub record Sound (packet : Bytes) (r : LxpResponse) : Type 0 where
  pub starts : slice 0 2 packet ≡ prefix
  pub long_enough : 37 ≤ length packet
  pub whole : declared_length packet ≤ length packet
  pub frame : r.data_frame ≡ slice 20 (declared_length packet - 2) packet
  pub checksum :
      compute_crc r.data_frame
      ≡ from_bytes (slice (declared_length packet - 2) (declared_length packet) packet)

read_frame_keeps :
    (self r : LxpResponse) (protocol : ℕ) (frame : Bytes)
    → read_frame self protocol frame ≡ ok r
    → (r.data_frame ≡ self.data_frame) × (r.tcp_function ≡ self.tcp_function)
unfolding read_frame read_value
read_frame_keeps self r protocol [] h = ground arith
read_frame_keeps self r protocol (a ∷ []) h = ground arith
read_frame_keeps self r protocol (a ∷ f ∷ frame) h = ground arith

parse_translated_sound :
    (self r : LxpResponse) (packet : Bytes) (protocol packet_length : ℕ)
    → self.packet_error ≡ true
    → parse_translated self packet protocol packet_length ≡ ok r
    → r.packet_error ≡ false
    → (37 ≤ length packet)
      × (r.data_frame ≡ slice 20 (packet_length - 2) packet)
      × (compute_crc r.data_frame ≡ from_bytes (slice (packet_length - 2) packet_length packet))
unfolding parse_translated get_data_frame
parse_translated_sound self r packet protocol packet_length bad h good =
    let frame = slice 20 (packet_length - 2) packet in
    let framed = record self {
      dongle_serial = some (slice 8 18 packet);
      data_length = some (from_bytes (slice 18 20 packet));
      data_frame = frame;
      crc_modbus = some (from_bytes (slice (packet_length - 2) packet_length packet));
    } in
    ground (arith, read_frame_keeps framed r protocol frame)

pub other_tcp :
    (self r : LxpResponse) (packet : Bytes) (protocol packet_length tcp : ℕ)
    → self.tcp_function ≡ some tcp
    → (tcp == translated_data) ≡ false
    → dispatch self packet protocol packet_length tcp ≡ ok r
    → r.tcp_function ≡ some translated_data
    → ⊥
unfolding dispatch parse_193 parse_unsupported get_data_frame
other_tcp self r packet protocol packet_length tcp t n h e = ground arith

-- A packet of translated data that is accepted starts with the prefix, is complete, and its data
-- frame has the checksum that follows it.
pub parse-Sound :
    (packet : Bytes) (r : LxpResponse)
    → parse packet ≡ ok r
    → r.packet_error ≡ false
    → r.tcp_function ≡ some translated_data
    → Sound packet r
parse-Sound packet r h good translated = elim (parse_cases packet) [
  | inl refused ↦ let no_error = (subst Refused h refused).0 in cc
  | inr (tcp, v) ↦ elim (Bool-cases (tcp == translated_data)) [
    | inl yes' ↦
        let (enough, frame, checksum) =
          parse_translated_sound (with_tcp packet tcp) r packet (from_bytes (slice 2 4 packet))
            (declared_length packet) refl
            (unfold dispatch in let e = sym v.parsed ∙ h in ground arith) good in
        record {
          starts = v.starts;
          long_enough = enough;
          whole = v.whole;
          frame = frame;
          checksum = checksum;
        }
    | inr no' ↦ absurd (
        other_tcp (with_tcp packet tcp) r packet (from_bytes (slice 2 4 packet))
          (declared_length packet) tcp refl no' (sym v.parsed ∙ h) translated)
  ]
]
