-- ===== src/Session/Request/OnlyReads.antt =====
-- _assert_read_only_packet lets nothing but the read request through.
use luxpower_ha_integration.Base.{
  ℕ, zero, suc, ◌+◌, ◌-◌, ◌/◌, ◌%◌, ◌≤◌, ◌<◌, ◌≡◌, refl, sym, ap, ap₂, ◌∙◌, inl, inr, Bool, true,
  false, ◌&&◌, List, [], ◌∷◌, ◌++◌, arith, ◌==◌, ==_iff, length, take, drop, slice, All-take,
  All-drop, take_all, length-slice, ok, >>=-eq-ok, Outcome-cases,
}
use luxpower_ha_integration.Packet.Bytes.{
  Bytes, AreBytes, IsByte, bytes_beq, bytes_beq_iff, from_bytes, little_endian, take-length,
}
use luxpower_ha_integration.Packet.Crc.{compute_crc}
use luxpower_ha_integration.Packet.Builder.{prefix}
use luxpower_ha_integration.Packet.Response.{index}
use luxpower_ha_integration.Packet.Response.Layout.{
  serial-frame, first-frame, second-frame, behind, length-packet, frame-packet, crc-packet,
}
use luxpower_ha_integration.Session.{Config}
use luxpower_ha_integration.Session.Classify.{read_input_function_code}
use luxpower_ha_integration.Session.Request.{packet_checks, assert_read_only_packet}
use luxpower_ha_integration.Session.Request.ReadOnly.{
  the_frame, read_request, sixteen, inside_frame,
}

-- The two bytes of a word.
word_bytes : (bs : Bytes) → AreBytes bs → length bs ≡ 2 → bs ≡ little_endian 2 (from_bytes bs)
word_bytes [] b h = absurd (omega arith)
word_bytes (x ∷ []) b h = absurd (omega arith)
word_bytes (x ∷ y ∷ []) (bx, (by, t)) h =
    let e : x ≡ from_bytes (x ∷ y ∷ []) % 256 = omega arith in
    let f : y ≡ from_bytes (x ∷ y ∷ []) / 256 % 256 = omega arith in
    ap (λ t. t ∷ y ∷ []) e ∙ ap (λ t. from_bytes (x ∷ y ∷ []) % 256 ∷ t ∷ []) f
word_bytes (x ∷ y ∷ z ∷ bs) b h = absurd (omega arith)

index-slice : (xs : Bytes) (i b : ℕ) → index xs i ≡ ok b → slice i (i + 1) xs ≡ b ∷ []
index-slice [] i b h = cc
index-slice (x ∷ xs) zero b h = ground arith
index-slice (x ∷ xs) (suc i) b h =
    let e : suc i + 1 - suc i ≡ i + 1 - i = omega arith in
    ap (λ n. take n (drop i xs)) e ∙ index-slice xs i b h

take-split : {A : Type 0} (i j : ℕ) (xs : List A) → i ≤ j → take j xs ≡ take i xs ++ slice i j xs
take-split zero j xs h = let e : j ≡ j - 0 = omega arith in ap (λ n. take n xs) e
take-split (suc i) zero xs h = absurd (omega arith)
take-split {A} (suc i) (suc j) [] h = sym (take_all {A = A} (suc j - suc i) [] (omega arith))
take-split (suc i) (suc j) (x ∷ xs) h =
    let e : j - i ≡ suc j - suc i = omega arith in
    ap (λ t. x ∷ t) (take-split i j xs (omega arith) ∙ ap (λ n. take i xs ++ take n (drop i xs)) e)

-- Two lists that agree up to a cut and between that and the next agree up to the next.
agree_further :
    {A : Type 0} (xs ys : List A) (i j : ℕ)
    → i ≤ j
    → take i xs ≡ take i ys
    → slice i j xs ≡ slice i j ys
    → take j xs ≡ take j ys
agree_further xs ys i j h front back =
    take-split i j xs h ∙ ap₂ ◌++◌ front back ∙ sym (take-split i j ys h)

and_true : {a b : Bool} → (a && b) ≡ true → (a ≡ true) × (b ≡ true)
and_true {a = true} {b = b} h = (refl, h)
and_true {a = false} {b = b} h = cc

ok-inj : {a b : Bool} → ok a ≡ ok b → a ≡ b
ok-inj h = cc

equal_of : (m n : ℕ) → (m == n) ≡ true → m ≡ n
equal_of m n h = (==_iff m n).0 h

same_of : (a b : Bytes) → bytes_beq a b ≡ true → a ≡ b
same_of a b h = (bytes_beq_iff a b).0 h

module _ (config : Config) (packet : Bytes) (start count : ℕ) where
  -- What the checks say of a packet that passes them.
  record Passes : Type 0 where
    long : length packet ≡ 38
    at_prefix : slice 0 2 packet ≡ prefix
    at_protocol : from_bytes (slice 2 4 packet) ≡ 1
    at_length : from_bytes (slice 4 6 packet) ≡ 32
    at_one : slice 6 7 packet ≡ 1 ∷ []
    at_tcp : slice 7 8 packet ≡ 194 ∷ []
    at_dongle : slice 8 18 packet ≡ config.dongle_serial
    at_data_length : from_bytes (slice 18 20 packet) ≡ 18
    at_action : slice 20 21 packet ≡ 0 ∷ []
    at_function : slice 21 22 packet ≡ 4 ∷ []
    at_inverter : slice 22 32 packet ≡ config.inverter_serial
    at_start : from_bytes (slice 32 34 packet) ≡ start
    at_count : from_bytes (slice 34 36 packet) ≡ count
    at_crc : from_bytes (slice 36 38 packet) ≡ compute_crc (slice 20 36 packet)

  checks-Passes : packet_checks config packet start count ≡ ok true → Passes
  unfolding packet_checks
  checks-Passes h =
      let (one, at6, rest6) = >>=-eq-ok (index packet 6) _ h in
      let (tcp, at7, rest7) = >>=-eq-ok (index packet 7) _ rest6 in
      let (action, at20, rest20) = >>=-eq-ok (index packet 20) _ rest7 in
      let (function, at21, checked) = >>=-eq-ok (index packet 21) _ rest20 in
      let (c1, d1) = and_true (ok-inj checked) in
      let (c2, d2) = and_true d1 in
      let (c3, d3) = and_true d2 in
      let (c4, d4) = and_true d3 in
      let (c5, d5) = and_true d4 in
      let (c6, d6) = and_true d5 in
      let (c7, d7) = and_true d6 in
      let (c8, d8) = and_true d7 in
      let (c9, d9) = and_true d8 in
      let (c10, d10) = and_true d9 in
      let (c11, d11) = and_true d10 in
      let (c12, d12) = and_true d11 in
      let (c13, d13) = and_true d12 in
      let long' = equal_of (length packet) 38 c1 in
      record {
        long = long';
        at_prefix = same_of (slice 0 2 packet) prefix c2;
        at_protocol = equal_of (from_bytes (slice 2 4 packet)) 1 c3;
        at_length =
            omega (arith, equal_of (from_bytes (slice 4 6 packet) + 6) (length packet) c4, long');
        at_one = index-slice packet 6 one at6 ∙ ap (λ b. b ∷ []) (equal_of one 1 c5);
        at_tcp = index-slice packet 7 tcp at7 ∙ ap (λ b. b ∷ []) (equal_of tcp 194 c6);
        at_dongle = same_of (slice 8 18 packet) config.dongle_serial c7;
        at_data_length = equal_of (from_bytes (slice 18 20 packet)) 18 c8;
        at_action = index-slice packet 20 action at20 ∙ ap (λ b. b ∷ []) (equal_of action 0 c9);
        at_function =
            index-slice packet 21 function at21 ∙ ap (λ b. b ∷ []) (equal_of function 4 c10);
        at_inverter = same_of (slice 22 32 packet) config.inverter_serial c11;
        at_start = equal_of (from_bytes (slice 32 34 packet)) start c12;
        at_count = equal_of (from_bytes (slice 34 36 packet)) count c13;
        at_crc = equal_of (from_bytes (slice 36 38 packet)) (compute_crc (slice 20 36 packet)) d13;
      }

word_of :
    (packet : Bytes) (i n : ℕ)
    → AreBytes packet
    → length packet ≡ 38
    → i + 2 ≤ 38
    → from_bytes (slice i (i + 2) packet) ≡ n
    → slice i (i + 2) packet ≡ little_endian 2 n
word_of packet i n bytes long fits is =
    word_bytes (slice i (i + 2) packet)
      (All-take IsByte (i + 2 - i) (drop i packet) (All-drop IsByte i packet bytes))
      (length-slice i (i + 2) packet (omega arith) ∙ omega arith)
    ∙ ap (little_endian 2) is

slice-drop-take : {A : Type 0} (i j : ℕ) (xs : List A) → slice i j xs ≡ drop i (take j xs)
slice-drop-take zero j xs = let e : j - 0 ≡ j = omega arith in ap (λ n. take n xs) e
slice-drop-take {A} (suc i) zero xs =
    let e : zero - suc i ≡ 0 = omega arith in ap (λ n. take n (drop (suc i) xs)) e
slice-drop-take {A} (suc i) (suc j) [] = take_all {A = A} (suc j - suc i) [] (omega arith)
slice-drop-take (suc i) (suc j) (x ∷ xs) =
    let e : suc j - suc i ≡ j - i = omega arith in
    ap (λ n. take n (drop i xs)) e ∙ slice-drop-take i j xs

module _ (config : Config) (packet : Bytes) (start count : ℕ) (bytes : AreBytes packet)
    (ten : length config.dongle_serial ≡ 10) (ten' : length config.inverter_serial ≡ 10)
    (small : start < 65536) (small' : count < 65536) (p : Passes config packet start count) where
  abbrev request : Bytes
  request = read_request config start count

  -- The packet agrees with the request up to a cut.
  abbrev Agree : ℕ → Type 0
  Agree n = take n packet ≡ take n request

  further : (i j : ℕ) → i ≤ j → Agree i → slice i j packet ≡ slice i j request → Agree j
  further i j h = agree_further packet request i j h

  word :
      (i n : ℕ)
      → i + 2 ≤ 38
      → from_bytes (slice i (i + 2) packet) ≡ n
      → slice i (i + 2) packet ≡ little_endian 2 n
  word i n fits is = word_of packet i n bytes p.long fits is

  inside :
      (i j : ℕ)
      → i ≤ 16
      → j ≤ 16
      → slice (20 + i) (20 + j) request ≡ slice i j (the_frame config start count)
  inside = inside_frame config start count ten ten' small small'

  Agree-header : Agree 8
  Agree-header =
      further 7 8 (omega arith)
        (further 6 7 (omega arith)
          (further 4 6 (omega arith)
            (further 2 4 (omega arith) (further 0 2 (omega arith) refl p.at_prefix)
              (word 2 1 (omega arith) p.at_protocol))
            (word 4 32 (omega arith) p.at_length))
          p.at_one)
        p.at_tcp

  Agree-dongle : Agree 20
  Agree-dongle =
      further 18 20 (omega arith)
        (further 8 18 (omega arith) Agree-header (
          p.at_dongle
          ∙ sym (
              take-length 10 config.dongle_serial
                (18
                  ∷ 0
                  ∷ (the_frame config start count
                      ++ little_endian 2 (compute_crc (the_frame config start count))))
                ten)))
        (word 18 18 (omega arith) p.at_data_length
          ∙ sym (
              ap (take 2) (
                behind config.dongle_serial
                  (18
                    ∷ 0
                    ∷ (the_frame config start count
                        ++ little_endian 2 (compute_crc (the_frame config start count))))
                  ten 10 (omega arith))))

  Agree-inverter : Agree 32
  Agree-inverter =
      further 22 32 (omega arith)
        (further 21 22 (omega arith)
          (further 20 21 (omega arith) Agree-dongle
            (p.at_action ∙ sym (inside 0 1 (omega arith) (omega arith))))
          (p.at_function ∙ sym (inside 1 2 (omega arith) (omega arith))))
        (p.at_inverter
          ∙ sym (
              inside 2 12 (omega arith) (omega arith)
              ∙ serial-frame config.inverter_serial ten' read_input_function_code start count))

  Agree-range : Agree 36
  Agree-range =
      further 34 36 (omega arith)
        (further 32 34 (omega arith) Agree-inverter (
          word 32 start (omega arith) p.at_start
          ∙ sym (
              inside 12 14 (omega arith) (omega arith)
              ∙ first-frame config.inverter_serial ten' read_input_function_code start count)))
        (word 34 count (omega arith) p.at_count
          ∙ sym (
              inside 14 16 (omega arith) (omega arith)
              ∙ second-frame config.inverter_serial ten' read_input_function_code start count))

  sixteen_bytes : length (the_frame config start count) ≡ 16
  sixteen_bytes = sixteen config start count ten ten' small small'

  same_frame : slice 20 36 packet ≡ the_frame config start count
  same_frame =
      slice-drop-take 20 36 packet
      ∙ ap (drop 20) Agree-range
      ∙ sym (slice-drop-take 20 36 request)
      ∙ frame-packet config.dongle_serial (the_frame config start count) ten sixteen_bytes

  Agree-crc : Agree 38
  Agree-crc = further 36 38 (omega arith) Agree-range (
      word 36 (compute_crc (the_frame config start count)) (omega arith)
        (p.at_crc ∙ ap compute_crc same_frame)
      ∙ sym (crc-packet config.dongle_serial (the_frame config start count) ten sixteen_bytes))

  Passes-eq : packet ≡ request
  Passes-eq =
      sym (take_all 38 packet (omega (arith, p.long)))
      ∙ Agree-crc
      ∙ take_all 38 request (
          omega (
            arith,
            length-packet config.dongle_serial (the_frame config start count) ten sixteen_bytes,
          ))

all_hold :
    (config : Config) (packet : Bytes) (start count : ℕ)
    → assert_read_only_packet config packet start count ≡ ok tt
    → packet_checks config packet start count ≡ ok true
unfolding assert_read_only_packet
all_hold config packet start count h =
    elim (Outcome-cases (packet_checks config packet start count)) [
      | inr (e, f) ↦ absurd (ground (arith, f))
      | inl (true, f) ↦ f
      | inl (false, f) ↦ absurd (ground (arith, f))
    ]

-- A packet that passes the checks for a range of 16-bit numbers, made of bytes and with serial
-- numbers of ten bytes, is the FC4 read request for that range, byte for byte.
pub assert_read_only_packet_only :
    (config : Config) (packet : Bytes) (start count : ℕ)
    → AreBytes packet
    → length config.dongle_serial ≡ 10
    → length config.inverter_serial ≡ 10
    → start < 65536
    → count < 65536
    → assert_read_only_packet config packet start count ≡ ok tt
    → packet ≡ read_request config start count
assert_read_only_packet_only config packet start count bytes ten ten' small small' h =
    Passes-eq config packet start count bytes ten ten' small small'
      (checks-Passes config packet start count (all_hold config packet start count h))
