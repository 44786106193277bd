-- ===== src/Packet/Crc.antt =====
-- classes/lxp_packet_utils.py: the CRC-16 of a data frame (polynomial 0xA001, reflected).
use luxpower_ha_integration.Base.{
  ℕ, zero, suc, ◌+◌, ◌*◌, ◌/◌, ◌%◌, ◌^◌, ◌<◌, ◌≡◌, refl, ap, sym, ◌∙◌, not, [], ◌∷◌, ◌++◌, arith,
  ◌==◌, if◌then◌else◌, bit_and, bit_xor,
}
use luxpower_ha_integration.Base.Bits.{bit_and-one, bit_and_mask, bit_xor-lt, bit_xor_low}
use luxpower_ha_integration.Packet.Bytes.{Bytes, AreBytes, little_endian}
use native.Mathlib.Nat.{pow-suc}

-- One round of the inner loop.
pub crc_round : ℕ → ℕ
crc_round crc = if not (bit_and crc 1 == 0) then bit_xor (crc / 2) 0xA001 else crc / 2

-- `for _ in range(n)`
pub crc_rounds : ℕ → ℕ → ℕ
crc_rounds zero crc = crc
crc_rounds (suc n) crc = crc_rounds n (crc_round crc)

-- `for pos in data`
pub crc_loop : ℕ → Bytes → ℕ
crc_loop crc [] = crc
crc_loop crc (pos ∷ rest) = crc_loop (crc_rounds 8 (bit_xor crc pos)) rest

unfoldable pub compute_crc : Bytes → ℕ
unfolding crc_loop crc_rounds crc_round
compute_crc bytes = bit_and (crc_loop 0xFFFF bytes) 0xFFFF

-- The register keeps to 16 bits.
crc_round-lt : (crc : ℕ) → crc < 2 ^ 16 → crc_round crc < 2 ^ 16
unfolding crc_round
crc_round-lt crc h = ground (arith, bit_xor-lt 16 (crc / 2) 0xA001)

crc_rounds-lt : (n crc : ℕ) → crc < 2 ^ 16 → crc_rounds n crc < 2 ^ 16
unfolding crc_rounds
crc_rounds-lt zero crc h = h
crc_rounds-lt (suc n) crc h = crc_rounds-lt n (crc_round crc) (crc_round-lt crc h)

crc_loop-lt :
    (crc : ℕ) (bytes : Bytes) → crc < 2 ^ 16 → AreBytes bytes → crc_loop crc bytes < 2 ^ 16
unfolding crc_loop
crc_loop-lt crc [] h b = h
crc_loop-lt crc (pos ∷ rest) h b =
    crc_loop-lt (crc_rounds 8 (bit_xor crc pos)) rest
      (crc_rounds-lt 8 _ (bit_xor-lt 16 crc pos h (omega arith))) b.1

pub compute_crc-lt : (bytes : Bytes) → compute_crc bytes < 65536
unfolding compute_crc
compute_crc-lt bytes = omega (arith, bit_and_mask 16 (crc_loop 0xFFFF bytes))

pub compute_crc-crc_loop :
    (bytes : Bytes) → AreBytes bytes → compute_crc bytes ≡ crc_loop 0xFFFF bytes
unfolding compute_crc
compute_crc-crc_loop bytes b =
    let small = crc_loop-lt 0xFFFF bytes (omega arith) b in
    omega (arith, small, bit_and_mask 16 (crc_loop 0xFFFF bytes))

crc_loop-append :
    (crc : ℕ) (xs ys : Bytes) → crc_loop crc (xs ++ ys) ≡ crc_loop (crc_loop crc xs) ys
unfolding crc_loop
crc_loop-append crc [] ys = refl
crc_loop-append crc (x ∷ xs) ys = crc_loop-append (crc_rounds 8 (bit_xor crc x)) xs ys

-- A register whose low digits are zero is only shifted.
crc_round_even : (m : ℕ) → crc_round (2 * m) ≡ m
unfolding crc_round
crc_round_even m = ground (arith, bit_and-one (2 * m))

crc_rounds_shift : (n m : ℕ) → crc_rounds n (m * 2 ^ n) ≡ m
unfolding crc_rounds
crc_rounds_shift zero m = omega arith
crc_rounds_shift (suc n) m =
    let e : m * 2 ^ suc n ≡ 2 * (m * 2 ^ n) = omega (arith, ap (λ (t : ℕ). m * t) (pow-suc 2 n)) in
    ap (λ t. crc_rounds n (crc_round t)) e
    ∙ ap (crc_rounds n) (crc_round_even (m * 2 ^ n))
    ∙ crc_rounds_shift n m

-- A byte that agrees with the low half of the register clears it.
crc_byte_shift : (crc : ℕ) → crc_rounds 8 (bit_xor crc (crc % 256)) ≡ crc / 256
crc_byte_shift crc =
    let split : crc / 256 * 2 ^ 8 + crc % 256 ≡ crc = omega arith in
    ap (λ t. crc_rounds 8 (bit_xor t (crc % 256))) (sym split)
    ∙ ap (crc_rounds 8) (bit_xor_low 8 (crc / 256) (crc % 256) (omega arith))
    ∙ crc_rounds_shift 8 (crc / 256)

crc_loop_residue : (crc : ℕ) → crc < 65536 → crc_loop crc (little_endian 2 crc) ≡ 0
unfolding crc_loop
crc_loop_residue crc h =
    let high : crc / 256 % 256 ≡ crc / 256 = omega arith in
    let gone : crc / 256 / 256 ≡ 0 = omega arith in
    ap (λ t. crc_rounds 8 (bit_xor t (crc / 256 % 256))) (crc_byte_shift crc)
    ∙ crc_byte_shift (crc / 256)
    ∙ gone

-- The checksum of a data frame followed by its own checksum, low byte first, is zero.
pub compute_crc_residue :
    (bytes : Bytes)
    → AreBytes bytes
    → compute_crc (bytes ++ little_endian 2 (compute_crc bytes)) ≡ 0
unfolding compute_crc
compute_crc_residue bytes b =
    let crc = compute_crc bytes in
    let step : crc_loop 0xFFFF (bytes ++ little_endian 2 crc) ≡ 0 =
      crc_loop-append 0xFFFF bytes (little_endian 2 crc)
      ∙ ap (λ t. crc_loop t (little_endian 2 crc)) (sym (compute_crc-crc_loop bytes b))
      ∙ crc_loop_residue crc (compute_crc-lt bytes) in
    ap (λ t. bit_and t 0xFFFF) step

-- The check value of CRC-16/MODBUS, "123456789".
compute_crc_check_value :
    compute_crc (0x31 ∷ 0x32 ∷ 0x33 ∷ 0x34 ∷ 0x35 ∷ 0x36 ∷ 0x37 ∷ 0x38 ∷ 0x39 ∷ []) ≡ 0x4B37
unfolding compute_crc
compute_crc_check_value = refl
