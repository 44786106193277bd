-- ===== src/Packet/Response/ShortFrame.antt =====
-- A translated packet that declares a frame without content: reading the content's first byte.
use luxpower_ha_integration.Base.{ℕ, ◌≤◌, ◌≡◌, refl, [], ◌∷◌, arith, length, raised, index_error}
use luxpower_ha_integration.Packet.Bytes.{Bytes, bytes_beq}
use luxpower_ha_integration.Packet.Crc.{compute_crc}
use luxpower_ha_integration.Packet.Response.{
  parse, dispatch, parse_translated, get_data_frame, read_frame,
}

compute_crc-empty : compute_crc [] ≡ 0xFFFF
unfolding compute_crc
compute_crc-empty = refl

-- A packet of at least 37 bytes with the prefix, a declared frame length of 4, the function 194 and
-- 0xFF in the two bytes behind it passes all checks of the parser, which then raises IndexError
-- at the first byte of the empty data frame.
pub parse-short_frame :
    (p q u : ℕ) (rest : Bytes)
    → 27 ≤ length rest
    → parse (0xA1 ∷ 0x1A ∷ p ∷ q ∷ 4 ∷ 0 ∷ u ∷ 194 ∷ 0xFF ∷ 0xFF ∷ rest) ≡ raised index_error
unfolding parse dispatch parse_translated get_data_frame read_frame bytes_beq
parse-short_frame p q u rest long = ground (arith, compute_crc-empty)
