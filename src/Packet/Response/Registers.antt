-- ===== src/Packet/Response/Registers.antt =====
-- The registers that a response carries: which word stands at which register, and its range.
use luxpower_ha_integration.Base.{
  ℕ, zero, suc, ◌+◌, ◌*◌, ◌%◌, ◌<◌, ◌≡◌, refl, ap, ◌∙◌, Option, none, some, List, [], ◌∷◌, arith,
  length, get_elem?,
}
use luxpower_ha_integration.Base.Bits.{bit_or_low_first}
use luxpower_ha_integration.Base.Dict.{nat_eq, lookup}
use luxpower_ha_integration.Packet.Bytes.{Bytes, AreBytes}
use luxpower_ha_integration.Packet.Response.{
  LxpResponse, words, number_from, number_words, parsed_values_dictionary,
}

-- The little-endian word of the bytes at `2 * i` and `2 * i + 1`, if both are there.
abbrev pub word_at : Bytes → ℕ → Option ℕ
word_at (low ∷ high ∷ rest) zero = some (low + 256 * high)
word_at (low ∷ high ∷ rest) (suc i) = word_at rest i
word_at _ i = none

get_elem?-words :
    (value : Bytes) (i : ℕ) → AreBytes value → get_elem? (words value) i ≡ word_at value i
unfolding words
get_elem?-words [] i h = refl
get_elem?-words (low ∷ []) i h = refl
get_elem?-words (low ∷ high ∷ rest) zero h = ap some (bit_or_low_first 8 high low h.0 ∙ omega arith)
get_elem?-words (low ∷ high ∷ rest) (suc i) h = get_elem?-words rest i h.1.1

lookup-number_from-below :
    (j start : ℕ) (ws : List ℕ) → j < start → lookup j (number_from start ws) ≡ none
unfolding number_from lookup
lookup-number_from-below j start [] h = refl
lookup-number_from-below j start (w ∷ ws) h =
    ground (arith, lookup-number_from-below j (start + 1) ws)

lookup-number_from :
    (start i : ℕ) (ws : List ℕ) → lookup (start + i) (number_from start ws) ≡ get_elem? ws i
unfolding number_from lookup
lookup-number_from start i [] = refl
lookup-number_from start zero (w ∷ ws) = ground arith
lookup-number_from start (suc i) (w ∷ ws) =
    let shift : start + 1 + i ≡ start + suc i = omega arith in
    ground (
      arith,
      ap (λ j. lookup j (number_from (start + 1) ws)) shift,
      lookup-number_from (start + 1) i ws,
    )

-- A response without exception whose value has an even length has, at its start register plus
-- `i`, the `i`-th little-endian word of the value, and nothing from the end of the value on.
pub lookup-parsed_values_dictionary :
    (r : LxpResponse) (start i : ℕ)
    → r.register ≡ some start
    → r.exception ≡ 0
    → length r.value % 2 ≡ 0
    → AreBytes r.value
    → lookup (start + i) (parsed_values_dictionary r) ≡ word_at r.value i
unfolding parsed_values_dictionary number_words
lookup-parsed_values_dictionary r start i es ee el bytes =
    let found = lookup-number_from start i (words r.value) ∙ get_elem?-words r.value i bytes in
    ground (arith, found)

length-number_from : (start : ℕ) (ws : List ℕ) → length (number_from start ws) ≡ length ws
unfolding number_from
length-number_from start [] = refl
length-number_from start (w ∷ ws) = ap suc (length-number_from (start + 1) ws)
