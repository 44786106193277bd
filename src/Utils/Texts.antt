-- ===== src/Utils/Texts.antt =====
-- utils.py: the texts of the model and of the firmware version. A register has 16 bits, so the
-- code points are below 256.
use luxpower_ha_integration.Base.{
  ℕ, ◌+◌, ◌-◌, ◌/◌, ◌%◌, ◌≡◌, inl, inr, refl, Bool, true, false, not, ◌&&◌, ◌||◌, Option, none,
  some, List, [], ◌∷◌, ◌++◌, arith, ltb, leb, ◌==◌, if◌then◌else◌, is_empty, Bool-cases,
}
use luxpower_ha_integration.Base.Dict.{Dict, nat_eq, lookup, contains}
use luxpower_ha_integration.Utils.{value_or_zero}

-- text.lstrip and text.rstrip of the characters of a class
unfoldable pub lstrip : (ℕ → Bool) → List ℕ → List ℕ
lstrip p [] = []
lstrip p (c ∷ cs) = let rest = lstrip p cs in if p c then rest else c ∷ cs

unfoldable pub rstrip : (ℕ → Bool) → List ℕ → List ℕ
rstrip p [] = []
rstrip p (c ∷ cs) = let rest = rstrip p cs in if p c && is_empty rest then [] else c ∷ rest

abbrev pub is_nul : ℕ → Bool
is_nul c = c == 0

-- The white space below code point 256.
abbrev pub is_space : ℕ → Bool
is_space c = (leb 9 c && leb c 13) || (leb 28 c && leb c 32) || c == 133 || c == 160

abbrev pub high_low : ℕ → List ℕ
high_low value = value / 256 % 256 ∷ value % 256 ∷ []

unfoldable pub decode_model_from_registers : Dict ℕ ℕ → List ℕ
decode_model_from_registers registers =
    let chars =
      high_low (value_or_zero (lookup 7 registers))
      ++ high_low (value_or_zero (lookup 8 registers)) in
    rstrip is_space (lstrip is_space (rstrip is_nul (lstrip is_nul chars)))

-- A character of text.upper(), for a code point below 256.
abbrev pub upper : ℕ → List ℕ
upper c =
    if leb 97 c && leb c 122
    then (c - 32) ∷ []
    else if c == 181
    then 924 ∷ []
    else if c == 223
    then 83 ∷ 83 ∷ []
    else if c == 255
    then 376 ∷ []
    else if leb 224 c && not (c == 247)
    then (c - 32) ∷ []
    else c ∷ []

abbrev pub hex_digit : ℕ → ℕ
hex_digit d = if ltb d 10 then 48 + d else 55 + d

-- f"{byte:02X}"
abbrev pub hex_byte : ℕ → List ℕ
hex_byte b = hex_digit (b / 16) ∷ hex_digit (b % 16) ∷ []

abbrev pub firmware_text : (r7 r8 r9 r10 : ℕ) → List ℕ
firmware_text r7 r8 r9 r10 =
    upper (r7 % 256)
    ++ upper (r7 / 256)
    ++ upper (r8 % 256)
    ++ upper (r8 / 256)
    ++ 45 ∷ hex_byte (r9 % 256)
    ++ hex_byte (r9 / 256)
    ++ hex_byte (r10 % 256)

unfoldable pub format_firmware_version : Dict ℕ ℕ → Option (List ℕ)
format_firmware_version hold_registers =
    if not (
      contains 7 hold_registers
      && contains 8 hold_registers
      && contains 9 hold_registers
      && contains 10 hold_registers)
    then none
    else some (
        firmware_text (value_or_zero (lookup 7 hold_registers))
          (value_or_zero (lookup 8 hold_registers)) (value_or_zero (lookup 9 hold_registers))
          (value_or_zero (lookup 10 hold_registers)))

-- Whether a text is empty or neither starts nor ends with a character of a class.
abbrev pub ends_outside : (ℕ → Bool) → List ℕ → Bool
ends_outside p [] = true
ends_outside p (c ∷ []) = not (p c)
ends_outside p (c ∷ d ∷ cs) = ends_outside p (d ∷ cs)

abbrev pub starts_outside : (ℕ → Bool) → List ℕ → Bool
starts_outside p [] = true
starts_outside p (c ∷ cs) = not (p c)

lstrip-starts : (p : ℕ → Bool) (cs : List ℕ) → starts_outside p (lstrip p cs) ≡ true
unfolding lstrip
lstrip-starts p [] = refl
lstrip-starts p (c ∷ cs) = ground (arith, lstrip-starts p cs)

rstrip-starts :
    (p : ℕ → Bool) (cs : List ℕ)
    → starts_outside p cs ≡ true
    → starts_outside p (rstrip p cs) ≡ true
unfolding rstrip
rstrip-starts p [] h = refl
rstrip-starts p (c ∷ cs) h = ground arith

ends-cons :
    (p : ℕ → Bool) (c : ℕ) (rest : List ℕ)
    → ends_outside p rest ≡ true
    → (p c && is_empty rest) ≡ false
    → ends_outside p (c ∷ rest) ≡ true
ends-cons p c [] h kept = ground arith
ends-cons p c (d ∷ rest) h kept = h

rstrip-ends : (p : ℕ → Bool) (cs : List ℕ) → ends_outside p (rstrip p cs) ≡ true
unfolding rstrip
rstrip-ends p [] = refl
rstrip-ends p (c ∷ cs) = elim (Bool-cases (p c && is_empty (rstrip p cs))) [
  | inl t ↦ rw t refl
  | inr f ↦ rw f (ends-cons p c (rstrip p cs) (rstrip-ends p cs) f)
]

-- The text of the model neither starts nor ends with white space.
pub decode_model_from_registers-trimmed :
    (registers : Dict ℕ ℕ)
    → (starts_outside is_space (decode_model_from_registers registers) ≡ true)
      × (ends_outside is_space (decode_model_from_registers registers) ≡ true)
unfolding decode_model_from_registers
decode_model_from_registers-trimmed registers =
    let chars = rstrip is_nul (
      lstrip is_nul (
        high_low (value_or_zero (lookup 7 registers))
        ++ high_low (value_or_zero (lookup 8 registers)))) in
    (
      rstrip-starts is_space (lstrip is_space chars) (lstrip-starts is_space chars),
      rstrip-ends is_space (lstrip is_space chars),
    )
