-- ===== src/Utils.antt =====
-- utils.py: bit fields of registers, bitmasks, and the PV strings of the inverter. Values are not
-- negative. A text is a list of code points, a set of PV strings the list of its members.
pub mod Fields
pub mod Texts
use luxpower_ha_integration.Base.{
  ℕ, zero, suc, ◌+◌, ◌-◌, ◌*◌, ◌/◌, ◌%◌, ◌^◌, Bool, true, false, not, Option, none, some, List, [],
  ◌∷◌, ◌++◌, ◌==◌, if◌then◌else◌, is_empty, bit_and, bit_or,
}
use luxpower_ha_integration.Base.Dict.{Dict, nat_eq, lookup}
use luxpower_ha_integration.Validator.{member}

-- mask = (1 << bit_count) - 1; (value >> start_bit) & mask
unfoldable pub get_bits : (value start_bit bit_count : ℕ) → ℕ
get_bits value start_bit bit_count = bit_and (value / 2 ^ start_bit) (2 ^ bit_count - 1)

-- `a & ~b` of two numbers: what is left of `a` without the bits that `b` has too.
abbrev pub and_not : ℕ → ℕ → ℕ
and_not a b = a - bit_and a b

unfoldable pub set_bits : (orig_value start_bit bit_count new_bits : ℕ) → ℕ
set_bits orig_value start_bit bit_count new_bits =
    let mask = 2 ^ bit_count - 1 in
    let cleared = and_not orig_value (mask * 2 ^ start_bit) in
    bit_or cleared (bit_and new_bits mask * 2 ^ start_bit)

-- PV_INPUT_MODEL_STRINGS
abbrev pub pv_input_model_strings : Dict ℕ (List ℕ)
pv_input_model_strings =
    (0, [])
    ∷ (1, 1 ∷ [])
    ∷ (2, 2 ∷ [])
    ∷ (4, 1 ∷ 2 ∷ [])
    ∷ (5, 1 ∷ 3 ∷ [])
    ∷ (6, 2 ∷ 3 ∷ [])
    ∷ (7, 1 ∷ 2 ∷ 3 ∷ [])
    ∷ []

unfoldable pub active_pv_strings : Option ℕ → Option (List ℕ)
active_pv_strings none = none
active_pv_strings (some pv_input_model) = lookup pv_input_model pv_input_model_strings

-- registers.get(register, 0)
abbrev pub value_or_zero : Option ℕ → ℕ
value_or_zero none = 0
value_or_zero (some v) = v

unfoldable pub sum_pv_registers : (registers string_registers : Dict ℕ ℕ) (strings : List ℕ) → ℕ
sum_pv_registers registers [] strings = 0
sum_pv_registers registers ((string, register) ∷ string_registers) strings =
    let rest = sum_pv_registers registers string_registers strings in
    if member string strings then value_or_zero (lookup register registers) + rest else rest

-- The messages of the bits that are set.
unfoldable pub active_messages : (value : ℕ) → Dict ℕ (List ℕ) → List (List ℕ)
active_messages value [] = []
active_messages value ((bit, message) ∷ code_map) =
    let rest = active_messages value code_map in
    if not (bit_and (value / 2 ^ bit) 1 == 0) then message ∷ rest else rest

-- ", ".join(messages)
unfoldable pub join : List (List ℕ) → List ℕ
join [] = []
join (message ∷ []) = message
join (message ∷ next ∷ messages) = message ++ 44 ∷ 32 ∷ join (next ∷ messages)

unfoldable pub decode_bitmask_to_string :
    Option ℕ → (code_map : Dict ℕ (List ℕ)) (default_string : List ℕ) → List ℕ
decode_bitmask_to_string none code_map default_string = default_string
decode_bitmask_to_string (some value) code_map default_string =
    let messages = active_messages value code_map in
    if value == 0
    then default_string
    else if is_empty messages
    then default_string
    else join messages

-- value.bit_length(), for which `fuel` halvings are enough if it is the value at least
unfoldable pub bit_length : (fuel value : ℕ) → ℕ
bit_length zero value = 0
bit_length (suc fuel) value =
    let rest = bit_length fuel (value / 2) in if value == 0 then 0 else suc rest

unfoldable pub get_highest_set_bit : ℕ → Option ℕ
get_highest_set_bit value = if value == 0 then none else some (bit_length value value - 1)

-- Named on the `unfolding` line of a test, this opens the functions.
unfoldable pub program : Unit {0}
unfolding get_bits set_bits active_pv_strings sum_pv_registers active_messages join
    decode_bitmask_to_string bit_length get_highest_set_bit lookup member
program = tt
