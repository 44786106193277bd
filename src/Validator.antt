-- ===== src/Validator.antt =====
-- classes/data_validator.py: the sanity check of register values.
pub mod Sane
use luxpower_ha_integration.Base.{
  ℕ, ◌/◌, ◌%◌, Bool, true, false, not, ◌&&◌, List, [], ◌∷◌, leb, ◌==◌, ◌||◌, if◌then◌else◌,
}
use luxpower_ha_integration.Base.Dict.{Dict}

-- The `request_type` strings that the client passes.
pub data RequestType : Type 0 where
  input input_bat hold : RequestType

-- HOLD_TIME_REGISTERS, with the numbers of constants/hold_registers.py.
abbrev pub hold_time_registers : List ℕ
hold_time_registers =
    68 ∷ 69 ∷ 70 ∷ 71 ∷ 72 ∷ 73 ∷ 152 ∷ 153 ∷ 154 ∷ 155 ∷ 209 ∷ 210 ∷ 211 ∷ 212 ∷ []

abbrev pub input_time_registers : List ℕ
input_time_registers = []

-- r in registers
unfoldable pub member : ℕ → List ℕ → Bool
member r [] = false
member r (s ∷ registers) = (s == r) || member r registers

abbrev pub time_registers : RequestType → List ℕ
time_registers hold = hold_time_registers
time_registers input = input_time_registers
time_registers input_bat = input_time_registers

-- 0 <= hour <= 23 and 0 <= minute <= 59
abbrev pub is_time : ℕ → Bool
is_time value =
    let hour = value % 256 in let minute = value / 256 % 256 in leb hour 23 && leb minute 59

unfoldable pub all_sane : List ℕ → Dict ℕ ℕ → Bool
all_sane times [] = true
all_sane times ((register, value) ∷ registers) =
    let rest = all_sane times registers in
    if member register times && not (is_time value) then false else rest

unfoldable pub is_data_sane : Dict ℕ ℕ → RequestType → Bool
is_data_sane registers request_type = all_sane (time_registers request_type) registers

-- Named on the `unfolding` line of a test, this opens the check.
unfoldable pub program : Unit {0}
unfolding is_data_sane all_sane member
program = tt
