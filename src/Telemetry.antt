-- ===== src/Telemetry.antt =====
-- telemetry_groups.py: the semantic groups of the input registers, and the grouping of a snapshot.
-- A set of registers is the list of its members in ascending order, with the numbers of
-- constants/input_registers.py.
pub mod Grouping
pub mod Registers
pub mod Built
use luxpower_ha_integration.Base.{
  ℕ, zero, suc, ◌+◌, ◌≡◌, ◌↔◌, refl, Bool, true, false, Option, none, some, List, [], ◌∷◌, arith,
  leb, ◌==◌, if◌then◌else◌, Outcome, ok, raised, runtime_error, ◌>>=◌,
}
use luxpower_ha_integration.Base.Dict.{Dict, Eq, nat_eq, lookup, contains, put}
use luxpower_ha_integration.Client.{total_registers}

pub data TelemetryGroup : Type 0 where
  operational diagnostic energy_counter configuration metadata unclassified : TelemetryGroup

abbrev pub group_beq : TelemetryGroup → TelemetryGroup → Bool
group_beq operational operational = true
group_beq diagnostic diagnostic = true
group_beq energy_counter energy_counter = true
group_beq configuration configuration = true
group_beq metadata metadata = true
group_beq unclassified unclassified = true
group_beq _ _ = false

pub group_beq_iff : (a b : TelemetryGroup) → (group_beq a b ≡ true) ↔ (a ≡ b)
group_beq_iff operational _ = ground arith
group_beq_iff diagnostic _ = ground arith
group_beq_iff energy_counter _ = ground arith
group_beq_iff configuration _ = ground arith
group_beq_iff metadata _ = ground arith
group_beq_iff unclassified _ = ground arith

instance abbrev pub group_eq : Eq TelemetryGroup
group_eq = record { beq = group_beq; beq_iff = group_beq_iff }

abbrev pub operational_input_registers : List ℕ
operational_input_registers =
    0 ∷ 1 ∷ 2 ∷ 3 ∷ 4 ∷ 5 ∷ 7 ∷ 8 ∷ 9 ∷ 10 ∷ 11 ∷ 12 ∷ 13 ∷ 14 ∷ 15 ∷ 16 ∷ 17 ∷ 18 ∷ 19 ∷ 20 ∷ 21
    ∷ 22 ∷ 23 ∷ 24 ∷ 25 ∷ 26 ∷ 27 ∷ 38 ∷ 39 ∷ 77 ∷ 81 ∷ 82 ∷ 83 ∷ 84 ∷ 95 ∷ 98 ∷ 107 ∷ 114 ∷ 120
    ∷ 121 ∷ 122 ∷ 123 ∷ 127 ∷ 128 ∷ 129 ∷ 130 ∷ 131 ∷ 132 ∷ 139 ∷ 153 ∷ 170 ∷ 180 ∷ 181 ∷ 182 ∷ 183
    ∷ 184 ∷ 185 ∷ 186 ∷ 187 ∷ 188 ∷ 189 ∷ 190 ∷ 191 ∷ 192 ∷ 193 ∷ 194 ∷ 195 ∷ 196 ∷ 197 ∷ 198 ∷ 199
    ∷ 200 ∷ 201 ∷ 202 ∷ 203 ∷ 204 ∷ 205 ∷ 206 ∷ 207 ∷ 208 ∷ 209 ∷ 210 ∷ 217 ∷ 218 ∷ 219 ∷ 220 ∷ 221
    ∷ 222 ∷ 232 ∷ []

abbrev pub diagnostic_input_registers : List ℕ
diagnostic_input_registers =
    6 ∷ 60 ∷ 61 ∷ 62 ∷ 63 ∷ 64 ∷ 65 ∷ 66 ∷ 67 ∷ 71 ∷ 85 ∷ 86 ∷ 87 ∷ 88 ∷ 89 ∷ 90 ∷ 91 ∷ 92 ∷ 93 ∷ 94
    ∷ 99 ∷ 100 ∷ 101 ∷ 102 ∷ 103 ∷ 104 ∷ 105 ∷ 113 ∷ 174 ∷ 176 ∷ 177 ∷ 178 ∷ 214 ∷ 215 ∷ 216 ∷ []

abbrev pub energy_counter_input_registers : List ℕ
energy_counter_input_registers =
    28 ∷ 29 ∷ 30 ∷ 31 ∷ 32 ∷ 33 ∷ 34 ∷ 35 ∷ 36 ∷ 37 ∷ 40 ∷ 41 ∷ 42 ∷ 43 ∷ 44 ∷ 45 ∷ 46 ∷ 47 ∷ 48
    ∷ 49 ∷ 50 ∷ 51 ∷ 52 ∷ 53 ∷ 54 ∷ 55 ∷ 56 ∷ 57 ∷ 58 ∷ 59 ∷ 69 ∷ 70 ∷ 106 ∷ 124 ∷ 125 ∷ 126 ∷ 133
    ∷ 134 ∷ 135 ∷ 136 ∷ 137 ∷ 138 ∷ 171 ∷ 172 ∷ 173 ∷ 223 ∷ 224 ∷ 225 ∷ 226 ∷ 227 ∷ 228 ∷ 229 ∷ 230
    ∷ 231 ∷ []

abbrev pub metadata_input_registers : List ℕ
metadata_input_registers = 72 ∷ 73 ∷ 74 ∷ 75 ∷ 80 ∷ 96 ∷ 97 ∷ 115 ∷ 116 ∷ 117 ∷ 118 ∷ []

-- _EXPLICIT_INPUT_GROUPS
abbrev pub explicit_input_groups : List (TelemetryGroup × List ℕ)
explicit_input_groups =
    (operational, operational_input_registers)
    ∷ (diagnostic, diagnostic_input_registers)
    ∷ (energy_counter, energy_counter_input_registers)
    ∷ (metadata, metadata_input_registers)
    ∷ []

-- The inner loop over the registers of a group.
unfoldable pub add_registers :
    TelemetryGroup → List ℕ → Dict ℕ TelemetryGroup → Outcome (Dict ℕ TelemetryGroup)
add_registers group [] groups = ok groups
add_registers group (register ∷ registers) groups =
    let rest = add_registers group registers (put register group groups) in
    if contains register groups then raised runtime_error else rest

-- The loop over the groups.
unfoldable pub add_groups :
    List (TelemetryGroup × List ℕ) → Dict ℕ TelemetryGroup → Outcome (Dict ℕ TelemetryGroup)
add_groups [] groups = ok groups
add_groups ((group, registers) ∷ rest) groups =
    add_registers group registers groups >>= λ groups'. add_groups rest groups'

-- groups.setdefault(register, UNCLASSIFIED), for `count` registers from `register` on
unfoldable pub set_defaults : (count register : ℕ) → Dict ℕ TelemetryGroup → Dict ℕ TelemetryGroup
set_defaults zero register groups = groups
set_defaults (suc count) register groups =
    set_defaults count (register + 1)
      (if contains register groups then groups else put register unclassified groups)

-- _build_input_group_map, over the explicit groups
unfoldable pub build_input_group_map :
    List (TelemetryGroup × List ℕ) → Outcome (Dict ℕ TelemetryGroup)
build_input_group_map explicit =
    add_groups explicit [] >>= λ groups. ok (set_defaults total_registers 0 groups)

abbrev pub group_or_unclassified : Option TelemetryGroup → TelemetryGroup
group_or_unclassified none = unclassified
group_or_unclassified (some group) = group

-- input_register_group, over the map that the module is loaded with
unfoldable pub input_register_group : Dict ℕ TelemetryGroup → ℕ → TelemetryGroup
input_register_group groups register = group_or_unclassified (lookup register groups)

-- sorted(registers)
unfoldable pub insert : ℕ → List ℕ → List ℕ
insert k [] = k ∷ []
insert k (j ∷ ks) = let rest = insert k ks in if leb k j then k ∷ j ∷ ks else j ∷ rest

unfoldable pub sorted {ℓ} : {V : Type ℓ} → Dict ℕ V → List ℕ
sorted [] = []
sorted ((k, v) ∷ d) = insert k (sorted d)

module _ {ℓ} {V : Type ℓ} where
  -- grouped[group], where every group is present
  abbrev pub group_dict : Option (Dict ℕ V) → Dict ℕ V
  group_dict none = []
  group_dict (some d) = d

  -- grouped[input_register_group(register)][register] = registers[register]
  abbrev pub add_value :
      TelemetryGroup
      → ℕ
      → Option V
      → Dict TelemetryGroup (Dict ℕ V)
      → Dict TelemetryGroup (Dict ℕ V)
  add_value group register none grouped = grouped
  add_value group register (some v) grouped =
      put group (put register v (group_dict (lookup group grouped))) grouped

  unfoldable pub group_keys :
      (ℕ → TelemetryGroup)
      → Dict ℕ V
      → List ℕ
      → Dict TelemetryGroup (Dict ℕ V)
      → Dict TelemetryGroup (Dict ℕ V)
  group_keys group_of registers [] grouped = grouped
  group_keys group_of registers (register ∷ ks) grouped =
      group_keys group_of registers ks
        (add_value (group_of register) register (lookup register registers) grouped)

  -- {group: {} for group in TelemetryGroup}
  abbrev pub no_values : Dict TelemetryGroup (Dict ℕ V)
  no_values =
      (operational, [])
      ∷ (diagnostic, [])
      ∷ (energy_counter, [])
      ∷ (configuration, [])
      ∷ (metadata, [])
      ∷ (unclassified, [])
      ∷ []

  unfoldable pub group_input_registers :
      Dict ℕ TelemetryGroup → Dict ℕ V → Dict TelemetryGroup (Dict ℕ V)
  group_input_registers groups registers =
      group_keys (input_register_group groups) registers (sorted registers) no_values

-- Named on the `unfolding` line of a test, this opens the grouping.
unfoldable pub program : Unit {0}
unfolding add_registers add_groups set_defaults build_input_group_map input_register_group insert
    sorted group_keys group_input_registers lookup contains put
program = tt
