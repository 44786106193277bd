-- ===== src/Telemetry/Registers.antt =====
-- telemetry_groups.py: the groups of battery values and settings, and the registers of a group.
use luxpower_ha_integration.Base.{
  ℕ, ◌≡◌, ◌↔◌, ap, ◌∙◌, inl, inr, Bool, true, not, ◌&&◌, some, List, [], ◌∷◌, arith, ◌==◌, ==_iff,
  if◌then◌else◌, Bool-cases,
}
use luxpower_ha_integration.Base.Dict.{Dict, nat_eq, lookup, contains, lookup-contains}
use luxpower_ha_integration.Validator.{member}
use luxpower_ha_integration.Batteries.{BatteryKey, serial, offset, key_eq}
use luxpower_ha_integration.Telemetry.{
  TelemetryGroup, operational, diagnostic, energy_counter, configuration, metadata, group_beq,
  group_beq_iff, group_or_unclassified,
}

-- _BATTERY_GROUP_BY_REGISTER
abbrev pub battery_group_by_register : Dict BatteryKey TelemetryGroup
battery_group_by_register =
    (offset 3, metadata)
    ∷ (offset 5, operational)
    ∷ (offset 6, operational)
    ∷ (offset 8, operational)
    ∷ (offset 9, operational)
    ∷ (offset 10, operational)
    ∷ (offset 11, energy_counter)
    ∷ (offset 12, diagnostic)
    ∷ (offset 13, diagnostic)
    ∷ (offset 14, diagnostic)
    ∷ (offset 15, diagnostic)
    ∷ (offset 16, diagnostic)
    ∷ (offset 17, diagnostic)
    ∷ (offset 18, metadata)
    ∷ (serial, metadata)
    ∷ []

unfoldable pub battery_register_group : BatteryKey → TelemetryGroup
battery_register_group register = group_or_unclassified (lookup register battery_group_by_register)

-- A register number is an integer that is not negative.
abbrev pub holding_register_group : ℕ → TelemetryGroup
holding_register_group register = configuration

-- input_registers_for_group, over the map that the module is loaded with
unfoldable pub input_registers_for_group : Dict ℕ TelemetryGroup → TelemetryGroup → List ℕ
input_registers_for_group [] group = []
input_registers_for_group ((register, assigned_group) ∷ groups) group =
    let rest = input_registers_for_group groups group in
    if group_beq assigned_group group then register ∷ rest else rest

-- A dictionary that has each key once.
unfoldable pub has_each_once : Dict ℕ TelemetryGroup → Bool
has_each_once [] = true
has_each_once ((k, g) ∷ d) = let rest = has_each_once d in not (contains k d) && rest

listed-lookup :
    (d : Dict ℕ TelemetryGroup) (g : TelemetryGroup) (r : ℕ)
    → has_each_once d ≡ true
    → member r (input_registers_for_group d g) ≡ true
    → lookup r d ≡ some g
unfolding has_each_once input_registers_for_group member lookup contains
listed-lookup [] g r once h = cc
listed-lookup ((k, f) ∷ d) g r once h =
    let later : member r (input_registers_for_group d g) ≡ true → lookup r d ≡ some g =
      listed-lookup d g r (ground arith) in
    elim (Bool-cases (k == r)) [
      | inl hit ↦
          let same = (==_iff k r).0 hit in
          elim (Bool-cases (group_beq f g)) [
            | inl t ↦ let e = (group_beq_iff f g).0 t in ground (arith, e, hit)
            | inr no' ↦
                let found = later (ground (arith, no')) in
                let there' = lookup-contains r g d found in
                let there'' = ap (λ i. contains i d) same ∙ there' in absurd (ground arith)
          ]
      | inr miss ↦ elim (Bool-cases (group_beq f g)) [
        | inl t ↦ let found = later (ground (arith, t, miss)) in ground (arith, found, miss)
        | inr no' ↦ let found = later (ground (arith, no')) in ground (arith, found, miss)
      ]
    ]

lookup-listed :
    (d : Dict ℕ TelemetryGroup) (g : TelemetryGroup) (r : ℕ)
    → lookup r d ≡ some g
    → member r (input_registers_for_group d g) ≡ true
unfolding input_registers_for_group member lookup
lookup-listed [] g r h = cc
lookup-listed ((k, f) ∷ d) g r h = elim (Bool-cases (k == r)) [
  | inl hit ↦
      let same : f ≡ g = ground (arith, hit) in
      let t = (group_beq_iff f g).1 same in ground (arith, t, hit)
  | inr miss ↦ let later = lookup-listed d g r (ground (arith, miss)) in ground (arith, later)
]

-- With a map that has each register once, the registers of a group are exactly those to which the
-- map assigns the group.
pub input_registers_for_group-member :
    (groups : Dict ℕ TelemetryGroup) (group : TelemetryGroup) (register : ℕ)
    → has_each_once groups ≡ true
    → (member register (input_registers_for_group groups group) ≡ true)
      ↔ (lookup register groups ≡ some group)
input_registers_for_group-member groups group register once =
    (listed-lookup groups group register once, lookup-listed groups group register)
