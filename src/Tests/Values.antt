-- ===== src/Tests/Values.antt =====
-- Bit fields, the coordinator, batteries, groups and ranges: the theorems at concrete inputs.
use luxpower_ha_integration.Base.{
  ℕ, ◌+◌, ◌*◌, ◌/◌, ◌%◌, ◌^◌, ◌≡◌, ◌↔◌, refl, arith, true, false, none, some, List, [], ◌∷◌, All,
  Outcome, ok, raised, timeout_error, if◌then◌else◌,
}
use luxpower_ha_integration.Base.Dict.{Dict, nat_eq, lookup, contains, put}
use luxpower_ha_integration.Packet.Response.{LxpResponse, unparsed}
use luxpower_ha_integration.Utils.{get_bits, set_bits, get_highest_set_bit}
use luxpower_ha_integration.Utils
use luxpower_ha_integration.Utils.Fields.{get_bits-set_bits}
use luxpower_ha_integration.Validator.{member, hold, is_data_sane, time_registers}
use luxpower_ha_integration.Validator
use luxpower_ha_integration.Validator.Sane.{Allowed, is_data_sane_iff}
use luxpower_ha_integration.Coordinator.{init, updates}
use luxpower_ha_integration.Coordinator.Schedule.{
  consecutive_failures, last_success_of, state_for, updates-init,
}
use luxpower_ha_integration.Batteries.{key_eq}
use luxpower_ha_integration.Batteries
use luxpower_ha_integration.Client.Pass.{range, range_from}
use luxpower_ha_integration.Telemetry.{
  TelemetryGroup, operational, diagnostic, group_beq, add_groups, add_registers, set_defaults,
  build_input_group_map, input_register_group, group_input_registers, group_or_unclassified,
}
use luxpower_ha_integration.Telemetry.Registers.{input_registers_for_group}
use luxpower_ha_integration.Telemetry.Built.{build_input_group_map-for_group}
use luxpower_ha_integration.Telemetry.Grouping.{
  listed_in, value_in, input_register_group-listed_in, group_input_registers-value_in,
}

get_bits-set_bits_example :
    (get_bits (set_bits 255 4 2 1) 4 2 ≡ 1 % 2 ^ 2)
    × (set_bits 255 4 2 1 % 2 ^ 4 ≡ 255 % 2 ^ 4)
    × (set_bits 255 4 2 1 / 2 ^ 4 / 2 ^ 2 ≡ 255 / 2 ^ 4 / 2 ^ 2)
get_bits-set_bits_example = get_bits-set_bits 255 4 2 1

one_bit_cleared : set_bits 255 4 2 1 ≡ 223
unfolding Utils.program
one_bit_cleared = refl

is_data_sane_iff_example :
    (is_data_sane ((68, 23 + 256 * 59) ∷ (1, 65535) ∷ []) hold ≡ true)
    ↔ All (Allowed (time_registers hold)) ((68, 23 + 256 * 59) ∷ (1, 65535) ∷ [])
is_data_sane_iff_example = is_data_sane_iff ((68, 23 + 256 * 59) ∷ (1, 65535) ∷ []) hold

bad_hour : is_data_sane ((1, 65535) ∷ (68, 24) ∷ []) hold ≡ false
unfolding Validator.program
bad_hour = refl

-- Four failures in a row, after a success.
abbrev outcomes : List (Outcome ℕ × ℕ)
outcomes =
    (ok 7, 100)
    ∷ (raised timeout_error, 110)
    ∷ (raised timeout_error, 120)
    ∷ (raised timeout_error, 130)
    ∷ (raised timeout_error, 140)
    ∷ []

updates-init_example :
    updates (init 10) outcomes
    ≡ state_for 10 (consecutive_failures 0 outcomes) (last_success_of none outcomes)
updates-init_example = updates-init 10 outcomes

-- A response for register 5000 with one battery, whose serial is B1.
abbrev battery_response : LxpResponse
battery_response = record unparsed {
  packet_error = false;
  register = some 5000;
  value =
      0 ∷ 0 ∷ 0 ∷ 0 ∷ 0 ∷ 0 ∷ 44 ∷ 1 ∷ 0 ∷ 0 ∷ 0 ∷ 0 ∷ 0 ∷ 0 ∷ 0 ∷ 0 ∷ 0 ∷ 0 ∷ 0 ∷ 0 ∷ 0 ∷ 0 ∷ 0 ∷ 0
      ∷ 0 ∷ 0 ∷ 0 ∷ 0 ∷ 0 ∷ 0 ∷ 0 ∷ 0 ∷ 0 ∷ 0 ∷ 0 ∷ 0 ∷ 0 ∷ 0 ∷ 66 ∷ 49 ∷ 0 ∷ 0 ∷ [];
}

six_blocks : range 0 750 125 ≡ ok (0 ∷ 125 ∷ 250 ∷ 375 ∷ 500 ∷ 625 ∷ [])
unfolding range range_from
six_blocks = refl

-- Two groups of one register each.
abbrev two_groups : List (TelemetryGroup × List ℕ)
two_groups = (operational, 5 ∷ []) ∷ (diagnostic, 7 ∷ []) ∷ []

abbrev group_map : Dict ℕ TelemetryGroup
group_map = set_defaults 750 0 ((5, operational) ∷ (7, diagnostic) ∷ [])

two_groups_are_built : build_input_group_map two_groups ≡ ok group_map
unfolding build_input_group_map add_groups add_registers contains put
two_groups_are_built = refl

input_register_group-listed_in_example :
    input_register_group group_map 7 ≡ group_or_unclassified (listed_in two_groups 7 none)
input_register_group-listed_in_example =
    input_register_group-listed_in two_groups group_map 7 two_groups_are_built

abbrev snapshot : Dict ℕ ℕ
snapshot = (7, 70) ∷ (5, 50) ∷ []

group_input_registers-value_in_example :
    value_in diagnostic 7 (group_input_registers group_map snapshot)
    ≡ (if group_beq (input_register_group group_map 7) diagnostic then lookup 7 snapshot else none)
group_input_registers-value_in_example =
    group_input_registers-value_in group_map snapshot diagnostic 7

build_input_group_map-for_group_example :
    (member 5 (input_registers_for_group group_map operational) ≡ true)
    ↔ (group_or_unclassified (listed_in two_groups 5 none) ≡ operational)
build_input_group_map-for_group_example =
    build_input_group_map-for_group two_groups group_map operational 5 two_groups_are_built
      (omega arith)
