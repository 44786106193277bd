-- ===== src/Telemetry/Built.antt =====
-- telemetry_groups.py: the map that _build_input_group_map makes, and input_registers_for_group of it.
use luxpower_ha_integration.Base.{
  ℕ, zero, suc, ◌+◌, ◌≤◌, ◌<◌, ◌≡◌, ◌↔◌, refl, ap, sym, subst, ◌∙◌, inl, inr, true, false, none,
  some, List, [], ◌∷◌, arith, ◌==◌, ==_iff, ◌||◌, if◌then◌else◌, Bool-cases, ok, >>=-eq-ok,
}
use luxpower_ha_integration.Base.Dict.{
  Dict, nat_eq, lookup, contains, put, contains-put, contains-lookup,
}
use luxpower_ha_integration.Validator.{member}
use luxpower_ha_integration.Telemetry.{
  TelemetryGroup, unclassified, add_registers, add_groups, set_defaults, build_input_group_map,
  group_or_unclassified, input_register_group,
}
use luxpower_ha_integration.Telemetry.Grouping.{listed_in, input_register_group-listed_in}
use luxpower_ha_integration.Telemetry.Registers.{
  has_each_once, input_registers_for_group, input_registers_for_group-member,
}

put-each_once :
    (k : ℕ) (g : TelemetryGroup) (d : Dict ℕ TelemetryGroup)
    → has_each_once d ≡ true
    → has_each_once (put k g d) ≡ true
unfolding has_each_once put contains
put-each_once k g [] once = refl
put-each_once k g ((j, f) ∷ d) once =
    ground (arith, put-each_once k g d (ground arith), contains-put k j g d, ==_iff k j, ==_iff j k)

add_registers-each_once :
    (g : TelemetryGroup) (rs : List ℕ) (d d' : Dict ℕ TelemetryGroup)
    → add_registers g rs d ≡ ok d'
    → has_each_once d ≡ true
    → has_each_once d' ≡ true
unfolding add_registers
add_registers-each_once g [] d d' h once = ap has_each_once (sym (ground arith)) ∙ once
add_registers-each_once g (k ∷ rs) d d' h once =
    add_registers-each_once g rs (put k g d) d' (ground arith) (put-each_once k g d once)

add_groups-each_once :
    (gs : List (TelemetryGroup × List ℕ)) (d d' : Dict ℕ TelemetryGroup)
    → add_groups gs d ≡ ok d'
    → has_each_once d ≡ true
    → has_each_once d' ≡ true
unfolding add_groups
add_groups-each_once [] d d' h once = ap has_each_once (sym (ground arith)) ∙ once
add_groups-each_once ((g, rs) ∷ gs) d d' h once =
    let (mid, p, q) = >>=-eq-ok (add_registers g rs d) (add_groups gs) h in
    add_groups-each_once gs mid d' q (add_registers-each_once g rs d mid p once)

set_defaults-each_once :
    (count k : ℕ) (d : Dict ℕ TelemetryGroup)
    → has_each_once d ≡ true
    → has_each_once (set_defaults count k d) ≡ true
unfolding set_defaults
set_defaults-each_once zero k d once = once
set_defaults-each_once (suc count) k d once =
    set_defaults-each_once count (k + 1) (if contains k d then d else put k unclassified d)
      (elim (contains k d) as (λ b. has_each_once (if b then d else put k unclassified d) ≡ true) [
        | true ↦ once
        | false ↦ put-each_once k unclassified d once
      ])

contains-default :
    (k r : ℕ) (d : Dict ℕ TelemetryGroup)
    → contains r (if contains k d then d else put k unclassified d) ≡ (k == r || contains r d)
contains-default k r d = elim (Bool-cases (contains k d)) [
  | inr absent ↦ ground (arith, absent, contains-put k r unclassified d)
  | inl there' ↦ elim (Bool-cases (k == r)) [
    | inr miss ↦ ground (arith, there', miss)
    | inl hit ↦
        let found : contains r d ≡ true =
          subst (λ j. contains j d ≡ true) ((==_iff k r).0 hit) there' in
        ground (arith, there', hit, found)
  ]
]

-- The defaults add the registers from `k` on, and drop none.
contains-set_defaults :
    (count k r : ℕ) (d : Dict ℕ TelemetryGroup)
    → (k ≤ r → r < k + count → contains r (set_defaults count k d) ≡ true)
      × (contains r d ≡ true → contains r (set_defaults count k d) ≡ true)
unfolding set_defaults
contains-set_defaults zero k r d = ((λ above below. absurd (omega arith)), λ there'. there')
contains-set_defaults (suc count) k r d =
    let next = if contains k d then d else put k unclassified d in
    let (adds, keeps) = contains-set_defaults count (k + 1) r next in
    let in_next = contains-default k r d in
    (
      λ above below. elim (Bool-cases (k == r)) [
        | inl hit ↦ keeps (in_next ∙ ground (arith, hit))
        | inr miss ↦ adds (ground (arith, miss)) (omega arith)
      ],
      λ there'. keeps (in_next ∙ ground (arith, there')),
    )

-- When the map of the groups is built, a register under 750 is among the registers of a group exactly
-- if the group is the one that lists it, or if the group is `unclassified` and none lists it.
pub build_input_group_map-for_group :
    (explicit : List (TelemetryGroup × List ℕ)) (groups : Dict ℕ TelemetryGroup)
    (group : TelemetryGroup) (register : ℕ)
    → build_input_group_map explicit ≡ ok groups
    → register < 750
    → (member register (input_registers_for_group groups group) ≡ true)
      ↔ (group_or_unclassified (listed_in explicit register none) ≡ group)
unfolding build_input_group_map input_register_group has_each_once
build_input_group_map-for_group explicit groups group register h below =
    let (mid, p, q) = >>=-eq-ok (add_groups explicit []) (λ g. ok (set_defaults 750 0 g)) h in
    let same : set_defaults 750 0 mid ≡ groups = cc in
    let once = set_defaults-each_once 750 0 mid (add_groups-each_once explicit [] mid p refl) in
    let bounded : register < 0 + 750 = omega (arith, below) in
    let above : 0 ≤ register = omega arith in
    let is_there = (contains-set_defaults 750 0 register mid).0 above bounded in
    let (g, found) =
      contains-lookup register groups (subst (λ d. contains register d ≡ true) same is_there) in
    let listed = input_register_group-listed_in explicit groups register h in
    let (there', back) =
      input_registers_for_group-member groups group register
        (subst (λ d. has_each_once d ≡ true) same once) in
    let is_group : group_or_unclassified (lookup register groups) ≡ g =
      ap group_or_unclassified found in
    (
      λ m. sym listed ∙ ap group_or_unclassified (there' m),
      λ e. back (found ∙ ap some (sym is_group ∙ listed ∙ e)),
    )
