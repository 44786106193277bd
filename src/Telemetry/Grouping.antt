-- ===== src/Telemetry/Grouping.antt =====
-- Which group a register belongs to, and that grouping a snapshot loses and moves no value.
use luxpower_ha_integration.Base.{
  ℕ, zero, suc, ◌+◌, ◌≡◌, refl, ap, sym, ◌∙◌, inl, inr, false, ◌&&◌, ◌||◌, Option, none, some, List,
  [], ◌∷◌, arith, ◌==◌, ==_iff, if◌then◌else◌, Bool-cases, Option-cases, ok, >>=-eq-ok,
}
use luxpower_ha_integration.Base.Dict.{
  Dict, nat_eq, lookup, contains, put, lookup-put, lookup-contains,
}
use luxpower_ha_integration.Validator.{member}
use luxpower_ha_integration.Telemetry.{
  TelemetryGroup, operational, diagnostic, energy_counter, configuration, metadata, unclassified,
  group_beq, group_beq_iff, group_eq, add_registers, add_groups, set_defaults,
  build_input_group_map, group_or_unclassified, input_register_group, insert, sorted, group_dict,
  add_value, group_keys, no_values, group_input_registers,
}

-- The last of the groups that list a register, and `o` if none does.
abbrev pub listed_in :
    List (TelemetryGroup × List ℕ) → ℕ → Option TelemetryGroup → Option TelemetryGroup
listed_in [] r o = o
listed_in ((group, registers) ∷ rest) r o =
    listed_in rest r (if member r registers then some group else o)

lookup-add_registers :
    (r : ℕ) (g : TelemetryGroup) (rs : List ℕ) (d d' : Dict ℕ TelemetryGroup)
    → add_registers g rs d ≡ ok d'
    → lookup r d' ≡ (if member r rs then some g else lookup r d)
unfolding add_registers member
lookup-add_registers r g [] d d' h = ap (lookup r) (sym (ground arith))
lookup-add_registers r g (k ∷ rs) d d' h =
    let later : add_registers g rs (put k g d) ≡ ok d' = ground arith in
    lookup-add_registers r g rs (put k g d) d' later ∙ ground (arith, lookup-put k r g d)

lookup-add_groups :
    (r : ℕ) (gs : List (TelemetryGroup × List ℕ)) (d d' : Dict ℕ TelemetryGroup)
    → add_groups gs d ≡ ok d'
    → lookup r d' ≡ listed_in gs r (lookup r d)
unfolding add_groups
lookup-add_groups r [] d d' h = ap (lookup r) (sym (ground arith))
lookup-add_groups r ((g, rs) ∷ gs) d d' h =
    let (mid, p, q) = >>=-eq-ok (add_registers g rs d) (add_groups gs) h in
    lookup-add_groups r gs mid d' q ∙ ap (listed_in gs r) (lookup-add_registers r g rs d mid p)

contains-none : (r : ℕ) (d : Dict ℕ TelemetryGroup) → contains r d ≡ false → lookup r d ≡ none
contains-none r d h = elim (Option-cases (lookup r d)) [
  | inl e ↦ e
  | inr (v, e) ↦ absurd (ground (arith, lookup-contains r v d e))
]

group-set_defaults :
    (count k r : ℕ) (d : Dict ℕ TelemetryGroup)
    → group_or_unclassified (lookup r (set_defaults count k d)) ≡ group_or_unclassified (lookup r d)
unfolding set_defaults
group-set_defaults zero k r d = refl
group-set_defaults (suc count) k r d =
    group-set_defaults count (k + 1) r (if contains k d then d else put k unclassified d)
    ∙ elim (Bool-cases (contains k d)) [
      | inl t ↦ ground (arith, t)
      | inr f ↦
          let absent = contains-none k d f in
          ground (arith, f, lookup-put k r unclassified d, ==_iff k r, ap (λ j. lookup j d))
    ]

-- When the map of the groups is built without a register in two groups, the group of a register is
-- the one that lists it, and `unclassified` if none does.
pub input_register_group-listed_in :
    (explicit : List (TelemetryGroup × List ℕ)) (groups : Dict ℕ TelemetryGroup) (r : ℕ)
    → build_input_group_map explicit ≡ ok groups
    → input_register_group groups r ≡ group_or_unclassified (listed_in explicit r none)
unfolding build_input_group_map input_register_group lookup
input_register_group-listed_in explicit groups r h =
    let (mid, p, q) = >>=-eq-ok (add_groups explicit []) (λ g. ok (set_defaults 750 0 g)) h in
    let same : set_defaults 750 0 mid ≡ groups = ground (arith, q) in
    ap (λ d. group_or_unclassified (lookup r d)) (sym same)
    ∙ group-set_defaults 750 0 r mid
    ∙ ap group_or_unclassified (lookup-add_groups r explicit [] mid p)

-- The value that a grouped snapshot has for a register in a group.
abbrev pub value_in {ℓ} :
    {V : Type ℓ} → TelemetryGroup → ℕ → Dict TelemetryGroup (Dict ℕ V) → Option V
value_in group r grouped = lookup r (group_dict (lookup group grouped))

value_in-add_value {ℓ} :
    {V : Type ℓ} (g h : TelemetryGroup) (k r : ℕ) (v : V) (grouped : Dict TelemetryGroup (Dict ℕ V))
    → value_in g r (add_value h k (some v) grouped)
      ≡ (if group_beq h g && k == r then some v else value_in g r grouped)
value_in-add_value g h k r v grouped =
    ap (λ o. lookup r (group_dict o))
      (lookup-put h g (put k v (group_dict (lookup h grouped))) grouped)
    ∙ elim (Bool-cases (group_beq h g)) [
      | inr f ↦ ground (arith, f)
      | inl t ↦
          let same = (group_beq_iff h g).0 t in
          ground (
            arith,
            t,
            lookup-put k r v (group_dict (lookup h grouped)),
            ap (λ i. lookup r (group_dict (lookup i grouped))) same,
          )
    ]

module _ {ℓ} {V : Type ℓ} (group_of : ℕ → TelemetryGroup) (registers : Dict ℕ V)
    (g : TelemetryGroup) (r : ℕ) where
  -- What the loop over the keys makes of a value `o`.
  abbrev chosen : List ℕ → Option V → Option V
  chosen ks o = elim (lookup r registers) [
    | none ↦ o
    | some v ↦ if member r ks && group_beq (group_of r) g then some v else o
  ]

  one_key :
      (k : ℕ) (ks : List ℕ) (grouped : Dict TelemetryGroup (Dict ℕ V))
      → chosen ks (value_in g r (add_value (group_of k) k (lookup k registers) grouped))
        ≡ chosen (k ∷ ks) (value_in g r grouped)
  unfolding member
  one_key k ks grouped = elim (Bool-cases (k == r)) [
    | inr miss ↦ elim (Option-cases (lookup k registers)) [
      | inl e ↦ ground (arith, e, miss)
      | inr (w, e) ↦ ground (arith, e, miss, value_in-add_value g (group_of k) k r w grouped)
    ]
    | inl hit ↦
        let same = (==_iff k r).0 hit in
        let group_same = ap group_of same in
        let lookup_same = ap (λ i. lookup i registers) same in
        elim (Option-cases (lookup r registers)) [
          | inl e ↦ let e' = lookup_same ∙ e in ground (arith, e, e', hit)
          | inr (w, e) ↦
              let e' = lookup_same ∙ e in
              ground
                (arith, e, e', hit, group_same, value_in-add_value g (group_of k) k r w grouped)
        ]
  ]

  value_in-group_keys :
      (ks : List ℕ) (grouped : Dict TelemetryGroup (Dict ℕ V))
      → value_in g r (group_keys group_of registers ks grouped) ≡ chosen ks (value_in g r grouped)
  unfolding group_keys member
  value_in-group_keys [] grouped = elim (Option-cases (lookup r registers)) [
    | inl e ↦ ground (arith, e)
    | inr (v, e) ↦ ground (arith, e)
  ]
  value_in-group_keys (k ∷ ks) grouped =
      value_in-group_keys ks (add_value (group_of k) k (lookup k registers) grouped)
      ∙ one_key k ks grouped

member-insert : (r k : ℕ) (ks : List ℕ) → member r (insert k ks) ≡ ((k == r) || member r ks)
unfolding member insert
member-insert r k [] = refl
member-insert r k (j ∷ ks) = ground (arith, member-insert r k ks)

member-sorted {ℓ} : {V : Type ℓ} (r : ℕ) (d : Dict ℕ V) → member r (sorted d) ≡ contains r d
unfolding member sorted contains
member-sorted r [] = refl
member-sorted r ((k, v) ∷ d) =
    member-insert r k (sorted d) ∙ ap (λ b. (k == r) || b) (member-sorted r d)

no_values-none {ℓ} :
    {V : Type ℓ} (g : TelemetryGroup) (r : ℕ) → value_in {V = V} g r no_values ≡ none
unfolding lookup
no_values-none operational r = refl
no_values-none diagnostic r = refl
no_values-none energy_counter r = refl
no_values-none configuration r = refl
no_values-none metadata r = refl
no_values-none unclassified r = refl

-- In a grouped snapshot, each group has for a register the value of the snapshot if the register
-- belongs to the group, and none otherwise.
pub group_input_registers-value_in {ℓ} :
    {V : Type ℓ} (groups : Dict ℕ TelemetryGroup) (registers : Dict ℕ V) (g : TelemetryGroup)
    (r : ℕ)
    → value_in g r (group_input_registers groups registers)
      ≡ (if group_beq (input_register_group groups r) g then lookup r registers else none)
unfolding group_input_registers
group_input_registers-value_in groups registers g r =
    let group_of = input_register_group groups in
    value_in-group_keys group_of registers g r (sorted registers) no_values
    ∙ ap (chosen group_of registers g r (sorted registers)) (no_values-none g r)
    ∙ elim (Option-cases (lookup r registers)) [
      | inl e ↦ ground (arith, e)
      | inr (v, e) ↦ ground (arith, e, member-sorted r registers, lookup-contains r v registers e)
    ]
