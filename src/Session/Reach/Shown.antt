-- ===== src/Session/Reach/Shown.antt =====
-- A history of blocks, what a snapshot shows of it, and that recording a block adds it.
use luxpower_ha_integration.Base.{
  ℕ, ◌+◌, ◌≤◌, ◌<◌, ◌≡◌, refl, sym, ap, subst, ◌∙◌, inl, inr, Bool, true, false, Option, none, some,
  List, [], ◌∷◌, arith, ◌==◌, if◌then◌else◌, length, Bool-cases,
}
use luxpower_ha_integration.Base.Dict.{
  Dict, nat_eq, lookup, contains, put, update, lookup-put, lookup-update, last_or, last_or-absent,
}
use luxpower_ha_integration.Packet.Response.{number_from}
use luxpower_ha_integration.Session.{LuxReadObservation, Inputs}
use luxpower_ha_integration.Session.Frame.{block_beq, block_eq, source_of, record_inputs}
use luxpower_ha_integration.Session.Classify.{fill}

-- The latest block that covers a register, of a history that begins with the latest.
abbrev pub latest : ℕ → List LuxReadObservation → Option LuxReadObservation
latest r [] = none
latest r (o ∷ history) = if contains r o.values then some o else latest r history

-- The latest observation of a block.
abbrev pub latest_block : ℕ × ℕ → List LuxReadObservation → Option LuxReadObservation
latest_block block [] = none
latest_block block (o ∷ history) =
    if block_beq (o.register_start, o.register_count) block
    then some o
    else latest_block block history

abbrev pub if_some {ℓ} :
    {V : Type ℓ} → (LuxReadObservation → Option V) → Option LuxReadObservation → Option V
if_some f none = none
if_some f (some o) = f o

-- The explicit blocks of a history, or those that are not.
abbrev pub only : Bool → List LuxReadObservation → List LuxReadObservation
only explicit' [] = []
only true (o ∷ history) = if o.explicit_response then o ∷ only true history else only true history
only false (o ∷ history) =
    if o.explicit_response then only false history else o ∷ only false history

-- A block is numbered from its start, and lies within the 750 registers.
pub record IsBlock (o : LuxReadObservation) : Type 0 where
  pub contents : List ℕ
  pub in_sequence : o.values ≡ number_from o.register_start contents
  pub counted : o.register_count ≡ length o.values
  pub within : o.register_start + o.register_count ≤ 750

abbrev pub AreBlocks : List LuxReadObservation → Type 0
AreBlocks [] = Unit {0}
AreBlocks (o ∷ history) = IsBlock o × (o.sequence ≡ length history + 1) × AreBlocks history

pub record Shows (history : List LuxReadObservation) (inputs : Inputs) : Type 0 where
  pub values_of :
      (r : ℕ)
      → lookup r inputs.input_registers ≡ if_some (λ o. lookup r o.values) (latest r history)
  pub times_of :
      (r : ℕ)
      → lookup r inputs.input_observed_at ≡ if_some (λ o. some o.observed_at) (latest r history)
  pub sources_of :
      (r : ℕ)
      → lookup r inputs.input_sources
        ≡ if_some (λ o. some (source_of o.explicit_response)) (latest r history)
  pub sequences_of :
      (r : ℕ)
      → lookup r inputs.input_observation_sequences
        ≡ if_some (λ o. some o.sequence) (latest r history)
  pub ranges_of :
      (r : ℕ)
      → lookup r inputs.input_observation_ranges
        ≡ if_some (λ o. some (o.register_start, o.register_count)) (latest r history)
  pub explicit_times_of :
      (r : ℕ)
      → lookup r inputs.explicit_observed_at
        ≡ if_some (λ o. some o.observed_at) (latest r (only true history))
  pub unsolicited_times_of :
      (r : ℕ)
      → lookup r inputs.unsolicited_observed_at
        ≡ if_some (λ o. some o.observed_at) (latest r (only false history))
  pub blocks_of :
      (block : ℕ × ℕ)
      → lookup block inputs.last_block_values
        ≡ if_some (λ o. some o.values) (latest_block block history)
  pub numbered : inputs.observation_sequence ≡ length history

last_or-fill {ℓ} :
    {V : Type ℓ} (o : Option V) (r : ℕ) (x : V) (values : Dict ℕ ℕ)
    → last_or o r (fill x values) ≡ (if contains r values then some x else o)
unfolding fill contains
last_or-fill o r x [] = refl
last_or-fill o r x ((k, v) ∷ values) =
    last_or-fill (if k == r then some x else o) r x values ∙ ground arith

-- A later entry of a numbered block is another register.
number_from-above : (r s : ℕ) (ws : List ℕ) → r < s → contains r (number_from s ws) ≡ false
unfolding number_from contains
number_from-above r s [] h = refl
number_from-above r s (w ∷ ws) h = ground (arith, number_from-above r (s + 1) ws)

last_or-number_from :
    (o : Option ℕ) (r s : ℕ) (ws : List ℕ)
    → last_or o r (number_from s ws)
      ≡ (if contains r (number_from s ws) then lookup r (number_from s ws) else o)
unfolding number_from contains lookup
last_or-number_from o r s [] = refl
last_or-number_from o r s (w ∷ ws) = elim (Bool-cases (s == r)) [
  | inl same ↦
      ground
        (arith, number_from-above r (s + 1) ws, last_or-absent (some w) r (number_from (s + 1) ws))
  | inr other ↦ ground (arith, other, last_or-number_from o r (s + 1) ws)
]

-- A dictionary that is filled for a block shows it for the block's registers.
fill-shown {ℓ} :
    {V : Type ℓ} (f : LuxReadObservation → Option V) (x : V) (o : LuxReadObservation) (d : Dict ℕ V)
    (r : ℕ) (l : Option LuxReadObservation)
    → f o ≡ some x
    → lookup r d ≡ if_some f l
    → lookup r (update d (fill x o.values)) ≡ if_some f (if contains r o.values then some o else l)
fill-shown f x o d r l fx before =
    lookup-update r d (fill x o.values)
    ∙ last_or-fill (lookup r d) r x o.values
    ∙ elim (Bool-cases (contains r o.values)) [
      | inl in' ↦ ground (arith, in')
      | inr out ↦ ground (arith, out)
    ]

values-shown :
    (o : LuxReadObservation) (d : Dict ℕ ℕ) (r : ℕ) (l : Option LuxReadObservation)
    → IsBlock o
    → lookup r d ≡ if_some (λ p. lookup r p.values) l
    → lookup r (update d o.values)
      ≡ if_some (λ p. lookup r p.values) (if contains r o.values then some o else l)
values-shown o d r l block before =
    let numbered = block.in_sequence in
    lookup-update r d o.values
    ∙ subst (λ vs. last_or (lookup r d) r vs ≡ (if contains r vs then lookup r vs else lookup r d))
        (sym numbered) (last_or-number_from (lookup r d) r o.register_start block.contents)
    ∙ elim (Bool-cases (contains r o.values)) [
      | inl in' ↦ ground (arith, in')
      | inr out ↦ ground (arith, out)
    ]

blocks-shown :
    (o : LuxReadObservation) (d : Dict (ℕ × ℕ) (Dict ℕ ℕ)) (block : ℕ × ℕ)
    (l : Option LuxReadObservation)
    → IsBlock o
    → lookup block d ≡ if_some (λ p. some p.values) l
    → lookup block (put (o.register_start, length o.values) o.values d)
      ≡ if_some
          (λ p. some p.values)
          (if block_beq (o.register_start, o.register_count) block then some o else l)
blocks-shown o d block l is_block before =
    lookup-put (o.register_start, length o.values) block o.values d
    ∙ subst
        (λ n.
          (if block_beq (o.register_start, n) block then some o.values else lookup block d)
          ≡ if_some (λ p. some p.values)
              (if block_beq (o.register_start, o.register_count) block then some o else l))
        is_block.counted
        (elim (Bool-cases (block_beq (o.register_start, o.register_count) block)) [
          | inl same ↦ ground (arith, same)
          | inr other ↦ ground (arith, other)
        ])

-- A recorded block becomes the latest of the history.
pub record_inputs-Shows :
    (history : List LuxReadObservation) (inputs : Inputs) (o : LuxReadObservation)
    → IsBlock o
    → o.sequence ≡ inputs.observation_sequence + 1
    → Shows history inputs
    → Shows (o ∷ history) (record_inputs o inputs)
unfolding record_inputs
record_inputs-Shows history inputs o block next s = record {
  values_of = λ r. values-shown o inputs.input_registers r (latest r history) block (s.values_of r);
  times_of = λ r.
      fill-shown (λ p. some p.observed_at) o.observed_at o inputs.input_observed_at r
        (latest r history) refl (s.times_of r);
  sources_of = λ r.
      fill-shown (λ p. some (source_of p.explicit_response)) (source_of o.explicit_response) o
        inputs.input_sources r (latest r history) refl (s.sources_of r);
  sequences_of = λ r.
      fill-shown (λ p. some p.sequence) o.sequence o inputs.input_observation_sequences r
        (latest r history) refl (s.sequences_of r);
  ranges_of = λ r.
      fill-shown (λ p. some (p.register_start, p.register_count))
        (o.register_start, o.register_count) o inputs.input_observation_ranges r (latest r history)
        refl (s.ranges_of r);
  explicit_times_of = λ r.
      elim o.explicit_response
        as (λ b.
          lookup r (
            if b
            then update inputs.explicit_observed_at (fill o.observed_at o.values)
            else inputs.explicit_observed_at)
          ≡ if_some (λ p. some p.observed_at)
              (latest r (if b then o ∷ only true history else only true history))) [
                | true ↦
                    fill-shown (λ p. some p.observed_at) o.observed_at o inputs.explicit_observed_at
                      r (latest r (only true history)) refl (s.explicit_times_of r)
                | false ↦ s.explicit_times_of r
              ];
  unsolicited_times_of = λ r.
      elim o.explicit_response
        as (λ b.
          lookup r (
            if b
            then inputs.unsolicited_observed_at
            else update inputs.unsolicited_observed_at (fill o.observed_at o.values))
          ≡ if_some (λ p. some p.observed_at)
              (latest r (if b then only false history else o ∷ only false history))) [
                | true ↦ s.unsolicited_times_of r
                | false ↦
                    fill-shown (λ p. some p.observed_at) o.observed_at o
                      inputs.unsolicited_observed_at r (latest r (only false history)) refl
                      (s.unsolicited_times_of r)
              ];
  blocks_of =
      λ b. blocks-shown o inputs.last_block_values b (latest_block b history) block (s.blocks_of b);
  numbered = next ∙ ap (λ n. n + 1) s.numbered ∙ omega arith;
}
