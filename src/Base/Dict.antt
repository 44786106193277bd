-- ===== src/Base/Dict.antt =====
-- Python's `dict` as an association list in insertion order: a new key goes to the end, and a
-- present key keeps its place. Every lookup takes the first entry of a key.
use Prim.Native.Nat.{ℕ}
use mathlib.Core.Path.{◌≡◌, refl, ap, ◌∙◌}
use mathlib.Core.Logic.{◌↔◌, inl, inr}
use mathlib.Core.Bool.{Bool, true, false, ◌||◌}
use mathlib.Core.Option.{Option, none, some}
use mathlib.Core.List.{List, [], ◌∷◌}
use native.Mathlib.Omega.{arith}
use luxpower_ha_integration.Base.Tests.{if◌then◌else◌, ◌==◌, ==_iff, Bool-cases}

-- The keys' `==`, and that it is equality.
pub record Eq {ℓ} (K : Type ℓ) : Type ℓ where
  pub beq : K → K → Bool
  pub beq_iff : (a b : K) → (beq a b ≡ true) ↔ (a ≡ b)

instance abbrev pub nat_eq : Eq ℕ
nat_eq = record { beq = ◌==◌; beq_iff = ==_iff }

abbrev pub Dict {ℓ κ} : Type ℓ → Type κ → Type (ℓ ⊔ κ)
Dict K V = List (K × V)

module _ {ℓ κ} {K : Type ℓ} {V : Type κ} ⦃e : Eq K⦄ where
  -- d.get(k)
  unfoldable pub lookup : K → Dict K V → Option V
  lookup k [] = none
  lookup k ((j, v) ∷ d) = if e.beq j k then some v else lookup k d

  -- k in d
  unfoldable pub contains : K → Dict K V → Bool
  contains k [] = false
  contains k ((j, v) ∷ d) = e.beq j k || contains k d

  -- d[k] = v
  unfoldable pub put : K → V → Dict K V → Dict K V
  put k v [] = (k, v) ∷ []
  put k v ((j, w) ∷ d) = if e.beq j k then (j, v) ∷ d else (j, w) ∷ put k v d

  -- d.pop(k, None)
  unfoldable pub remove : K → Dict K V → Dict K V
  remove k [] = []
  remove k ((j, v) ∷ d) = let rest = remove k d in if e.beq j k then rest else (j, v) ∷ rest

  -- d.update(other)
  unfoldable pub update : Dict K V → Dict K V → Dict K V
  unfolding put
  update d [] = d
  update d ((k, v) ∷ other) = update (put k v d) other

  pub lookup-put :
      (k j : K) (v : V) (d : Dict K V)
      → lookup j (put k v d) ≡ (if e.beq k j then some v else lookup j d)
  unfolding lookup put
  lookup-put k j v [] = refl
  lookup-put k j v ((i, w) ∷ d) =
      ground (arith, e.beq_iff k j, e.beq_iff i k, e.beq_iff i j, lookup-put k j v d)

  pub lookup-remove :
      (k j : K) (d : Dict K V) → lookup j (remove k d) ≡ (if e.beq k j then none else lookup j d)
  unfolding lookup remove
  lookup-remove k j [] = ground arith
  lookup-remove k j ((i, w) ∷ d) =
      ground (arith, e.beq_iff k j, e.beq_iff i k, e.beq_iff i j, lookup-remove k j d)

  pub contains-lookup :
      (k : K) (d : Dict K V) → contains k d ≡ true → (v : V) × (lookup k d ≡ some v)
  unfolding contains lookup
  contains-lookup k [] h = cc
  contains-lookup k ((j, v) ∷ d) h = elim (Bool-cases (e.beq j k)) [
    | inl hit ↦ (v, rw hit)
    | inr miss ↦ let (w, p) = contains-lookup k d (rw miss at h) in (w, rw miss p)
  ]

  pub lookup-contains : (k : K) (v : V) (d : Dict K V) → lookup k d ≡ some v → contains k d ≡ true
  unfolding contains lookup
  lookup-contains k v [] h = cc
  lookup-contains k v ((j, w) ∷ d) h = ground (arith, lookup-contains k v d)

  pub contains-put :
      (k j : K) (v : V) (d : Dict K V) → contains j (put k v d) ≡ (e.beq k j || contains j d)
  unfolding contains put
  contains-put k j v [] = refl
  contains-put k j v ((i, w) ∷ d) =
      ground (arith, e.beq_iff k j, e.beq_iff i k, e.beq_iff i j, contains-put k j v d)

  pub contains-remove :
      (k j : K) (d : Dict K V)
      → contains j (remove k d) ≡ (if e.beq k j then false else contains j d)
  unfolding contains remove
  contains-remove k j [] = ground arith
  contains-remove k j ((i, w) ∷ d) =
      ground (arith, e.beq_iff k j, e.beq_iff i k, e.beq_iff i j, contains-remove k j d)

  -- What the updated dictionary has at a key: the last entry of `other` for it, or the old one.
  abbrev pub last_or : Option V → K → Dict K V → Option V
  last_or o k [] = o
  last_or o k ((j, v) ∷ other) = last_or (if e.beq j k then some v else o) k other

  pub lookup-update :
      (k : K) (d other : Dict K V) → lookup k (update d other) ≡ last_or (lookup k d) k other
  unfolding update
  lookup-update k d [] = refl
  lookup-update k d ((j, v) ∷ other) =
      lookup-update k (put j v d) other ∙ ap (λ o. last_or o k other) (lookup-put j k v d)

  pub contains-update :
      (k : K) (d other : Dict K V)
      → contains k (update d other) ≡ (contains k d || contains k other)
  unfolding update
  contains-update k d [] = unfold contains in ground arith
  contains-update k d ((j, v) ∷ other) =
      contains-update k (put j v d) other ∙ unfold contains in ground (arith, contains-put j k v d)

  pub last_or-absent :
      (o : Option V) (k : K) (other : Dict K V) → contains k other ≡ false → last_or o k other ≡ o
  unfolding contains
  last_or-absent o k [] h = refl
  last_or-absent o k ((j, v) ∷ other) h = ground (arith, last_or-absent o k other)
