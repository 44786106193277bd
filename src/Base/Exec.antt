-- ===== src/Base/Exec.antt =====
-- Code that changes a state and may raise: the state stays changed when it raises.
use mathlib.Core.List.{List, [], ◌∷◌}
use mathlib.Core.Path.{◌≡◌, refl}
use luxpower_ha_integration.Base.Call.{Outcome, ok, raised}

abbrev pub Exec {ℓ} : Type ℓ → Type ℓ → Type ℓ
Exec S A = S → S × Outcome A

module _ {ℓ} {S : Type ℓ} where
  abbrev pub return : {A : Type ℓ} → A → Exec S A
  return a s = (s, ok a)

  -- The next statements, behind one that has ended.
  abbrev pub proceed : {A B : Type ℓ} → (A → Exec S B) → S × Outcome A → S × Outcome B
  proceed f (s, ok a) = f a s
  proceed f (s, raised e) = (s, raised e)

  infixl 5 ◌>>=◌ ◌>>◌
  abbrev pub ◌>>=◌ : {A B : Type ℓ} → Exec S A → (A → Exec S B) → Exec S B
  ◌>>=◌ m f s = proceed f (m s)

  abbrev pub ◌>>◌ : {A B : Type ℓ} → Exec S A → Exec S B → Exec S B
  m >> n = m >>= λ _. n

module _ {ℓ} {S : Type ℓ} where
  abbrev pub modify : (S → S) → Exec S (Unit {ℓ})
  modify f s = (f s, ok tt)

  -- for x in xs: body(x)
  unfoldable pub for_each : {X : Type ℓ} → List X → (X → Exec S (Unit {ℓ})) → Exec S (Unit {ℓ})
  for_each [] body = return tt
  for_each (x ∷ xs) body = body x >> for_each xs body

  abbrev pub lift : {A : Type ℓ} → Outcome A → Exec S A
  lift m s = (s, m)

-- Statements that end with a value have ended one after the other.
pub proceed-ok {ℓ} :
    {S A B : Type ℓ} (f : A → Exec S B) (r : S × Outcome A) (b : B)
    → (proceed f r).1 ≡ ok b
    → (a : A) × (r.1 ≡ ok a) × ((f a r.0).1 ≡ ok b)
proceed-ok f (s, ok a) b h = (a, refl, h)
proceed-ok f (s, raised e) b h = cc

-- What both parts keep, they keep one after the other.
pub proceed-keeps {ℓ κ} :
    {S A B : Type ℓ} (P : S → Type κ) (f : A → Exec S B) (r : S × Outcome A)
    → P r.0
    → ((a : A) (s : S) → P s → P (f a s).0)
    → P (proceed f r).0
proceed-keeps P f (s, ok a) p keeps = keeps a s p
proceed-keeps P f (s, raised e) p keeps = p
