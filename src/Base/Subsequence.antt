-- ===== src/Base/Subsequence.antt =====
-- The lists that are left when entries of a list are left out.
use mathlib.Core.List.{List, [], ◌∷◌, ◌++◌}

-- `Subsequence xs ys`: xs is ys with some entries left out, in the same order.
pub data Subsequence {ℓ} {A : Type ℓ} : List A → List A → Type ℓ where
  done : Subsequence [] []
  keep : {x : A} {xs ys : List A} → Subsequence xs ys → Subsequence (x ∷ xs) (x ∷ ys)
  skip : {y : A} {xs ys : List A} → Subsequence xs ys → Subsequence xs (y ∷ ys)

module _ {ℓ} {A : Type ℓ} where
  pub Subsequence-refl : (xs : List A) → Subsequence xs xs
  Subsequence-refl [] = done
  Subsequence-refl (x ∷ xs) = keep (Subsequence-refl xs)

  pub Subsequence-nil : (xs : List A) → Subsequence [] xs
  Subsequence-nil [] = done
  Subsequence-nil (x ∷ xs) = skip (Subsequence-nil xs)

  pub Subsequence-append :
      {xs ys us vs : List A}
      → Subsequence xs ys
      → Subsequence us vs
      → Subsequence (xs ++ us) (ys ++ vs)
  Subsequence-append done t = t
  Subsequence-append (keep s) t = keep (Subsequence-append s t)
  Subsequence-append (skip s) t = skip (Subsequence-append s t)

  pub Subsequence-trans :
      {ys zs : List A} → Subsequence ys zs → {xs : List A} → Subsequence xs ys → Subsequence xs zs
  Subsequence-trans done s = s
  Subsequence-trans (keep t) (keep s) = keep (Subsequence-trans t s)
  Subsequence-trans (keep t) (skip s) = skip (Subsequence-trans t s)
  Subsequence-trans (skip t) s = skip (Subsequence-trans t s)

  -- An entry left out of the middle.
  pub without_middle :
      (front : List A) (x : A) (back : List A) → Subsequence (front ++ back) (front ++ x ∷ back)
  without_middle front x back =
      Subsequence-append (Subsequence-refl front) (skip (Subsequence-refl back))
