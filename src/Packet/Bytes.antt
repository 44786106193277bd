-- ===== src/Packet/Bytes.antt =====
-- Python `bytes` as lists of numbers, and the integer conversions that the packet code calls:
-- `int.to_bytes(size, 'little')` and `int.from_bytes(data, 'little')`.
use luxpower_ha_integration.Base.{
  ℕ, zero, suc, ◌+◌, ◌-◌, ◌*◌, ◌/◌, ◌%◌, ◌^◌, ◌≤◌, ◌<◌, ◌≡◌, refl, ap, ◌∙◌, Bool, true, false, ◌&&◌,
  List, [], ◌∷◌, ◌++◌, arith, ltb, ◌==◌, if◌then◌else◌, length, All, Outcome, ok, raised,
  overflow_error, take, drop,
}
use luxpower_ha_integration.Base.Dict.{Eq}
use mathlib.Core.Logic.{◌↔◌}

abbrev pub Bytes : Type 0
Bytes = List ℕ

abbrev pub IsByte : ℕ → Type 0
IsByte b = b < 256

abbrev pub AreBytes : Bytes → Type 0
AreBytes = All IsByte

-- The little-endian digits of a number, `size` of them.
abbrev pub little_endian : ℕ → ℕ → Bytes
little_endian zero n = []
little_endian (suc size) n = n % 256 ∷ little_endian size (n / 256)

-- n.to_bytes(size, 'little') of a number that is not negative.
abbrev pub to_bytes : ℕ → ℕ → Outcome Bytes
to_bytes size n = if ltb n (256 ^ size) then ok (little_endian size n) else raised overflow_error

-- int.from_bytes(bytes, 'little')
abbrev pub from_bytes : Bytes → ℕ
from_bytes [] = 0
from_bytes (b ∷ bs) = b + 256 * from_bytes bs

-- Equality of byte strings.
unfoldable pub bytes_beq : Bytes → Bytes → Bool
bytes_beq [] [] = true
bytes_beq (a ∷ as') (b ∷ bs) = a == b && bytes_beq as' bs
bytes_beq _ _ = false

pub bytes_beq_iff : (a b : Bytes) → (bytes_beq a b ≡ true) ↔ (a ≡ b)
unfolding bytes_beq
bytes_beq_iff (x ∷ a) (y ∷ b) = ground (arith, bytes_beq_iff a b)
bytes_beq_iff _ _ = ground arith

instance abbrev pub bytes_eq : Eq Bytes
bytes_eq = record { beq = bytes_beq; beq_iff = bytes_beq_iff }

pub AreBytes-little_endian : (size n : ℕ) → AreBytes (little_endian size n)
AreBytes-little_endian zero n = tt
AreBytes-little_endian (suc size) n = (omega arith, AreBytes-little_endian size (n / 256))

pub length-little_endian : (size n : ℕ) → length (little_endian size n) ≡ size
length-little_endian zero n = refl
length-little_endian (suc size) n = ap suc (length-little_endian size (n / 256))

-- Two bytes hold a 16-bit word.
pub from_bytes-word : (n : ℕ) → n < 65536 → from_bytes (little_endian 2 n) ≡ n
from_bytes-word n h = omega arith

pub to_bytes-word : (n : ℕ) → n < 65536 → to_bytes 2 n ≡ ok (little_endian 2 n)
to_bytes-word n h = ground arith

pub from_bytes-lt : (bs : Bytes) → AreBytes bs → length bs ≤ 2 → from_bytes bs < 65536
from_bytes-lt [] h l = omega arith
from_bytes-lt (a ∷ []) h l = omega arith
from_bytes-lt (a ∷ b ∷ []) h l = omega arith
from_bytes-lt (a ∷ b ∷ c ∷ bs) h l = absurd (omega arith)

-- A cut at the seam of a concatenation.
module _ {ℓ} {A : Type ℓ} where
  pub drop-length : (n : ℕ) (xs ys : List A) → length xs ≡ n → drop n (xs ++ ys) ≡ ys
  drop-length zero [] ys h = refl
  drop-length zero (x ∷ xs) ys h = absurd (omega arith)
  drop-length (suc n) [] ys h = absurd (omega arith)
  drop-length (suc n) (x ∷ xs) ys h = drop-length n xs ys (omega arith)

  pub take-length : (n : ℕ) (xs ys : List A) → length xs ≡ n → take n (xs ++ ys) ≡ xs
  take-length zero [] ys h = refl
  take-length zero (x ∷ xs) ys h = absurd (omega arith)
  take-length (suc n) [] ys h = absurd (omega arith)
  take-length (suc n) (x ∷ xs) ys h = ap (λ t. x ∷ t) (take-length n xs ys (omega arith))

  pub drop_past :
      (k : ℕ) (xs ys : List A) → length xs ≤ k → drop k (xs ++ ys) ≡ drop (k - length xs) ys
  drop_past k [] ys h = let e : k ≡ k - 0 = omega arith in ap (λ t. drop t ys) e
  drop_past zero (x ∷ xs) ys h = absurd (omega arith)
  drop_past (suc k) (x ∷ xs) ys h =
      let e : k - length xs ≡ suc k - suc (length xs) = omega arith in
      drop_past k xs ys (omega arith) ∙ ap (λ t. drop t ys) e
