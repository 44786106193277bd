-- ===== src/Utils/Fields.antt =====
-- Bit fields: what `set_bits` writes and leaves, and the highest bit.
use luxpower_ha_integration.Base.{
  ℕ, zero, suc, ◌+◌, ◌-◌, ◌*◌, ◌/◌, ◌%◌, ◌^◌, ◌≤◌, ◌<◌, ◌≡◌, refl, ap, ◌∙◌, arith, some, bit_and,
  bit_or,
}
use native.Mathlib.Nat.{
  pow-suc, one-le-pow, div-add-mod', mod-lt, mod-mod, div-eq_of_lt, mul-add-div_right,
  mul-add-mod_self_right, add-mul,
}
use luxpower_ha_integration.Base.Bits.{
  doubled, bit_or_step, bit_or_fields, bit_and_mask, bit_and_field,
}
use luxpower_ha_integration.Utils.{get_bits, set_bits, and_not, bit_length, get_highest_set_bit}

bit_length_zero : (fuel : ℕ) → bit_length fuel 0 ≡ 0
unfolding bit_length
bit_length_zero zero = refl
bit_length_zero (suc fuel) = ground arith

bit_length-bounds :
    (fuel v : ℕ)
    → v ≤ fuel
    → 0 < v
    → (k : ℕ) × (bit_length fuel v ≡ suc k) × (2 ^ k ≤ v) × (v < 2 ^ suc k)
unfolding bit_length
bit_length-bounds zero v h p = absurd (omega arith)
bit_length-bounds (suc fuel) zero h p = absurd (omega arith)
bit_length-bounds (suc fuel) (suc zero) h p =
    (zero, ground (arith, bit_length_zero fuel), omega arith, omega arith)
bit_length-bounds (suc fuel) (suc (suc v)) h p =
    let (k, e, low, high) = bit_length-bounds fuel (suc (suc v) / 2) (omega arith) (omega arith) in
    (suc k, ground (arith, e), omega (arith, pow-suc 2 k), omega (arith, pow-suc 2 (suc k)))

-- The highest set bit of a number that is not zero is the place `k` with 2 ^ k ≤ v < 2 ^ (k + 1).
pub get_highest_set_bit-bounds :
    (v : ℕ) → 0 < v → (k : ℕ) × (get_highest_set_bit v ≡ some k) × (2 ^ k ≤ v) × (v < 2 ^ suc k)
unfolding get_highest_set_bit
get_highest_set_bit-bounds v p =
    let (k, e, low, high) = bit_length-bounds v v (omega arith) p in
    (k, ground (arith, e), low, high)

-- A field between a lower and an upper part: `or` meets zeros above `lo`.
bit_or-above :
    (s q x lo : ℕ) → lo < 2 ^ s → bit_or (q * 2 ^ s + lo) (x * 2 ^ s) ≡ bit_or q x * 2 ^ s + lo
bit_or-above zero q x lo p =
    let a : q * 2 ^ 0 + lo ≡ q = omega arith in
    let b : x * 2 ^ 0 ≡ x = omega arith in
    ap (λ t. bit_or t (x * 2 ^ 0)) a ∙ ap (bit_or q) b ∙ omega arith
bit_or-above (suc s) q x lo p =
    let half : (q * 2 ^ suc s + lo) / 2 ≡ q * 2 ^ s + lo / 2 = omega (arith, doubled q s) in
    let half' : x * 2 ^ suc s / 2 ≡ x * 2 ^ s = omega (arith, doubled x s) in
    omega (
      arith,
      bit_or_step (q * 2 ^ suc s + lo) (x * 2 ^ suc s),
      ap (λ t. bit_or t (x * 2 ^ suc s / 2)) half,
      ap (bit_or (q * 2 ^ s + lo / 2)) half',
      doubled q s,
      doubled x s,
      doubled (bit_or q x) s,
      bit_or-above s q x (lo / 2) (omega (arith, pow-suc 2 s)),
    )

module _ (a s n new_bits : ℕ) where
  cleared-form : and_not a ((2 ^ n - 1) * 2 ^ s) ≡ a / 2 ^ s / 2 ^ n * 2 ^ n * 2 ^ s + a % 2 ^ s
  cleared-form = omega (
    arith,
    bit_and_field s n a,
    div-add-mod' a (2 ^ s),
    ap (λ t. t * 2 ^ s) (div-add-mod' (a / 2 ^ s) (2 ^ n)),
    add-mul (a / 2 ^ s / 2 ^ n * 2 ^ n) (a / 2 ^ s % 2 ^ n) (2 ^ s),
  )

  set_bits-form :
      set_bits a s n new_bits ≡ (a / 2 ^ s / 2 ^ n * 2 ^ n + new_bits % 2 ^ n) * 2 ^ s + a % 2 ^ s
  unfolding set_bits
  set_bits-form =
      ap (λ c. bit_or c (bit_and new_bits (2 ^ n - 1) * 2 ^ s)) cleared-form
      ∙ ap (λ x. bit_or (a / 2 ^ s / 2 ^ n * 2 ^ n * 2 ^ s + a % 2 ^ s) (x * 2 ^ s))
          (bit_and_mask n new_bits)
      ∙ bit_or-above s (a / 2 ^ s / 2 ^ n * 2 ^ n) (new_bits % 2 ^ n) (a % 2 ^ s)
          (mod-lt a (omega (arith, one-le-pow s 2)))
      ∙ ap (λ t. t * 2 ^ s + a % 2 ^ s)
          (bit_or_fields n (a / 2 ^ s / 2 ^ n) (new_bits % 2 ^ n)
            (mod-lt new_bits (omega (arith, one-le-pow n 2))))

-- Setting a field of `n` bits from bit `s` on: reading the field gives the low `n` bits of what was
-- written, and the bits below the field and above it are those of the original value.
pub get_bits-set_bits :
    (a s n new_bits : ℕ)
    → (get_bits (set_bits a s n new_bits) s n ≡ new_bits % 2 ^ n)
      × (set_bits a s n new_bits % 2 ^ s ≡ a % 2 ^ s)
      × (set_bits a s n new_bits / 2 ^ s / 2 ^ n ≡ a / 2 ^ s / 2 ^ n)
unfolding get_bits
get_bits-set_bits a s n new_bits =
    let hi = a / 2 ^ s / 2 ^ n in
    let x = new_bits % 2 ^ n in
    let pos : 0 < 2 ^ s = omega (arith, one-le-pow s 2) in
    let pos' : 0 < 2 ^ n = omega (arith, one-le-pow n 2) in
    let form = set_bits-form a s n new_bits in
    let above : set_bits a s n new_bits / 2 ^ s ≡ hi * 2 ^ n + x =
      ap (λ t. t / 2 ^ s) form
      ∙ mul-add-div_right pos (hi * 2 ^ n + x) (a % 2 ^ s)
      ∙ ap (λ t. hi * 2 ^ n + x + t) (div-eq_of_lt (mod-lt a pos))
      ∙ omega arith in
    (
      ap (λ t. bit_and t (2 ^ n - 1)) above
          ∙ bit_and_mask n (hi * 2 ^ n + x)
          ∙ mul-add-mod_self_right hi (2 ^ n) x
          ∙ mod-mod new_bits (2 ^ n),
      ap (λ t. t % 2 ^ s) form
          ∙ mul-add-mod_self_right (hi * 2 ^ n + x) (2 ^ s) (a % 2 ^ s)
          ∙ mod-mod a (2 ^ s),
      ap (λ t. t / 2 ^ n) above
          ∙ mul-add-div_right pos' hi x
          ∙ ap (λ t. hi + t) (div-eq_of_lt (mod-lt new_bits pos'))
          ∙ omega arith,
    )
