-- ===== src/Base/Bits.antt =====
-- Laws of the native bit operations at variables: the lowest digit, masks, fields, and bounds.
-- The native operations stand for a recursion on binary digits with a count of digits to go.
use Prim.Native.Nat.{ℕ, zero, suc, ◌+◌, ◌-◌, ◌*◌, ◌/◌, ◌%◌, ◌^◌, ◌≤◌, ◌<◌, min, max, differ}
use Prim.Native.Nat.{bit_and, bit_or, bit_xor, digits, bitwise}
use Prim.Native.Nat.{bit_and-bitwise, bit_or-bitwise, bit_xor-bitwise}
use mathlib.Core.Path.{◌≡◌, refl, ap, ap₂, sym, ◌∙◌}
use native.Mathlib.Decide.{dec_le}
use native.Mathlib.Nat.{pow-suc, one-le-pow, div-add-mod', mod-lt, mul_comm, div-div-eq-div-mul}
use native.Mathlib.Omega.{arith}

module _ (z : ℕ → ℕ) (f : ℕ → ℕ → ℕ) where
  -- One more digit than the number has changes nothing.
  digits-suc : (n a b : ℕ) → a ≤ n → digits z f (suc n) a b ≡ digits z f n a b
  digits-suc zero zero b h = refl
  digits-suc zero (suc a) b h = absurd (omega arith)
  digits-suc (suc n) zero b h = refl
  digits-suc (suc n) (suc a) b h =
      ap (λ t. t * 2 + f (suc a % 2) (b % 2)) (digits-suc n (suc a / 2) (b / 2) (omega arith))

  digits_settled : (n a b : ℕ) → a ≤ n → digits z f n a b ≡ bitwise z f a b
  digits_settled zero zero b h = refl
  digits_settled zero (suc a) b h = absurd (omega arith)
  digits_settled (suc n) a b h = elim (dec_le a n) [
    | yes fits ↦ digits-suc n a b fits ∙ digits_settled n a b fits
    | no full ↦ let e : suc n ≡ a = omega arith in ap (λ t. digits z f t a b) e
  ]

  pub lowest_digit :
      (a b : ℕ)
      → bitwise z f (suc a) b ≡ bitwise z f (suc a / 2) (b / 2) * 2 + f (suc a % 2) (b % 2)
  lowest_digit a b =
      ap (λ t. t * 2 + f (suc a % 2) (b % 2)) (digits_settled a (suc a / 2) (b / 2) (omega arith))

pub bit_and_step : (m n : ℕ) → bit_and m n ≡ bit_and (m / 2) (n / 2) * 2 + min (m % 2) (n % 2)
bit_and_step zero n = simp bit_and-bitwise (omega arith)
bit_and_step (suc m) n = simp bit_and-bitwise (lowest_digit (λ y. 0) min m n)

pub bit_or_step : (m n : ℕ) → bit_or m n ≡ bit_or (m / 2) (n / 2) * 2 + max (m % 2) (n % 2)
bit_or_step zero n = simp bit_or-bitwise (omega arith)
bit_or_step (suc m) n = simp bit_or-bitwise (lowest_digit (λ y. y) max m n)

differ_digit : (a b : ℕ) → differ (a % 2) (b % 2) ≡ (a % 2 + b % 2) % 2
differ_digit a b = go (a % 2) (b % 2) (omega arith) (omega arith)
  where
    go : (x y : ℕ) → x < 2 → y < 2 → differ x y ≡ (x + y) % 2
    go zero y p q = omega arith
    go (suc zero) zero p q = refl
    go (suc zero) (suc zero) p q = refl
    go (suc zero) (suc (suc y)) p q = absurd (omega arith)
    go (suc (suc x)) y p q = absurd (omega arith)

pub bit_xor_step : (a b : ℕ) → bit_xor a b ≡ bit_xor (a / 2) (b / 2) * 2 + (a % 2 + b % 2) % 2
bit_xor_step zero b = simp bit_xor-bitwise (omega arith)
bit_xor_step (suc a) b =
    simp bit_xor-bitwise (omega (arith, lowest_digit (λ y. y) differ a b, differ_digit (suc a) b))

-- By halving: `k` bounds the number.
zero_laws : (k a : ℕ) → a ≤ k → (bit_or a 0 ≡ a) × (bit_and a 0 ≡ 0) × (bit_xor a 0 ≡ a)
zero_laws k zero h = (refl, refl, refl)
zero_laws zero (suc a) h = absurd (omega arith)
zero_laws (suc k) (suc a) h =
    let (o, n, x) = zero_laws k (suc a / 2) (omega arith) in
    (
      omega (arith, o, bit_or_step (suc a) 0),
      omega (arith, n, bit_and_step (suc a) 0),
      omega (arith, x, bit_xor_step (suc a) 0),
    )

pub bit_or-zero : (a : ℕ) → bit_or a 0 ≡ a
bit_or-zero a = (zero_laws a a (omega arith)).0

pub bit_and-zero : (a : ℕ) → bit_and a 0 ≡ 0
bit_and-zero a = (zero_laws a a (omega arith)).1

pub bit_xor-zero : (a : ℕ) → bit_xor a 0 ≡ a
bit_xor-zero a = (zero_laws a a (omega arith)).2

pub bit_and-one : (a : ℕ) → bit_and a 1 ≡ a % 2
bit_and-one a = omega (arith, bit_and_step a 1, bit_and-zero (a / 2))

pub doubled : (q k : ℕ) → q * 2 ^ suc k ≡ 2 * (q * 2 ^ k)
doubled q k = omega (arith, ap (λ (t : ℕ). q * t) (pow-suc 2 k))

-- The exclusive or of two `k`-bit numbers has `k` bits.
pub bit_xor-lt : (k a b : ℕ) → a < 2 ^ k → b < 2 ^ k → bit_xor a b < 2 ^ k
bit_xor-lt zero zero zero p q = omega arith
bit_xor-lt zero zero (suc b) p q = absurd (omega arith)
bit_xor-lt zero (suc a) b p q = absurd (omega arith)
bit_xor-lt (suc k) a b p q = omega (
  arith,
  pow-suc 2 k,
  bit_xor_step a b,
  bit_xor-lt k (a / 2) (b / 2) (omega (arith, pow-suc 2 k)) (omega (arith, pow-suc 2 k)),
)

-- Numbers that agree on the low `k` digits lose these by exclusive or.
pub bit_xor_low : (k q r : ℕ) → r < 2 ^ k → bit_xor (q * 2 ^ k + r) r ≡ q * 2 ^ k
bit_xor_low zero q zero p = omega (arith, bit_xor-zero q, ap (λ t. bit_xor t 0) (same q))
  where
    same : (q : ℕ) → q * 2 ^ 0 + 0 ≡ q
    same q = omega arith
bit_xor_low zero q (suc r) p = absurd (omega arith)
bit_xor_low (suc k) q r p =
    let half : (q * 2 ^ suc k + r) / 2 ≡ q * 2 ^ k + r / 2 = omega (arith, doubled q k) in
    omega (
      arith,
      doubled q k,
      bit_xor_step (q * 2 ^ suc k + r) r,
      ap (λ t. bit_xor t (r / 2)) half,
      bit_xor_low k q (r / 2) (omega (arith, pow-suc 2 k)),
    )

-- `(q << k) | r` is a sum when `r` has `k` bits.
pub bit_or_fields : (k q r : ℕ) → r < 2 ^ k → bit_or (q * 2 ^ k) r ≡ q * 2 ^ k + r
bit_or_fields zero q zero p =
    let e : q * 2 ^ 0 ≡ q = omega arith in omega (arith, bit_or-zero q, ap (λ t. bit_or t 0) e)
bit_or_fields zero q (suc r) p = absurd (omega arith)
bit_or_fields (suc k) q r p =
    let half : q * 2 ^ suc k / 2 ≡ q * 2 ^ k = omega (arith, doubled q k) in
    omega (
      arith,
      doubled q k,
      bit_or_step (q * 2 ^ suc k) r,
      ap (λ t. bit_or t (r / 2)) half,
      bit_or_fields k q (r / 2) (omega (arith, pow-suc 2 k)),
    )

-- The mask `(1 << k) - 1` keeps the low field,
bit_and_fields : (k q r : ℕ) → r < 2 ^ k → bit_and (q * 2 ^ k + r) (2 ^ k - 1) ≡ r
bit_and_fields zero q zero p = bit_and-zero (q * 2 ^ 0 + 0)
bit_and_fields zero q (suc r) p = absurd (omega arith)
bit_and_fields (suc k) q r p =
    let mask : (2 ^ suc k - 1) / 2 ≡ 2 ^ k - 1 = omega (arith, pow-suc 2 k, one-le-pow k 2) in
    let half : (q * 2 ^ suc k + r) / 2 ≡ q * 2 ^ k + r / 2 = omega (arith, doubled q k) in
    omega (
      arith,
      doubled q k,
      pow-suc 2 k,
      one-le-pow k 2,
      bit_and_step (q * 2 ^ suc k + r) (2 ^ suc k - 1),
      ap₂ bit_and half mask,
      bit_and_fields k q (r / 2) (omega (arith, pow-suc 2 k)),
    )

-- and so it is the remainder by `2 ^ k`.
pub bit_and_mask : (k a : ℕ) → bit_and a (2 ^ k - 1) ≡ a % 2 ^ k
bit_and_mask k a =
    ap (λ t. bit_and t (2 ^ k - 1)) (sym (div-add-mod' a (2 ^ k)))
    ∙ bit_and_fields k (a / 2 ^ k) (a % 2 ^ k)
        (mod-lt a {m = 2 ^ k} (omega (arith, one-le-pow k 2)))

-- A mask over a field further up: `k` low digits below it and `n` digits wide.
pub bit_and_field : (k n a : ℕ) → bit_and a ((2 ^ n - 1) * 2 ^ k) ≡ a / 2 ^ k % 2 ^ n * 2 ^ k
bit_and_field zero n a =
    let wide : (2 ^ n - 1) * 2 ^ 0 ≡ 2 ^ n - 1 = omega arith in
    let all : a / 2 ^ 0 ≡ a = omega arith in
    ap (bit_and a) wide ∙ bit_and_mask n a ∙ omega (arith, ap (λ t. t % 2 ^ n) all)
bit_and_field (suc k) n a =
    let mask : (2 ^ n - 1) * 2 ^ suc k / 2 ≡ (2 ^ n - 1) * 2 ^ k =
      omega (arith, doubled (2 ^ n - 1) k) in
    let shift : a / 2 ^ suc k ≡ a / 2 / 2 ^ k =
      ap (λ t. a / t) (pow-suc 2 k ∙ mul_comm (2 ^ k) 2) ∙ sym (div-div-eq-div-mul a 2 (2 ^ k)) in
    omega (
      arith,
      doubled (2 ^ n - 1) k,
      bit_and_step a ((2 ^ n - 1) * 2 ^ suc k),
      ap (bit_and (a / 2)) mask,
      bit_and_field k n (a / 2),
      ap (λ t. t % 2 ^ n) shift,
      doubled (a / 2 / 2 ^ k % 2 ^ n) k,
      ap (λ t. t % 2 ^ n * 2 ^ suc k) shift,
    )

zero-bit_or : (b : ℕ) → bit_or 0 b ≡ b
zero-bit_or b = bit_or-bitwise 0 b

-- The same with the low field written first.
pub bit_or_low_first : (k q r : ℕ) → r < 2 ^ k → bit_or r (q * 2 ^ k) ≡ q * 2 ^ k + r
bit_or_low_first zero q zero p = omega (arith, zero-bit_or (q * 2 ^ 0))
bit_or_low_first zero q (suc r) p = absurd (omega arith)
bit_or_low_first (suc k) q r p =
    let half : q * 2 ^ suc k / 2 ≡ q * 2 ^ k = omega (arith, doubled q k) in
    omega (
      arith,
      doubled q k,
      bit_or_step r (q * 2 ^ suc k),
      ap (bit_or (r / 2)) half,
      bit_or_low_first k q (r / 2) (omega (arith, pow-suc 2 k)),
    )
