-- ===== src/Base/Call.antt =====
-- Python calls that may raise: a value, or the exception as a value.
use Prim.Native.Nat.{ℕ}
use mathlib.Core.Bool.{Bool, true, false}
use mathlib.Core.Path.{◌≡◌, refl}
use mathlib.Core.Logic.{◌⊎◌, inl, inr}

-- The exceptions that the modelled code raises or lets through.
pub data Exception : Type 0 where
  value_error overflow_error index_error unicode_error type_error : Exception
  timeout_error connection_error os_error : Exception
  communication_error runtime_error : Exception
  -- The read session's own, of exceptions.py, and asyncio's cancellation.
  connect_failed connection_lost session_closed read_timeout ambiguous_request : Exception
  read_rejected : (code : ℕ) → Exception
  cancelled_error recovery_exhausted : Exception
  -- No exception of the program: the fuel of a modelled loop ran out.
  out_of_fuel : Exception

pub data Outcome {ℓ} (A : Type ℓ) : Type ℓ where
  ok : A → Outcome A
  raised : Exception → Outcome A

infixl 5 ◌>>=◌ ◌>>◌
abbrev pub ◌>>=◌ {ℓ κ} : {A : Type ℓ} {B : Type κ} → Outcome A → (A → Outcome B) → Outcome B
ok a >>= f = f a
raised e >>= f = raised e

abbrev pub ◌>>◌ {ℓ} : {B : Type ℓ} → Outcome (Unit {0}) → Outcome B → Outcome B
m >> k = m >>= λ _. k

pub >>=-eq-ok {ℓ κ} :
    {A : Type ℓ} {B : Type κ} (first : Outcome A) (next : A → Outcome B) {value : B}
    → (first >>= next) ≡ ok value
    → (x : A) × (first ≡ ok x) × (next x ≡ ok value)
>>=-eq-ok (ok x) next done = (x, refl, done)
>>=-eq-ok (raised e) next done = cc

pub Outcome-cases {ℓ} :
    {A : Type ℓ} (m : Outcome A) → ((a : A) × (m ≡ ok a)) ⊎ ((e : Exception) × (m ≡ raised e))
Outcome-cases (ok a) = inl (a, refl)
Outcome-cases (raised e) = inr (e, refl)

abbrev pub is_cancellation : Exception → Bool
is_cancellation cancelled_error = true
is_cancellation _ = false
