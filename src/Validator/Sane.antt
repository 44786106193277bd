-- ===== src/Validator/Sane.antt =====
-- is_data_sane: what the check lets through.
use luxpower_ha_integration.Base.{
  ℕ, ◌/◌, ◌%◌, ◌≤◌, ◌≡◌, refl, ◌↔◌, ◌⊎◌, inl, inr, true, false, List, [], ◌∷◌, arith, All,
  Bool-cases,
}
use luxpower_ha_integration.Base.Dict.{Dict}
use luxpower_ha_integration.Validator.{
  RequestType, time_registers, member, is_time, all_sane, is_data_sane,
}

-- A value packs an hour and a minute of the day.
pub record IsTimeOfDay (value : ℕ) : Type 0 where
  pub hour : value % 256 ≤ 23
  pub minute : value / 256 % 256 ≤ 59

-- An entry that the check allows.
abbrev pub Allowed : List ℕ → ℕ × ℕ → Type 0
Allowed times (register, value) = (member register times ≡ false) ⊎ IsTimeOfDay value

is_time-IsTimeOfDay : (v : ℕ) → is_time v ≡ true → IsTimeOfDay v
is_time-IsTimeOfDay v h = record { hour = ground arith; minute = ground arith }

IsTimeOfDay-is_time : (v : ℕ) → IsTimeOfDay v → is_time v ≡ true
IsTimeOfDay-is_time v h = let a = h.hour in let b = h.minute in ground arith

all_sane-Allowed : (times : List ℕ) (d : Dict ℕ ℕ) → all_sane times d ≡ true → All (Allowed times) d
unfolding all_sane
all_sane-Allowed times [] h = tt
all_sane-Allowed times ((r, v) ∷ d) h = elim (Bool-cases (member r times)) [
  | inr out ↦ (inl out, all_sane-Allowed times d (ground arith))
  | inl in' ↦ elim (Bool-cases (is_time v)) [
    | inl t ↦ (inr (is_time-IsTimeOfDay v t), all_sane-Allowed times d (ground arith))
    | inr f ↦ absurd (ground arith)
  ]
]

Allowed-all_sane : (times : List ℕ) (d : Dict ℕ ℕ) → All (Allowed times) d → all_sane times d ≡ true
unfolding all_sane
Allowed-all_sane times [] h = refl
Allowed-all_sane times ((r, v) ∷ d) (inl out, rest) = ground (arith, Allowed-all_sane times d rest)
Allowed-all_sane times ((r, v) ∷ d) (inr t, rest) =
    ground (arith, IsTimeOfDay-is_time v t, Allowed-all_sane times d rest)

-- The check passes exactly the registers in which every entry is no time register of the request
-- type, or has an hour up to 23 in its low byte and a minute up to 59 in the byte above.
pub is_data_sane_iff :
    (d : Dict ℕ ℕ) (request_type : RequestType)
    → (is_data_sane d request_type ≡ true) ↔ All (Allowed (time_registers request_type)) d
unfolding is_data_sane
is_data_sane_iff d t =
    (all_sane-Allowed (time_registers t) d, Allowed-all_sane (time_registers t) d)
