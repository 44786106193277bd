-- ===== src/Client/Pass/Blocks.antt =====
-- The blocks that a pass requests.
use luxpower_ha_integration.Base.{
  ℕ, zero, suc, ◌+◌, ◌-◌, ◌≤◌, ◌<◌, ◌≡◌, refl, List, [], ◌∷◌, arith, ltb, Bool-cases, inl, inr, ok,
}
use luxpower_ha_integration.Client.Pass.{range_from, range}

-- The numbers start at `start`, go up by `step`, and end with the last one below `stop`.
abbrev pub Tiles : (start stop step : ℕ) → List ℕ → Type 0
Tiles start stop step [] = stop ≤ start
Tiles start stop step (n ∷ ns) = (n ≡ start) × (start < stop) × Tiles (start + step) stop step ns

range_from-Tiles :
    (fuel start stop step : ℕ)
    → 1 ≤ step
    → stop - start ≤ fuel
    → Tiles start stop step (range_from fuel start stop step)
unfolding range_from
range_from-Tiles zero start stop step pos enough = omega arith
range_from-Tiles (suc fuel) start stop step pos enough =
    let later = range_from-Tiles fuel (start + step) stop step pos (omega arith) in
    elim (Bool-cases (ltb start stop)) [
      | inl t ↦ rw t (refl, ground arith, later)
      | inr f ↦ rw f (ground arith)
    ]

-- A range whose step is not zero gives, without running out of fuel, the numbers from its start on
-- by its step up to the last one below its stop.
pub range-Tiles :
    (start stop step : ℕ)
    → 1 ≤ step
    → (ns : List ℕ) × (range start stop step ≡ ok ns) × Tiles start stop step ns
unfolding range
range-Tiles start stop step pos = (
  range_from (stop - start) start stop step,
  ground arith,
  range_from-Tiles (stop - start) start stop step pos (omega arith),
)
