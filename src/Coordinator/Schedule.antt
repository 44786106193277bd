-- ===== src/Coordinator/Schedule.antt =====
-- The coordinator's state after any updates, and its schedule in closed form.
use luxpower_ha_integration.Base.{
  ℕ, suc, ◌≡◌, refl, ap, ◌∙◌, Option, none, some, List, [], ◌∷◌, arith, leb, if◌then◌else◌, Outcome,
  ok, raised, is_cancellation, inl, inr, Bool-cases,
}
use luxpower_ha_integration.Coordinator.{
  Coordinator, init, register_failure, async_update_data, updates,
}

-- The failures since the last success; an update that is cancelled is none.
abbrev pub consecutive_failures {ℓ} : {A : Type ℓ} → ℕ → List (Outcome A × ℕ) → ℕ
consecutive_failures n [] = n
consecutive_failures n ((ok a, now) ∷ later) = consecutive_failures 0 later
consecutive_failures n ((raised e, now) ∷ later) =
    consecutive_failures (if is_cancellation e then n else suc n) later

abbrev pub last_success_of {ℓ} : {A : Type ℓ} → Option ℕ → List (Outcome A × ℕ) → Option ℕ
last_success_of t [] = t
last_success_of t ((ok a, now) ∷ later) = last_success_of (some now) later
last_success_of t ((raised e, now) ∷ later) = last_success_of t later

-- The seconds between two updates after a number of consecutive failures.
abbrev pub seconds_after : (poll_interval failures : ℕ) → ℕ
seconds_after poll_interval failures =
    if leb failures 2
    then poll_interval
    else if leb failures 10
    then 15
    else if leb failures 20
    then 30
    else 60

-- The state that belongs to a number of consecutive failures.
abbrev pub state_for : (poll_interval failures : ℕ) → Option ℕ → Coordinator
state_for poll_interval failures t = record {
  failed_updates = failures;
  last_success = t;
  is_recovering = leb 3 failures;
  original_poll_interval = poll_interval;
  update_interval = seconds_after poll_interval failures;
}

Coordinator-eq :
    (c d : Coordinator)
    → c.failed_updates ≡ d.failed_updates
    → c.last_success ≡ d.last_success
    → c.is_recovering ≡ d.is_recovering
    → c.original_poll_interval ≡ d.original_poll_interval
    → c.update_interval ≡ d.update_interval
    → c ≡ d
Coordinator-eq c d e f g h i = cc

failure-state_for :
    (p n : ℕ) (t : Option ℕ) → register_failure (state_for p n t) ≡ state_for p (suc n) t
unfolding register_failure
failure-state_for p n t =
    Coordinator-eq (register_failure (state_for p n t)) (state_for p (suc n) t) (ground arith)
      (ground arith) (ground arith) (ground arith) (ground arith)

success-state_for {ℓ} :
    {A : Type ℓ} (p n : ℕ) (t : Option ℕ) (a : A) (now : ℕ)
    → (async_update_data (state_for p n t) (ok a) now).0 ≡ state_for p 0 (some now)
unfolding async_update_data
success-state_for {A} p n t a now =
    Coordinator-eq (async_update_data (state_for p n t) (ok a) now).0 (state_for p 0 (some now))
      (ground arith) (ground arith) (ground arith) (ground arith) (ground arith)

updates-state_for {ℓ} :
    {A : Type ℓ} (p n : ℕ) (t : Option ℕ) (os : List (Outcome A × ℕ))
    → updates (state_for p n t) os ≡ state_for p (consecutive_failures n os) (last_success_of t os)
unfolding updates async_update_data
updates-state_for p n t [] = refl
updates-state_for p n t ((ok a, now) ∷ os) =
    ap (λ c. updates c os) (success-state_for p n t a now) ∙ updates-state_for p 0 (some now) os
updates-state_for p n t ((raised e, now) ∷ os) = elim (Bool-cases (is_cancellation e)) [
  | inl stops ↦ rw stops (updates-state_for p n t os)
  | inr fails ↦
      rw fails (ap (λ c. updates c os) (failure-state_for p n t) ∙ updates-state_for p (suc n) t os)
]

-- After any updates of a new coordinator, the number of failures counts those since the last
-- success, of updates that were not cancelled, the last success is the latest one, the coordinator is
-- recovering exactly from three consecutive failures on, and its interval is then 15 seconds, from
-- eleven failures on 30 and from twenty-one on 60, and otherwise the poll interval it was made with.
pub updates-init {ℓ} :
    {A : Type ℓ} (poll_interval : ℕ) (outcomes : List (Outcome A × ℕ))
    → updates (init poll_interval) outcomes
      ≡ state_for poll_interval (consecutive_failures 0 outcomes) (last_success_of none outcomes)
updates-init p os = updates-state_for p 0 none os
