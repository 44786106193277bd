-- ===== src/Recovery/Budget.antt =====
-- The budget of _recover_transport: how many recoveries dial within a rolling window.
use luxpower_ha_integration.Base.{
  ℕ, ◌+◌, ◌-◌, ◌≤◌, ◌≡◌, refl, sym, subst, inl, inr, false, List, [], ◌∷◌, ◌++◌, length,
  length-append, arith, leb, ltb, if◌then◌else◌, ok, Bool-cases,
}
use luxpower_ha_integration.Recovery.{
  RecoveryFailureKind, RecoveryPolicy, check_policy, InputReadBlock, HybridClient, expire,
}
use luxpower_ha_integration.Recovery.Reconnect.{Course, spend_budget, recover_transport}
use luxpower_ha_integration.Recovery.Dials.{recover_transport-Spends, recover_transport-spent}

-- A failure of the transport, with what the recovery from it is given.
pub record Failure : Type 0 where
  pub kind : RecoveryFailureKind
  pub block : InputReadBlock
  pub episode_started_at : ℕ
  pub course : Course

abbrev pub failed_at : Failure → ℕ
failed_at failure = failure.course.failed_at.monotonic

abbrev pub recover : RecoveryPolicy → Failure → HybridClient → HybridClient
recover policy failure self =
    (recover_transport policy failure.kind failure.block failure.episode_started_at failure.course
      self).0

-- The time of a failure whose recovery has dialled.
abbrev pub dialled_for : Failure → (before after : HybridClient) → List ℕ
dialled_for failure before after =
    if ltb before.connection_dial_attempts after.connection_dial_attempts
    then failed_at failure ∷ []
    else []

-- The times of the failures whose recoveries have dialled, of recoveries one after the other.
unfoldable pub dialled_at : RecoveryPolicy → List Failure → HybridClient → List ℕ
dialled_at policy [] self = []
dialled_at policy (failure ∷ failures) self =
    let after = recover policy failure self in
    dialled_for failure self after ++ dialled_at policy failures after

-- How many of the times are not before `cutoff`.
unfoldable pub count_from : (cutoff : ℕ) → List ℕ → ℕ
count_from cutoff [] = 0
count_from cutoff (time ∷ times) =
    let rest = count_from cutoff times in if ltb time cutoff then rest else rest + 1

-- The failures are in order, from `last` on, and not behind `now`.
unfoldable pub InOrder : (last : ℕ) → List Failure → (now : ℕ) → Type 0
InOrder last [] now = last ≤ now
InOrder last (failure ∷ failures) now =
    (last ≤ failed_at failure) × InOrder (failed_at failure) failures now

count_from-++ :
    (cutoff : ℕ) (xs ys : List ℕ)
    → count_from cutoff (xs ++ ys) ≡ count_from cutoff xs + count_from cutoff ys
unfolding count_from
count_from-++ cutoff [] ys = omega arith
count_from-++ cutoff (x ∷ xs) ys = ground (arith, count_from-++ cutoff xs ys)

count_from_nil : (cutoff : ℕ) → count_from cutoff [] ≡ 0
unfolding count_from
count_from_nil cutoff = refl

count_from-length : (cutoff : ℕ) (xs : List ℕ) → count_from cutoff xs ≤ length xs
unfolding count_from
count_from-length cutoff [] = omega arith
count_from-length cutoff (x ∷ xs) = ground (arith, count_from-length cutoff xs)

expire-length : (cutoff : ℕ) (xs : List ℕ) → length (expire cutoff xs) ≤ length xs
unfolding expire
expire-length cutoff [] = omega arith
expire-length cutoff (x ∷ xs) = ground (arith, expire-length cutoff xs)

-- What expires is not counted.
count_from-expire :
    (early late : ℕ) (xs : List ℕ)
    → early ≤ late
    → count_from late xs ≤ count_from late (expire early xs)
unfolding expire count_from
count_from-expire early late [] le = omega arith
count_from-expire early late (x ∷ xs) le = ground (arith, count_from-expire early late xs le)

module _ (policy : RecoveryPolicy) (checked : check_policy policy ≡ ok policy) where
  spend_budget-length :
      (now : ℕ) (times : List ℕ)
      → length times ≤ policy.max_reconnects_per_window
      → length (spend_budget policy now times).0 ≤ policy.max_reconnects_per_window
  unfolding spend_budget
  spend_budget-length now times few =
      let recent = expire (now - policy.rolling_window_seconds) times in
      ground (
        arith,
        expire-length (now - policy.rolling_window_seconds) times,
        length-append recent (now ∷ []),
      )

  spend_budget-counts :
      (now cutoff before after : ℕ) (times : List ℕ)
      → now - policy.rolling_window_seconds ≤ cutoff
      → ((spend_budget policy now times).1 ≡ false → after ≡ before)
      → count_from cutoff times + count_from cutoff (if ltb before after then now ∷ [] else [])
        ≤ count_from cutoff (spend_budget policy now times).0
  unfolding spend_budget
  spend_budget-counts now cutoff before after times le none_dialled =
      let recent = expire (now - policy.rolling_window_seconds) times in
      let kept = count_from-expire (now - policy.rolling_window_seconds) cutoff times le in
      elim (Bool-cases (leb policy.max_reconnects_per_window (length recent))) [
        | inl spent ↦
            let same = none_dialled (ground (arith, spent)) in
            ground (arith, spent, kept, same, count_from_nil cutoff)
        | inr granted ↦
            ground
              (arith, granted, kept, count_from-++ cutoff recent (now ∷ []), count_from_nil cutoff)
      ]

  -- The attempt times that the budget keeps stand for the dials within each later window.
  recover-counts :
      (failure : Failure) (self : HybridClient) (cutoff : ℕ)
      → failed_at failure - policy.rolling_window_seconds ≤ cutoff
      → count_from cutoff self.reconnect_attempt_times
          + count_from cutoff (dialled_for failure self (recover policy failure self))
        ≤ count_from cutoff (recover policy failure self).reconnect_attempt_times
  recover-counts failure self cutoff le =
      let after = recover policy failure self in
      let same =
        (recover_transport-Spends policy failure.kind failure.block failure.episode_started_at
          failure.course self).same_times in
      subst
        (λ times.
          count_from cutoff self.reconnect_attempt_times
            + count_from cutoff (dialled_for failure self after)
          ≤ count_from cutoff times)
        (sym same)
        (spend_budget-counts (failed_at failure) cutoff self.connection_dial_attempts
          after.connection_dial_attempts self.reconnect_attempt_times le
          (λ spent.
            recover_transport-spent policy failure.kind failure.block failure.episode_started_at
              failure.course self spent))

  -- `before` counts the dials so far; the budget's attempt times stand for them.
  dialled_at-few :
      (before : ℕ → ℕ) (last now : ℕ) (failures : List Failure) (self : HybridClient)
      → ((cutoff : ℕ)
          → last - policy.rolling_window_seconds ≤ cutoff
          → before cutoff ≤ count_from cutoff self.reconnect_attempt_times)
      → length self.reconnect_attempt_times ≤ policy.max_reconnects_per_window
      → InOrder last failures now
      → before (now - policy.rolling_window_seconds)
          + count_from (now - policy.rolling_window_seconds) (dialled_at policy failures self)
        ≤ policy.max_reconnects_per_window
  unfolding dialled_at InOrder
  dialled_at-few before last now [] self counted few in_order =
      let cutoff = now - policy.rolling_window_seconds in
      ground (
        arith,
        counted cutoff (omega arith),
        count_from-length cutoff self.reconnect_attempt_times,
        count_from_nil cutoff,
      )
  dialled_at-few before last now (failure ∷ failures) self counted few (in_order, later) =
      let cutoff = now - policy.rolling_window_seconds in
      let after = recover policy failure self in
      let dialled = dialled_for failure self after in
      let same =
        (recover_transport-Spends policy failure.kind failure.block failure.episode_started_at
          failure.course self).same_times in
      omega (
        arith,
        count_from-++ cutoff dialled (dialled_at policy failures after),
        dialled_at-few (λ c. before c + count_from c dialled) (failed_at failure) now failures after
            (λ c le. omega (arith, counted c (omega arith), recover-counts failure self c le))
            (subst (λ times. length times ≤ policy.max_reconnects_per_window) (sym same)
              (spend_budget-length (failed_at failure) self.reconnect_attempt_times few))
            later,
      )

-- Of the recoveries that follow one another, no more than the policy allows dial within its rolling
-- window, whichever moment the window ends at: if the policy has passed its checks, the failures are
-- in order, and the client has not recovered before.
pub dialled_at-budget :
    (policy : RecoveryPolicy) (failures : List Failure) (self : HybridClient) (now : ℕ)
    → check_policy policy ≡ ok policy
    → self.reconnect_attempt_times ≡ []
    → InOrder 0 failures now
    → count_from (now - policy.rolling_window_seconds) (dialled_at policy failures self)
      ≤ policy.max_reconnects_per_window
dialled_at-budget policy failures self now checked new in_order =
    let few =
      dialled_at-few policy checked (λ cutoff. 0) 0 now failures self (λ cutoff le. omega arith)
        (subst (λ times. length times ≤ policy.max_reconnects_per_window) (sym new) (omega arith))
        in_order in
    omega (arith, few)
