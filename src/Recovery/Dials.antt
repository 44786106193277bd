-- ===== src/Recovery/Dials.antt =====
-- _recover_transport: how often it dials, and what it leaves alone.
use luxpower_ha_integration.Base.{
  length, ℕ, zero, suc, ◌+◌, ◌-◌, ◌≤◌, ◌≡◌, refl, subst, inl, inr, Bool, true, false, some, List,
  arith, leb, if◌then◌else◌, Outcome, Exception, ok, raised, Bool-cases,
}
use luxpower_ha_integration.Base.Exec.{proceed-keeps}
use luxpower_ha_integration.Recovery.{
  RecoveryFailureKind, RecoveryPolicy, check_policy, InputReadBlock, ActiveRecovery, HybridClient,
  Moment, record_recovery, abandon_recovery, expire,
}
use luxpower_ha_integration.Recovery.Reconnect.{
  Wait, close_client, Trial, shutdown_during, after_cooldown, after_failure, after_dial, dial,
  count_dial, count_failed_dial, counted_dial, counted_failed_dial, give_up_dialling, DialFailure,
  refused, aborted, passes_on, dial_failure, dial_from, Course, new_recovery, cooldown_for,
  spend_budget, after_dials, reconnect, begin_recovery, recover_transport,
}

-- The attempt times are `times`, and there were `n` dials.
pub record Dialled (times : List ℕ) (n : ℕ) (self : HybridClient) : Type 0 where
  pub same_times : self.reconnect_attempt_times ≡ times
  pub dials : self.connection_dial_attempts ≡ n

-- The same, of `most` dials at most.
pub record DialledAtMost (times : List ℕ) (most : ℕ) (self : HybridClient) : Type 0 where
  pub same_times : self.reconnect_attempt_times ≡ times
  pub few_dials : self.connection_dial_attempts ≤ most

dial-Dialled :
    (times : List ℕ) (n : ℕ) (trial : Trial) (self : HybridClient)
    → Dialled times n self
    → Dialled times n (dial trial self).0
unfolding dial close_client
dial-Dialled times n trial self d = elim (Bool-cases trial.shuts_down) [
  | inl stops ↦ ground (arith, stops)
  | inr goes_on ↦ ground (arith, goes_on)
]

module _ (times : List ℕ) (n most : ℕ) (few : n ≤ most) where
  shutdown_during-Dialled :
      (delay : ℕ) (wait : Wait) (self : HybridClient)
      → Dialled times n self
      → Dialled times n (shutdown_during delay wait self).0
  unfolding shutdown_during close_client
  shutdown_during-Dialled delay wait self d = ground arith

  after_cooldown-Dialled :
      {A : Type 0} (active : ActiveRecovery) (at : Moment)
      (next : HybridClient → HybridClient × Outcome A) (r : HybridClient × Outcome Bool)
      → Dialled times n r.0
      → ((self : HybridClient) → Dialled times n self → DialledAtMost times most (next self).0)
      → DialledAtMost times most (after_cooldown active at next r).0
  unfolding after_cooldown record_recovery
  after_cooldown-Dialled active at next (self, raised e) d keeps = record {
    same_times = d.same_times;
    few_dials = omega (arith, d.dials);
  }
  after_cooldown-Dialled active at next (self, ok true) d keeps = record {
    same_times = d.same_times;
    few_dials = omega (arith, d.dials);
  }
  after_cooldown-Dialled active at next (self, ok false) d keeps = keeps self d

  after_failure-Dialled :
      (policy : RecoveryPolicy) (attempt : ℕ) (trial : Trial) (active : ActiveRecovery)
      (later : ActiveRecovery → HybridClient → HybridClient × Outcome ActiveRecovery)
      (e : Exception) (f : DialFailure) (self : HybridClient)
      → Dialled times n self
      → ((a : ActiveRecovery) (s : HybridClient)
          → Dialled times n s
          → DialledAtMost times most (later a s).0)
      → DialledAtMost times most (after_failure policy attempt trial active later e f self).0
  unfolding after_failure record_recovery
  after_failure-Dialled policy attempt trial active later e aborted self d keeps = record {
    same_times = d.same_times;
    few_dials = omega (arith, d.dials);
  }
  after_failure-Dialled policy attempt trial active later e passes_on self d keeps = record {
    same_times = d.same_times;
    few_dials = omega (arith, d.dials);
  }
  after_failure-Dialled policy attempt trial active later e refused self d keeps =
      let failed = count_failed_dial active in
      let counted = counted_failed_dial active self in
      let cooled = shutdown_during policy.repeated_cooldown_seconds trial.cooldown_ends counted in
      elim (leb policy.max_connection_attempts_per_reconnect (attempt + 1))
        as (λ b.
          DialledAtMost times most
            (if b
              then (give_up_dialling failed trial.dialled counted, raised e)
              else after_cooldown failed trial.cooled (later failed) cooled).0) [
                | true ↦ record { same_times = d.same_times; few_dials = omega (arith, d.dials) }
                | false ↦
                    after_cooldown-Dialled failed trial.cooled (later failed) cooled
                      (shutdown_during-Dialled policy.repeated_cooldown_seconds trial.cooldown_ends
                        counted (record { same_times = d.same_times; dials = d.dials }))
                      (keeps failed)
              ]

  after_dial-Dialled :
      (policy : RecoveryPolicy) (attempt : ℕ) (trial : Trial) (active : ActiveRecovery)
      (later : ActiveRecovery → HybridClient → HybridClient × Outcome ActiveRecovery)
      (outcome : Outcome (Unit {0})) (self : HybridClient)
      → Dialled times n self
      → ((a : ActiveRecovery) (s : HybridClient)
          → Dialled times n s
          → DialledAtMost times most (later a s).0)
      → DialledAtMost times most (after_dial policy attempt trial active later outcome self).0
  unfolding after_dial
  after_dial-Dialled policy attempt trial active later (ok t) self d keeps = record {
    same_times = d.same_times;
    few_dials = omega (arith, d.dials);
  }
  after_dial-Dialled policy attempt trial active later (raised e) self d keeps =
      after_failure-Dialled policy attempt trial active later e (dial_failure e) self d keeps

dial_from-Dialled :
    (policy : RecoveryPolicy) (times : List ℕ) (left attempt n most : ℕ) (trials : ℕ → Trial)
    (active : ActiveRecovery) (self : HybridClient)
    → n + left ≤ most
    → Dialled times n self
    → DialledAtMost times most (dial_from policy left attempt trials active self).0
unfolding dial_from
dial_from-Dialled policy times zero attempt n most trials active self few d = record {
  same_times = d.same_times;
  few_dials = omega (arith, d.dials);
}
dial_from-Dialled policy times (suc left) attempt n most trials active self few d =
    let trial = trials attempt in
    let counted = counted_dial active self in
    after_dial-Dialled times (n + 1) most (omega arith) policy attempt trial (count_dial active)
      (dial_from policy left (attempt + 1) trials) (dial trial counted).1 (dial trial counted).0
      (dial-Dialled times (n + 1) trial counted
        (record { same_times = d.same_times; dials = omega (arith, d.dials) }))
      (λ a s d'.
        dial_from-Dialled policy times left (attempt + 1) (n + 1) most trials a s (omega arith) d')

after_dials-Dialled :
    (times : List ℕ) (most : ℕ) (course : Course) (active : ActiveRecovery) (self : HybridClient)
    → DialledAtMost times most self
    → DialledAtMost times most (after_dials course active self).0
unfolding after_dials record_recovery
after_dials-Dialled times most course active self d = elim (Bool-cases self.shutdown) [
  | inl stopped ↦ ground (arith, stopped)
  | inr goes_on ↦ ground (arith, goes_on)
]

reconnect-Dialled :
    (policy : RecoveryPolicy) (course : Course) (active : ActiveRecovery) (times : List ℕ) (n : ℕ)
    (self : HybridClient)
    → Dialled times n self
    → DialledAtMost times
        (n + policy.max_connection_attempts_per_reconnect)
        (reconnect policy course active self).0
unfolding reconnect
reconnect-Dialled policy course active times n self d =
    let most = n + policy.max_connection_attempts_per_reconnect in
    let started : ActiveRecovery = record active {
      reconnect_started_at = some course.cooled.utc;
    } in
    let begun : HybridClient = record self { active_recovery = some started } in
    proceed-keeps (DialledAtMost times most) (after_dials course)
      (dial_from policy policy.max_connection_attempts_per_reconnect 0 course.trials started begun)
      (dial_from-Dialled policy times policy.max_connection_attempts_per_reconnect 0 n most
        course.trials started begun (omega arith)
        (record { same_times = d.same_times; dials = d.dials }))
      (λ a s d'. after_dials-Dialled times most course a s d')

few_attempts :
    (policy : RecoveryPolicy)
    → check_policy policy ≡ ok policy
    → policy.max_connection_attempts_per_reconnect ≤ 5
unfolding check_policy
few_attempts policy h = ground arith

-- A recovery that the budget does not allow dials not at all.
pub recover_transport-spent :
    (policy : RecoveryPolicy) (kind : RecoveryFailureKind) (block : InputReadBlock) (episode : ℕ)
    (course : Course) (self : HybridClient)
    → (spend_budget policy course.failed_at.monotonic self.reconnect_attempt_times).1 ≡ false
    → (recover_transport policy kind block episode course self).0.connection_dial_attempts
      ≡ self.connection_dial_attempts
unfolding recover_transport record_recovery abandon_recovery
recover_transport-spent policy kind block episode course self spent = ground (arith, spent)

pub recover_transport-Spends :
    (policy : RecoveryPolicy) (kind : RecoveryFailureKind) (block : InputReadBlock) (episode : ℕ)
    (course : Course) (self : HybridClient)
    → DialledAtMost
        (spend_budget policy course.failed_at.monotonic self.reconnect_attempt_times).0
        (self.connection_dial_attempts + policy.max_connection_attempts_per_reconnect)
        (recover_transport policy kind block episode course self).0
unfolding recover_transport record_recovery abandon_recovery
recover_transport-Spends policy kind block episode course self =
    let at = course.failed_at in
    let times = (spend_budget policy at.monotonic self.reconnect_attempt_times).0 in
    let n = self.connection_dial_attempts in
    let most = n + policy.max_connection_attempts_per_reconnect in
    let recent =
      expire (at.monotonic - policy.rolling_window_seconds) self.reconnect_attempt_times in
    let cooldown = cooldown_for policy recent in
    let active = new_recovery kind block episode cooldown at in
    let begun = begin_recovery active times self in
    elim (Bool-cases (spend_budget policy at.monotonic self.reconnect_attempt_times).1) [
      | inr spent ↦ ground (arith, spent)
      | inl granted ↦
          subst (DialledAtMost times most)
            {x = (after_cooldown active course.cooled (reconnect policy course active)
              (shutdown_during cooldown course.cooldown_ends begun)).0}
            {y = (recover_transport policy kind block episode course self).0}
            (ground (arith, granted))
            (after_cooldown-Dialled times n most (omega arith) active course.cooled
              (reconnect policy course active) (shutdown_during cooldown course.cooldown_ends begun)
              (shutdown_during-Dialled times n most (omega arith) cooldown course.cooldown_ends
                begun (record { same_times = refl; dials = refl }))
              (λ s d. reconnect-Dialled policy course active times n s d))
    ]

-- A recovery dials no more often than its policy allows, which is five times at most if the policy
-- has passed its checks, and not at all if the window holds as many reconnects as the policy allows.
pub recover_transport-Dialled :
    (policy : RecoveryPolicy) (kind : RecoveryFailureKind) (block : InputReadBlock) (episode : ℕ)
    (course : Course) (self : HybridClient)
    → check_policy policy ≡ ok policy
    → ((recover_transport policy kind block episode course self).0.connection_dial_attempts
        ≤ self.connection_dial_attempts + policy.max_connection_attempts_per_reconnect)
      × ((recover_transport policy kind block episode course self).0.connection_dial_attempts
          ≤ self.connection_dial_attempts + 5)
      × (policy.max_reconnects_per_window
            ≤ length (
                expire
                  (course.failed_at.monotonic - policy.rolling_window_seconds)
                  self.reconnect_attempt_times)
          → (recover_transport policy kind block episode course self).0.connection_dial_attempts
            ≡ self.connection_dial_attempts)
unfolding spend_budget
recover_transport-Dialled policy kind block episode course self checked =
    let spends = recover_transport-Spends policy kind block episode course self in
    (
      spends.few_dials,
      omega (arith, spends.few_dials, few_attempts policy checked),
      λ full. recover_transport-spent policy kind block episode course self (ground (arith, full)),
    )
