-- ===== src/Recovery/Reconnect.antt =====
-- luxpower/hybrid.py: _recover_transport, in the pieces between its waits, and _shutdown_during.
use luxpower_ha_integration.Base.{
  ℕ, zero, suc, ◌+◌, ◌-◌, Bool, true, false, not, none, some, List, [], ◌∷◌, ◌++◌, leb, ◌==◌,
  if◌then◌else◌, length, Outcome, Exception, ok, raised, session_closed, connect_failed,
  cancelled_error, recovery_exhausted,
}
use luxpower_ha_integration.Base.Exec.{Exec, proceed}
use luxpower_ha_integration.Session.Lifecycle.{async_close}
use luxpower_ha_integration.Session.Connect.{Transport, async_connect}
use luxpower_ha_integration.Recovery.{
  recovering, degraded, RecoveryFailureKind, RecoveryPolicy, RecoveryOutcome,
  rolling_budget_exhausted, connection_attempts_exhausted, shut_down, was_cancelled, InputReadBlock,
  ActiveRecovery, HybridClient, Moment, max_optional, record_recovery, abandon_recovery, expire,
}

-- How a cooldown ends; a shutdown closes the client.
pub data Wait : Type 0 where
  elapses is_shut_down is_cancelled : Wait

-- async_close of the client
unfoldable pub close_client : HybridClient → HybridClient
close_client self = record self {
  shutdown = true;
  health = degraded;
  session = async_close self.session;
}

-- What a dial and the cooldown behind it give; a shutdown can come while it is dialled.
pub record Trial : Type 0 where
  pub connector : Outcome Transport
  pub shuts_down : Bool
  pub dialled : Moment
  pub cooldown_ends : Wait
  pub cooled : Moment

abbrev pub wait_during : Wait → Exec HybridClient Bool
wait_during elapses self = (self, ok self.shutdown)
wait_during is_shut_down self = (close_client self, ok true)
wait_during is_cancelled self = (self, raised cancelled_error)

-- _shutdown_during
unfoldable pub shutdown_during : (delay : ℕ) → Wait → Exec HybridClient Bool
shutdown_during delay wait self =
    if self.shutdown
    then (self, ok true)
    else if delay == 0
    then (self, ok self.shutdown)
    else wait_during wait self

-- A recovery that ends: it is recorded, and is no longer the active one.
abbrev pub end_recovery : ActiveRecovery → RecoveryOutcome → Moment → HybridClient → HybridClient
end_recovery active outcome at self = record (record_recovery active outcome at self) {
  active_recovery = none;
}

-- The branches behind a cooldown: cancelled, shut down, or on.
unfoldable pub after_cooldown {ℓ} :
    {A : Type ℓ}
    → ActiveRecovery
    → Moment
    → (HybridClient → HybridClient × Outcome A)
    → HybridClient × Outcome Bool
    → HybridClient × Outcome A
after_cooldown active at next (self, raised e) =
    (record (end_recovery active was_cancelled at self) { health = degraded }, raised e)
after_cooldown active at next (self, ok true) =
    (end_recovery active shut_down at self, raised session_closed)
after_cooldown active at next (self, ok false) = next self

abbrev pub count_dial : ActiveRecovery → ActiveRecovery
count_dial active = record active { connection_dial_attempts = active.connection_dial_attempts + 1 }

abbrev pub count_failed_dial : ActiveRecovery → ActiveRecovery
count_failed_dial active = record active {
  failed_connection_dial_attempts = active.failed_connection_dial_attempts + 1;
}

abbrev pub counted_dial : ActiveRecovery → HybridClient → HybridClient
counted_dial active self = record self {
  connection_dial_attempts = self.connection_dial_attempts + 1;
  active_recovery = some (count_dial active);
}

abbrev pub counted_failed_dial : ActiveRecovery → HybridClient → HybridClient
counted_failed_dial active self = record self {
  connection_establishment_failure_count = self.connection_establishment_failure_count + 1;
  failed_connection_dial_attempts = self.failed_connection_dial_attempts + 1;
  active_recovery = some (count_failed_dial active);
}

-- The last dial has failed.
abbrev pub give_up_dialling : ActiveRecovery → Moment → HybridClient → HybridClient
give_up_dialling active at self =
    end_recovery active connection_attempts_exhausted at (record self {
      failed_reconnects = self.failed_reconnects + 1;
      acquisitions_abandoned = self.acquisitions_abandoned + 1;
      health = degraded;
    })

-- What `except` makes of a dial's exception: a failure to connect, a cancellation, or another.
pub data DialFailure : Type 0 where
  refused aborted passes_on : DialFailure

abbrev pub dial_failure : Exception → DialFailure
dial_failure connect_failed = refused
dial_failure cancelled_error = aborted
dial_failure _ = passes_on

-- The handlers of a dial's exception; `later` are the attempts behind.
unfoldable pub after_failure :
    RecoveryPolicy
    → (attempt : ℕ) → Trial
    → ActiveRecovery
    → (ActiveRecovery → Exec HybridClient ActiveRecovery)
    → Exception
    → DialFailure
    → Exec HybridClient ActiveRecovery
after_failure policy attempt trial active later e aborted self =
    (record (end_recovery active was_cancelled trial.dialled self) { health = degraded }, raised e)
after_failure policy attempt trial active later e passes_on self = (self, raised e)
after_failure policy attempt trial active later e refused self =
    let failed = count_failed_dial active in
    let counted = counted_failed_dial active self in
    if leb policy.max_connection_attempts_per_reconnect (attempt + 1)
    then (give_up_dialling failed trial.dialled counted, raised e)
    else after_cooldown failed trial.cooled (later failed)
        (shutdown_during policy.repeated_cooldown_seconds trial.cooldown_ends counted)

unfoldable pub after_dial :
    RecoveryPolicy
    → (attempt : ℕ) → Trial
    → ActiveRecovery
    → (ActiveRecovery → Exec HybridClient ActiveRecovery)
    → Outcome (Unit {0})
    → Exec HybridClient ActiveRecovery
after_dial policy attempt trial active later (ok t) self = (self, ok active)
after_dial policy attempt trial active later (raised e) self =
    after_failure policy attempt trial active later e (dial_failure e) self

-- await self._session.async_connect()
unfoldable pub dial : Trial → Exec HybridClient (Unit {0})
dial trial self =
    let (session, outcome) = async_connect trial.connector self.session in
    let dialled : HybridClient = record self { session = session } in
    (if trial.shuts_down then close_client dialled else dialled, outcome)

-- for attempt in range(policy.max_connection_attempts_per_reconnect), of which `left` are left
unfoldable pub dial_from :
    RecoveryPolicy
    → (left attempt : ℕ) → (ℕ → Trial)
    → ActiveRecovery
    → Exec HybridClient ActiveRecovery
dial_from policy zero attempt trials active self = (self, ok active)
dial_from policy (suc left) attempt trials active self =
    let trial = trials attempt in
    let (dialled, outcome) = dial trial (counted_dial active self) in
    after_dial policy attempt trial (count_dial active) (dial_from policy left (attempt + 1) trials)
      outcome dialled

-- What the coroutine is given on its way.
pub record Course : Type 0 where
  pub failed_at : Moment
  pub cooldown_ends : Wait
  pub cooled : Moment
  pub trials : ℕ → Trial
  pub established : Moment

-- The recovery that a failure begins.
abbrev pub new_recovery :
    RecoveryFailureKind
    → InputReadBlock
    → (episode_started_at cooldown : ℕ) → Moment
    → ActiveRecovery
new_recovery kind block episode_started_at cooldown at = record {
  failure_kind = kind;
  block = block;
  started_monotonic = at.monotonic;
  episode_started_at = episode_started_at;
  recovery_started_at = at.utc;
  cooldown_seconds = cooldown;
  reconnect_started_at = none;
  connection_established_at = none;
  failure_to_connection_seconds = none;
  maximum_profile_age_seconds = at.profile_age;
  connection_dial_attempts = 0;
  failed_connection_dial_attempts = 0;
}

abbrev pub cooldown_for : RecoveryPolicy → (times : List ℕ) → ℕ
cooldown_for policy [] = policy.initial_cooldown_seconds
cooldown_for policy (time ∷ times) = policy.repeated_cooldown_seconds

-- The budget of the window: the attempt times with the new one, or none if it is used up.
unfoldable pub spend_budget : RecoveryPolicy → (now : ℕ) → List ℕ → List ℕ × Bool
spend_budget policy now times =
    let recent = expire (now - policy.rolling_window_seconds) times in
    if leb policy.max_reconnects_per_window (length recent)
    then (recent, false)
    else (recent ++ now ∷ [], true)

-- Behind the dials.
unfoldable pub after_dials : Course → ActiveRecovery → Exec HybridClient ActiveRecovery
after_dials course active self =
    if self.shutdown
    then (
      end_recovery active shut_down course.established
          (record self { session = async_close self.session }),
      raised session_closed,
    )
    else let established = record active {
      connection_established_at = some course.established.utc;
      failure_to_connection_seconds =
          some (course.established.monotonic - course.failed_at.monotonic);
      maximum_profile_age_seconds =
          max_optional active.maximum_profile_age_seconds course.established.profile_age;
    } in
      (
        record self {
          successful_reconnects = self.successful_reconnects + 1;
          active_recovery = some established;
        },
        ok established,
      )

-- From the end of the first cooldown on.
unfoldable pub reconnect :
    RecoveryPolicy → Course → ActiveRecovery → Exec HybridClient ActiveRecovery
reconnect policy course active self =
    let started = record active { reconnect_started_at = some course.cooled.utc } in
    proceed (after_dials course) (
      dial_from policy policy.max_connection_attempts_per_reconnect 0 course.trials started
        (record self { active_recovery = some started }))

-- The attempt is begun.
abbrev pub begin_recovery : ActiveRecovery → (times : List ℕ) → HybridClient → HybridClient
begin_recovery active times self = record self {
  health = recovering;
  active_recovery = some active;
  reconnect_attempt_times = times;
  reconnect_attempts = self.reconnect_attempts + 1;
}

-- _recover_transport, under a policy
unfoldable pub recover_transport :
    RecoveryPolicy
    → RecoveryFailureKind
    → InputReadBlock
    → (episode_started_at : ℕ) → Course
    → Exec HybridClient ActiveRecovery
recover_transport policy kind block episode_started_at course self =
    let at = course.failed_at in
    let (times, granted) = spend_budget policy at.monotonic self.reconnect_attempt_times in
    let recent =
      expire (at.monotonic - policy.rolling_window_seconds) self.reconnect_attempt_times in
    let cooldown = cooldown_for policy recent in
    let active = new_recovery kind block episode_started_at cooldown at in
    if not granted
    then (
      abandon_recovery (
          record_recovery (new_recovery kind block episode_started_at 0 at) rolling_budget_exhausted
            at (record self { reconnect_attempt_times = times })),
      raised recovery_exhausted,
    )
    else after_cooldown active course.cooled (reconnect policy course active)
        (shutdown_during cooldown course.cooldown_ends (begin_recovery active times self))
