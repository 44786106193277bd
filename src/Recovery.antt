-- ===== src/Recovery.antt =====
-- recovery.py, and of luxpower/hybrid.py the attributes of LuxPowerHybridReadClient that recovery
-- uses, and its record of events. What _recover_transport waits for is given to it (Reconnect): how a
-- cooldown ends, what the connector gives, and the times and ages of the moments behind.
-- Times and ages are numbers, and a text that says how a recovery ended is a constructor.
pub mod Budget
pub mod Dials
pub mod Reconnect
use luxpower_ha_integration.Base.{
  ℕ, zero, suc, ◌+◌, ◌-◌, Bool, true, false, not, ◌||◌, Option, none, some, List, [], ◌∷◌, ◌++◌,
  ltb, leb, ◌==◌, if◌then◌else◌, length, drop, max, Outcome, Exception, ok, raised, value_error,
  connection_lost, session_closed, connect_failed, read_timeout, ambiguous_request, cancelled_error,
  recovery_exhausted, ◌>>=◌,
}
use luxpower_ha_integration.Base.Exec.{Exec, proceed}
use luxpower_ha_integration.Session.{LuxReadSession}
use luxpower_ha_integration.Session.Lifecycle.{async_close}
use luxpower_ha_integration.Session.Connect.{Transport, async_connect}

pub data AcquisitionHealth : Type 0 where
  healthy recovering degraded : AcquisitionHealth

pub data RecoveryFailureKind : Type 0 where
  request_timeout connection_was_lost connection_establishment : RecoveryFailureKind
  request_ambiguous session_was_closed : RecoveryFailureKind

pub record RecoveryPolicy : Type 0 where
  pub max_reconnects_per_acquisition : ℕ
  pub max_reconnects_per_window : ℕ
  pub max_connection_attempts_per_reconnect : ℕ
  pub rolling_window_seconds : ℕ
  pub initial_cooldown_seconds : ℕ
  pub repeated_cooldown_seconds : ℕ

-- MAX_CONNECTION_ATTEMPTS_PER_RECONNECT
abbrev pub max_connection_attempts : ℕ
max_connection_attempts = 5

-- __post_init__, of numbers that are not negative
unfoldable pub check_policy : RecoveryPolicy → Outcome RecoveryPolicy
check_policy self =
    if ltb self.max_reconnects_per_acquisition 1
      || ltb self.max_reconnects_per_window 1
      || ltb self.max_connection_attempts_per_reconnect 1
      || ltb max_connection_attempts self.max_connection_attempts_per_reconnect
      || self.rolling_window_seconds == 0
    then raised value_error
    else ok self

-- The `outcome` texts of _recover_transport.
pub data RecoveryOutcome : Type 0 where
  rolling_budget_exhausted connection_attempts_exhausted shut_down was_cancelled : RecoveryOutcome

-- A block of registers.
pub record InputReadBlock : Type 0 where
  pub start : ℕ
  pub count : ℕ

-- _ActiveRecovery
pub record ActiveRecovery : Type 0 where
  pub failure_kind : RecoveryFailureKind
  pub block : InputReadBlock
  pub started_monotonic : ℕ
  pub episode_started_at : ℕ
  pub recovery_started_at : ℕ
  pub cooldown_seconds : ℕ
  pub reconnect_started_at : Option ℕ
  pub connection_established_at : Option ℕ
  pub failure_to_connection_seconds : Option ℕ
  pub maximum_profile_age_seconds : Option ℕ
  pub connection_dial_attempts : ℕ
  pub failed_connection_dial_attempts : ℕ

-- RecoveryEvent, of a recovery that did not refresh the profile
pub record RecoveryEvent : Type 0 where
  pub recovery : ActiveRecovery
  pub ended_at : ℕ
  pub reconnect_succeeded : Bool
  pub outcome : RecoveryOutcome

-- RECOVERY_EVENT_CAPACITY
abbrev pub recovery_event_capacity : ℕ
recovery_event_capacity = 512

-- The attributes of LuxPowerHybridReadClient that recovery uses.
pub record HybridClient : Type 0 where
  pub session : LuxReadSession
  pub shutdown : Bool
  pub health : AcquisitionHealth
  pub reconnect_attempt_times : List ℕ
  pub recovery_events : List RecoveryEvent
  pub recovery_events_recorded : ℕ
  pub active_recovery : Option ActiveRecovery
  pub timeout_count : ℕ
  pub connection_loss_count : ℕ
  pub connection_establishment_failure_count : ℕ
  pub ambiguous_request_count : ℕ
  pub reconnect_attempts : ℕ
  pub successful_reconnects : ℕ
  pub failed_reconnects : ℕ
  pub retry_budget_exhausted : ℕ
  pub acquisitions_abandoned : ℕ
  pub connection_dial_attempts : ℕ
  pub failed_connection_dial_attempts : ℕ

-- The clocks at a moment, and the maximum age of the profile's registers.
pub record Moment : Type 0 where
  pub monotonic : ℕ
  pub utc : ℕ
  pub profile_age : Option ℕ

-- _max_optional
unfoldable pub max_optional : Option ℕ → Option ℕ → Option ℕ
max_optional none second = second
max_optional (some a) none = some a
max_optional (some a) (some b) = some (max a b)

abbrev pub append_event : List RecoveryEvent → RecoveryEvent → List RecoveryEvent
append_event events event =
    drop (length events + 1 - recovery_event_capacity) (events ++ event ∷ [])

-- _record_recovery, at a moment; `reconnect_succeeded` is False in all its calls here
unfoldable pub record_recovery :
    ActiveRecovery → RecoveryOutcome → Moment → HybridClient → HybridClient
record_recovery active outcome at self = record self {
  recovery_events = append_event self.recovery_events (record {
    recovery = record active {
      maximum_profile_age_seconds = max_optional active.maximum_profile_age_seconds at.profile_age;
    };
    ended_at = at.utc;
    reconnect_succeeded = false;
    outcome = outcome;
  });
  recovery_events_recorded = self.recovery_events_recorded + 1;
}

-- _abandon_recovery
unfoldable pub abandon_recovery : HybridClient → HybridClient
abandon_recovery self = record self {
  health = degraded;
  retry_budget_exhausted = self.retry_budget_exhausted + 1;
  acquisitions_abandoned = self.acquisitions_abandoned + 1;
}

-- _classify_recovery_failure; another error is raised again
unfoldable pub classify_recovery_failure : Exception → Outcome RecoveryFailureKind
classify_recovery_failure read_timeout = ok request_timeout
classify_recovery_failure connection_lost = ok connection_was_lost
classify_recovery_failure connect_failed = ok connection_establishment
classify_recovery_failure ambiguous_request = ok request_ambiguous
classify_recovery_failure session_closed = ok session_was_closed
classify_recovery_failure e = raised e

-- _count_recovery_failure
unfoldable pub count_recovery_failure : RecoveryFailureKind → HybridClient → HybridClient
count_recovery_failure request_timeout self = record self { timeout_count = self.timeout_count + 1 }
count_recovery_failure connection_was_lost self = record self {
  connection_loss_count = self.connection_loss_count + 1;
}
count_recovery_failure connection_establishment self = record self {
  connection_establishment_failure_count = self.connection_establishment_failure_count + 1;
}
count_recovery_failure request_ambiguous self = record self {
  ambiguous_request_count = self.ambiguous_request_count + 1;
}
count_recovery_failure session_was_closed self = self

-- while self._reconnect_attempt_times and self._reconnect_attempt_times[0] < cutoff: popleft
unfoldable pub expire : (cutoff : ℕ) → List ℕ → List ℕ
expire cutoff [] = []
expire cutoff (time ∷ times) =
    let rest = expire cutoff times in if ltb time cutoff then rest else time ∷ times
