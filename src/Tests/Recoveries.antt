-- ===== src/Tests/Recoveries.antt =====
-- The recovery of the transport: three failures within a window, and the theorems at them.
use luxpower_ha_integration.Base.{
  length, ℕ, zero, suc, ◌+◌, ◌-◌, ◌≤◌, ◌≡◌, refl, false, none, arith, List, [], ◌∷◌, ok, raised,
  os_error,
}
use luxpower_ha_integration.Session.Lifecycle.{new_session}
use luxpower_ha_integration.Session.Connect.{async_connect, connect_with, connected_session}
use luxpower_ha_integration.Recovery.{
  RecoveryPolicy, check_policy, HybridClient, healthy, Moment, request_timeout, expire,
  max_optional, record_recovery, abandon_recovery,
}
use luxpower_ha_integration.Recovery.Reconnect.{
  Trial, elapses, Course, shutdown_during, after_cooldown, after_failure, after_dial, dial,
  dial_from, after_dials, reconnect, spend_budget, recover_transport,
}
use luxpower_ha_integration.Recovery.Dials.{recover_transport-Dialled}
use luxpower_ha_integration.Recovery.Budget.{
  Failure, dialled_at, count_from, InOrder, dialled_at-budget,
}
use luxpower_ha_integration.Tests.Sessions.{session_config, transport}

-- The defaults of RecoveryPolicy.
abbrev default_policy : RecoveryPolicy
default_policy = record {
  max_reconnects_per_acquisition = 1;
  max_reconnects_per_window = 2;
  max_connection_attempts_per_reconnect = 3;
  rolling_window_seconds = 300;
  initial_cooldown_seconds = 1;
  repeated_cooldown_seconds = 5;
}

abbrev new_client : HybridClient
new_client = record {
  session = new_session session_config;
  shutdown = false;
  health = healthy;
  reconnect_attempt_times = [];
  recovery_events = [];
  recovery_events_recorded = 0;
  active_recovery = none;
  timeout_count = 0;
  connection_loss_count = 0;
  connection_establishment_failure_count = 0;
  ambiguous_request_count = 0;
  reconnect_attempts = 0;
  successful_reconnects = 0;
  failed_reconnects = 0;
  retry_budget_exhausted = 0;
  acquisitions_abandoned = 0;
  connection_dial_attempts = 0;
  failed_connection_dial_attempts = 0;
}

abbrev moment : ℕ → Moment
moment time = record { monotonic = time; utc = time; profile_age = none }

-- The first dial is refused, the second is answered.
abbrev second_trial : ℕ → Trial
second_trial zero = record {
  connector = raised os_error;
  shuts_down = false;
  dialled = moment 0;
  cooldown_ends = elapses;
  cooled = moment 0;
}
second_trial (suc attempt) = record {
  connector = ok transport;
  shuts_down = false;
  dialled = moment 0;
  cooldown_ends = elapses;
  cooled = moment 0;
}

abbrev course_at : ℕ → Course
course_at time = record {
  failed_at = moment time;
  cooldown_ends = elapses;
  cooled = moment time;
  trials = second_trial;
  established = moment (time + 1);
}

abbrev failure_at : ℕ → Failure
failure_at time = record {
  kind = request_timeout;
  block = record { start = 0; count = 40 };
  episode_started_at = time;
  course = course_at time;
}

abbrev failures : List Failure
failures = failure_at 100 ∷ failure_at 110 ∷ failure_at 120 ∷ failure_at 405 ∷ []

default_policy-checked : check_policy default_policy ≡ ok default_policy
unfolding check_policy
default_policy-checked = refl

failures-InOrder : InOrder 0 failures 405
unfolding InOrder
failures-InOrder = (omega arith, (omega arith, (omega arith, (omega arith, omega arith))))

-- The third recovery is refused; the fourth comes when the first has left the window.
dialled_at-failures : dialled_at default_policy failures new_client ≡ 100 ∷ 110 ∷ 405 ∷ []
unfolding dialled_at expire max_optional shutdown_during after_cooldown record_recovery
    abandon_recovery after_failure after_dial dial dial_from after_dials reconnect spend_budget
    recover_transport async_connect connect_with connected_session
dialled_at-failures = refl

dialled_at-budget_example :
    count_from (405 - 300) (dialled_at default_policy failures new_client) ≤ 2
dialled_at-budget_example =
    dialled_at-budget default_policy failures new_client 405 default_policy-checked refl
      failures-InOrder

abbrev once : HybridClient
once =
    (recover_transport default_policy request_timeout (failure_at 100).block 100 (course_at 100)
      new_client).0

recover_transport-Dialled_example :
    (once.connection_dial_attempts ≤ 0 + 3)
    × (once.connection_dial_attempts ≤ 0 + 5)
    × (2 ≤ length (expire (100 - 300) []) → once.connection_dial_attempts ≡ 0)
recover_transport-Dialled_example =
    recover_transport-Dialled default_policy request_timeout (failure_at 100).block 100
      (course_at 100) new_client default_policy-checked
