-- ===== src/Coordinator.antt =====
-- coordinator.py: LxpModbusDataUpdateCoordinator, which counts failed updates and adjusts its own
-- polling schedule. The client's call is a parameter: an update takes its outcome and the time.
-- A schedule is its number of seconds. Logging is left out.
pub mod Schedule
use luxpower_ha_integration.Base.{
  ℕ, ◌+◌, Bool, true, false, not, Option, none, some, List, [], ◌∷◌, ltb, ◌==◌, if◌then◌else◌,
  Outcome, Exception, ok, raised, is_cancellation,
}

-- The constants at the top of the file.
abbrev pub recovery_mode_threshold : ℕ
recovery_mode_threshold = 3

abbrev pub recovery_interval_initial : ℕ
recovery_interval_initial = 15

abbrev pub recovery_interval_medium : ℕ
recovery_interval_medium = 30

abbrev pub recovery_interval_high : ℕ
recovery_interval_high = 60

abbrev pub recovery_escalation_medium : ℕ
recovery_escalation_medium = 10

abbrev pub recovery_escalation_high : ℕ
recovery_escalation_high = 20

pub record Coordinator : Type 0 where
  pub failed_updates : ℕ
  pub last_success : Option ℕ
  pub is_recovering : Bool
  pub original_poll_interval : ℕ
  pub update_interval : ℕ

-- __init__
abbrev pub init : (poll_interval : ℕ) → Coordinator
init poll_interval = record {
  failed_updates = 0;
  last_success = none;
  is_recovering = false;
  original_poll_interval = poll_interval;
  update_interval = poll_interval;
}

-- recovery_interval, as _register_failure chooses it
abbrev pub recovery_interval : ℕ → ℕ
recovery_interval failed_updates =
    let initial = recovery_interval_initial in
    let medium : ℕ =
      if ltb recovery_escalation_medium failed_updates then recovery_interval_medium else initial in
    if ltb recovery_escalation_high failed_updates then recovery_interval_high else medium

unfoldable pub register_failure : Coordinator → Coordinator
register_failure self =
    let counted = record self { failed_updates = self.failed_updates + 1 } in
    if ltb counted.failed_updates recovery_mode_threshold
    then counted
    else let recovering : Coordinator =
        if not counted.is_recovering then record counted { is_recovering = true } else counted in
      let new_interval = recovery_interval counted.failed_updates in
      if not (recovering.update_interval == new_interval)
      then record recovering { update_interval = new_interval }
      else recovering

-- How an update ends: UpdateFailed stands for whichever exception the client raised, but for a
-- cancellation, which passes.
pub data UpdateResult {ℓ} (A : Type ℓ) : Type ℓ where
  updated : A → UpdateResult A
  update_failed was_cancelled : Exception → UpdateResult A

-- _async_update_data, with the outcome of `async_get_data` and the time behind it
unfoldable pub async_update_data {ℓ} :
    {A : Type ℓ} → Coordinator → Outcome A → (now : ℕ) → Coordinator × UpdateResult A
unfolding register_failure
async_update_data self (raised err) now =
    if is_cancellation err
    then (self, was_cancelled err)
    else (register_failure self, update_failed err)
async_update_data self (ok data_) now =
    let reset = record self { failed_updates = 0; last_success = some now } in
    (
      if reset.is_recovering
          then record reset {
            is_recovering = false;
            update_interval = reset.original_poll_interval;
          }
          else reset,
      updated data_,
    )

-- Updates one after another, the first of the list first.
unfoldable pub updates {ℓ} : {A : Type ℓ} → Coordinator → List (Outcome A × ℕ) → Coordinator
updates self [] = self
updates self ((outcome, now) ∷ later) = updates (async_update_data self outcome now).0 later
