-- ===== src/Client/Cycle.antt =====
-- classes/modbus_client.py: which polls read the settings and the battery block.
pub mod Schedule
use luxpower_ha_integration.Base.{ℕ, ◌+◌, Bool, true, false, ltb, leb, if◌then◌else◌}
use luxpower_ha_integration.Client.{
  Cadence, Config, hold_register_poll_every, battery_empty_polls_before_backoff,
  battery_backoff_poll_every,
}

-- request_hold_refresh
unfoldable pub request_hold_refresh : Cadence → Cadence
request_hold_refresh self = record self { force_hold_poll = true }

-- _should_poll_hold
unfoldable pub should_poll_hold : Cadence → Cadence × Bool
should_poll_hold self =
    let counted = record self { poll_count = self.poll_count + 1 } in
    if counted.force_hold_poll
    then (record counted { force_hold_poll = false; polls_since_hold = 0 }, true)
    else let waited = record counted { polls_since_hold = counted.polls_since_hold + 1 } in
      if leb hold_register_poll_every waited.polls_since_hold
      then (record waited { polls_since_hold = 0 }, true)
      else (waited, false)

-- _should_poll_battery
unfoldable pub should_poll_battery : Config → Cadence → Cadence × Bool
should_poll_battery config self =
    if config.battery_serials_configured
    then (self, true)
    else if ltb self.battery_empty_polls battery_empty_polls_before_backoff
    then (self, true)
    else let counted = record self { battery_backoff_counter = self.battery_backoff_counter + 1 } in
      if leb battery_backoff_poll_every counted.battery_backoff_counter
      then (record counted { battery_backoff_counter = 0 }, true)
      else (counted, false)

-- _record_battery_result
unfoldable pub record_battery_result : (got_data : Bool) → Cadence → Cadence
record_battery_result true self = record self {
  battery_empty_polls = 0;
  battery_backoff_counter = 0;
}
record_battery_result false self = record self {
  battery_empty_polls = self.battery_empty_polls + 1;
}
