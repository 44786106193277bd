-- ===== src/Client/Cycle/Schedule.antt =====
-- Which of the next polls read the settings, and which the battery block.
use luxpower_ha_integration.Base.{
  ℕ, zero, suc, ◌+◌, ◌%◌, ◌≤◌, ◌<◌, ◌≡◌, refl, ap, ◌∙◌, Bool, true, false, some, List, [], ◌∷◌,
  arith, leb, ◌==◌, if◌then◌else◌, get_elem?,
}
use luxpower_ha_integration.Client.{Cadence, Config}
use luxpower_ha_integration.Client.Cycle.{
  should_poll_hold, should_poll_battery, record_battery_result,
}

-- Which of the next `n` polls read the settings.
abbrev pub hold_polls_of : (n : ℕ) → Cadence → List Bool
hold_polls_of zero self = []
hold_polls_of (suc n) self =
    let (self', poll_hold) = should_poll_hold self in poll_hold ∷ hold_polls_of n self'

-- Which of the next `n` polls read the battery block, when none of the reads gives data.
abbrev pub battery_polls_of : (n : ℕ) → Config → Cadence → List Bool
battery_polls_of zero config self = []
battery_polls_of (suc n) config self =
    let (self', polls) = should_poll_battery config self in
    polls ∷ battery_polls_of n config (if polls then record_battery_result false self' else self')

hold-step :
    (self : Cadence)
    → self.polls_since_hold ≤ 4
    → self.force_hold_poll ≡ false
    → ((should_poll_hold self).1 ≡ leb 4 self.polls_since_hold)
      × ((should_poll_hold self).0.polls_since_hold
          ≡ (if leb 4 self.polls_since_hold then 0 else self.polls_since_hold + 1))
      × ((should_poll_hold self).0.force_hold_poll ≡ false)
unfolding should_poll_hold
hold-step self small off = (ground arith, ground arith, ground arith)

-- Unless a re-read is asked for, a client that has polled `s` times since the settings were read,
-- with `s` at most 4, reads them in exactly the polls that are the fifth, the tenth and so on
-- since then: the poll with the index `k` from now on reads them if 5 divides `s + k + 1`.
pub hold_polls_of-fifth :
    (n k : ℕ) (self : Cadence)
    → k < n
    → self.polls_since_hold ≤ 4
    → self.force_hold_poll ≡ false
    → get_elem? (hold_polls_of n self) k ≡ some ((self.polls_since_hold + k + 1) % 5 == 0)
hold_polls_of-fifth zero k self small since off = absurd (omega arith)
hold_polls_of-fifth (suc n) zero self small since off =
    let (polls, next, kept) = hold-step self since off in ap some (polls ∙ ground arith)
hold_polls_of-fifth (suc n) (suc k) self small since off =
    let (polls, next, kept) = hold-step self since off in
    hold_polls_of-fifth n k (should_poll_hold self).0 (omega arith) (ground (arith, next)) kept
    ∙ ap some (ground (arith, next))

battery-step :
    (config : Config) (self : Cadence)
    → config.battery_serials_configured ≡ false
    → 5 ≤ self.battery_empty_polls
    → self.battery_backoff_counter ≤ 9
    → ((should_poll_battery config self).1 ≡ leb 9 self.battery_backoff_counter)
      × ((should_poll_battery config self).0.battery_backoff_counter
          ≡ (if leb 9 self.battery_backoff_counter then 0 else self.battery_backoff_counter + 1))
      × ((should_poll_battery config self).0.battery_empty_polls ≡ self.battery_empty_polls)
unfolding should_poll_battery
battery-step config self off empties small = (ground arith, ground arith, ground arith)

record-step :
    (polls : Bool) (self : Cadence)
    → ((if polls then record_battery_result false self else self).battery_backoff_counter
        ≡ self.battery_backoff_counter)
      × (self.battery_empty_polls
          ≤ (if polls then record_battery_result false self else self).battery_empty_polls)
unfolding record_battery_result
record-step true self = (refl, omega arith)
record-step false self = (refl, omega arith)

-- Without configured serials, and after five reads of the battery block without data, the block is
-- read in each tenth poll as long as no data comes: the poll with the index `k` from now on reads
-- it if 10 divides `b + k + 1`, where `b`, at most 9, counts the polls since the last read.
pub battery_polls_of-tenth :
    (n k : ℕ) (config : Config) (self : Cadence)
    → k < n
    → config.battery_serials_configured ≡ false
    → 5 ≤ self.battery_empty_polls
    → self.battery_backoff_counter ≤ 9
    → get_elem? (battery_polls_of n config self) k
      ≡ some ((self.battery_backoff_counter + k + 1) % 10 == 0)
battery_polls_of-tenth zero k config self small off empties since = absurd (omega arith)
battery_polls_of-tenth (suc n) zero config self small off empties since =
    let (polls, next, kept) = battery-step config self off empties since in
    ap some (polls ∙ ground arith)
battery_polls_of-tenth (suc n) (suc k) config self small off empties since =
    let (polls, next, kept) = battery-step config self off empties since in
    let asked = should_poll_battery config self in
    let (same, more) = record-step asked.1 asked.0 in
    battery_polls_of-tenth n k config
      (if asked.1 then record_battery_result false asked.0 else asked.0) (omega arith) off
      (omega (arith, kept, more)) (ground (arith, next, same))
    ∙ ap some (ground (arith, next, same))
