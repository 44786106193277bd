-- ===== src/Client/Poll/Steps.antt =====
-- Each step of a pass keeps the newly polled values and their times together.
use luxpower_ha_integration.Base.{
  ℕ, ◌+◌, inl, inr, Bool, true, false, List, [], ◌∷◌, if◌then◌else◌, Outcome, ok, raised,
  timeout_error,
}
use luxpower_ha_integration.Base.Dict.{nat_eq}
use luxpower_ha_integration.Base.Exec.{Exec, return, lift, proceed, for_each, ◌>>=◌, ◌>>◌}
use luxpower_ha_integration.Packet.Bytes.{bytes_eq}
use luxpower_ha_integration.Batteries.{battery_info_start_register}
use luxpower_ha_integration.Client.{Config, total_registers}
use luxpower_ha_integration.Client.Pass.{
  Pass, range, poll_input_block, poll_hold_block, poll_battery_block,
}
use luxpower_ha_integration.Client.Poll.{
  skip_initial_data, wants_batteries, on_cadence, should_poll_battery_now, record_now,
  battery_reads, poll_batteries, poll_batteries_if, poll_settings, poll_groups, suppress_timeout,
  poll_connection,
}
use luxpower_ha_integration.Client.Poll.Kept.{
  Synced, Good, proceed-Good, poll_input_block-Good, poll_hold_block-Good, poll_battery_block-Good,
}

-- A step that keeps keys and times together.
abbrev Keeps : {A : Type 0} → Exec Pass A → Type 0
Keeps m = (s : Pass) → Synced s.newly → Good (m s)

lift-Good : {A : Type 0} (m : Outcome A) → Keeps (lift m)
lift-Good (ok a) s h = h
lift-Good (raised e) s h = inl h

for_each-Good :
    (ns : List ℕ) (body : ℕ → Exec Pass (Unit {0}))
    → ((n : ℕ) → Keeps (body n))
    → Keeps (for_each ns body)
unfolding for_each
for_each-Good [] body keeps s h = h
for_each-Good (n ∷ ns) body keeps s h =
    proceed-Good (λ _. for_each ns body) (body n s) (keeps n s h)
      λ _ s' h'. for_each-Good ns body keeps s' h'

-- A range of blocks, and what follows them.
blocks-Good :
    (start stop step : ℕ) (body : ℕ → Exec Pass (Unit {0})) (next : Exec Pass (Unit {0}))
    → ((n : ℕ) → Keeps (body n))
    → Keeps next
    → Keeps (lift (range start stop step) >>= λ regs. for_each regs body >> next)
blocks-Good start stop step body next keeps next_keeps s h =
    proceed-Good (λ regs. for_each regs body >> next) (s, range start stop step)
      (lift-Good (range start stop step) s h)
      λ regs s' h'.
        proceed-Good (λ _. next) (for_each regs body s') (for_each-Good regs body keeps s' h')
          λ _ s'' h''. next_keeps s'' h''

battery_reads-Good : (config : Config) (polls : Bool) → Keeps (battery_reads config polls)
unfolding record_now
battery_reads-Good config true =
    blocks-Good battery_info_start_register (battery_info_start_register + 120) config.block_size
      (poll_battery_block config) record_now (poll_battery_block-Good config) (λ s h. h)
battery_reads-Good config false = λ s h. h

poll_batteries-Good : (config : Config) → Keeps (poll_batteries config)
unfolding poll_batteries should_poll_battery_now
poll_batteries-Good config s h =
    proceed-Good (battery_reads config) (should_poll_battery_now config s) h
      (battery_reads-Good config)

poll_batteries_if-Good : (config : Config) → Keeps (poll_batteries_if config)
unfolding poll_batteries_if
poll_batteries_if-Good config s h =
    elim (wants_batteries config s.newly.last_good_input_regs)
      as (λ b. Good ((if b then poll_batteries config else return tt) s)) [
        | true ↦ poll_batteries-Good config s h
        | false ↦ h
      ]

poll_settings-Good : (config : Config) (poll_hold : Bool) → Keeps (poll_settings config poll_hold)
unfolding poll_settings
poll_settings-Good config true s h =
    blocks-Good 0 total_registers config.block_size (poll_hold_block config)
      (on_cadence (λ c. record c { hold_polls = c.hold_polls + 1 })) (poll_hold_block-Good config)
      (λ s h. h) s h
poll_settings-Good config false s h = h

poll_groups-Good : (config : Config) (poll_hold : Bool) → Keeps (poll_groups config poll_hold)
unfolding poll_groups
poll_groups-Good config poll_hold =
    blocks-Good 0 total_registers config.block_size (poll_input_block config)
      (poll_batteries_if config >> poll_settings config poll_hold) (poll_input_block-Good config)
      λ s h.
        proceed-Good (λ _. poll_settings config poll_hold) (poll_batteries_if config s)
          (poll_batteries_if-Good config s h) λ _ s' h'. poll_settings-Good config poll_hold s' h'

-- What a pass has when it is merged.
abbrev pub Merged : Pass × Outcome (Unit {0}) → Type 0
Merged (s, ok _) = Synced s.newly
Merged (s, raised e) = Unit {0}

suppress_timeout-Merged : (r : Pass × Outcome (Unit {0})) → Good r → Merged (suppress_timeout r)
suppress_timeout-Merged (s, ok _) h = h
suppress_timeout-Merged (s, raised timeout_error) (inl h) = h
suppress_timeout-Merged (s, raised timeout_error) (inr h) = cc
suppress_timeout-Merged (s, raised _) h = tt

skip-Merged :
    (f : Pass → Pass × Outcome (Unit {0})) (r : Pass × Outcome (Unit {0}))
    → Synced r.0.newly
    → ((s : Pass) → Synced s.newly → Merged (f s))
    → Merged (proceed (λ _. f) r)
skip-Merged f (s, ok _) h next = next s h
skip-Merged f (s, raised e) h next = tt

pub poll_connection-Merged :
    (config : Config) (poll_hold : Bool) (s : Pass)
    → Synced s.newly
    → Merged (poll_connection config poll_hold s)
unfolding poll_connection skip_initial_data
poll_connection-Merged config poll_hold s h =
    skip-Merged (λ self. suppress_timeout (poll_groups config poll_hold self))
      (skip_initial_data config s) h
      λ s' h'.
        suppress_timeout-Merged (poll_groups config poll_hold s')
          (poll_groups-Good config poll_hold s' h')
