-- ===== src/Client/Poll/Coherent.antt =====
-- A poll keeps the cache and its times together, and a poll that raises keeps the cache.
use luxpower_ha_integration.Base.{
  ℕ, ◌≡◌, refl, Bool, true, false, ◌||◌, [], arith, if◌then◌else◌, is_empty, Outcome, ok, raised,
}
use luxpower_ha_integration.Base.Dict.{Dict, nat_eq, contains, update, contains-update}
use luxpower_ha_integration.Packet.Bytes.{Bytes, bytes_eq}
use luxpower_ha_integration.Stream.{Script}
use luxpower_ha_integration.Client.{Cache, Client, Config, World, async_connect, empty_cache}
use luxpower_ha_integration.Client.Cycle.{should_poll_hold}
use luxpower_ha_integration.Client.Pass.{Pass}
use luxpower_ha_integration.Client.Poll.{
  merge_input, merge_batteries, merge_hold, poll_connection, poll_connected, end_pass,
  async_poll_once,
}
use luxpower_ha_integration.Client.Poll.Kept.{Synced, update-Synced}
use luxpower_ha_integration.Client.Poll.Steps.{Merged, poll_connection-Merged}

-- In the cache, each input register and each battery has times exactly if it is there, and each
-- holding register that has a time is there.
pub record Coherent (c : Cache) : Type 0 where
  pub input_ : (j : ℕ) → contains j c.input_observed_at ≡ contains j c.last_good_input_regs
  pub hold_ :
      (j : ℕ)
      → (contains j c.hold_observed_at || contains j c.last_good_hold_regs)
        ≡ contains j c.last_good_hold_regs
  pub battery_ :
      (j : Bytes) → contains j c.battery_observed_at ≡ contains j c.last_good_battery_data

pub hold-Coherent :
    (j : ℕ) (values times more more_times : Dict ℕ ℕ)
    → (contains j times || contains j values) ≡ contains j values
    → contains j more_times ≡ contains j more
    → (contains j (update times more_times) || contains j (update values more))
      ≡ contains j (update values more)
hold-Coherent j values times more more_times h same =
    ground (arith, contains-update j times more_times, contains-update j values more)

merge_input-Coherent :
    (old newly : Cache) → Coherent old → Synced newly → Coherent (merge_input old newly)
unfolding merge_input
merge_input-Coherent old newly h n =
    elim (is_empty newly.last_good_input_regs)
      as (λ b. Coherent (
        if b then old else record old {
          last_good_input_regs = update old.last_good_input_regs newly.last_good_input_regs;
          input_observed_at = update old.input_observed_at newly.input_observed_at;
        })) [
          | true ↦ h
          | false ↦ record {
            input_ = λ j.
                update-Synced j old.input_observed_at newly.input_observed_at
                  old.last_good_input_regs newly.last_good_input_regs (h.input_ j) (n.input_ j);
            hold_ = h.hold_;
            battery_ = h.battery_;
          }
        ]

merge_batteries-Coherent :
    (old newly : Cache) → Coherent old → Synced newly → Coherent (merge_batteries old newly)
unfolding merge_batteries
merge_batteries-Coherent old newly h n =
    elim (is_empty newly.last_good_battery_data)
      as (λ b. Coherent (
        if b then old else record old {
          last_good_battery_data = update old.last_good_battery_data newly.last_good_battery_data;
          battery_observed_at = update old.battery_observed_at newly.battery_observed_at;
        })) [
          | true ↦ h
          | false ↦ record {
            input_ = h.input_;
            hold_ = h.hold_;
            battery_ = λ j.
                update-Synced j old.battery_observed_at newly.battery_observed_at
                  old.last_good_battery_data newly.last_good_battery_data (h.battery_ j)
                  (n.battery_ j);
          }
        ]

merge_hold-Coherent :
    (old newly : Cache) → Coherent old → Synced newly → Coherent (merge_hold old newly)
unfolding merge_hold
merge_hold-Coherent old newly h n =
    elim (is_empty newly.last_good_hold_regs)
      as (λ b. Coherent (
        if b then old else record old {
          last_good_hold_regs = update old.last_good_hold_regs newly.last_good_hold_regs;
          hold_observed_at = update old.hold_observed_at newly.hold_observed_at;
        })) [
          | true ↦ h
          | false ↦ record {
            input_ = h.input_;
            hold_ = λ j.
                hold-Coherent j old.last_good_hold_regs old.hold_observed_at
                  newly.last_good_hold_regs newly.hold_observed_at (h.hold_ j) (n.hold_ j);
            battery_ = h.battery_;
          }
        ]

-- What a poll leaves of the cache.
abbrev pub Polled : Cache → (Client × World) × Outcome (Unit {0}) → Type 0
Polled old ((self, world), ok _) = Coherent self.cache
Polled old ((self, world), raised e) = self.cache ≡ old

end_pass-Polled :
    (self : Client) (r : Pass × Outcome (Unit {0}))
    → Coherent self.cache
    → Merged r
    → Polled self.cache (end_pass self r)
end_pass-Polled self (pass, raised e) h m = refl
end_pass-Polled self (pass, ok _) h m =
    merge_hold-Coherent (merge_batteries (merge_input self.cache pass.newly) pass.newly) pass.newly
      (merge_batteries-Coherent (merge_input self.cache pass.newly) pass.newly
        (merge_input-Coherent self.cache pass.newly h m) m)
      m

empty-Synced : Synced empty_cache
unfolding contains
empty-Synced = record { input_ = λ j. refl; hold_ = λ j. refl; battery_ = λ j. refl }

poll_connected-Polled :
    (config : Config) (poll_hold : Bool) (self : Client) (connected : World × Outcome Script)
    → Coherent self.cache
    → Polled self.cache (poll_connected config poll_hold self connected)
poll_connected-Polled config poll_hold self (world, raised e) h = refl
poll_connected-Polled config poll_hold self (world, ok stream) h =
    let start : Pass = record {
      line = record { packet_recovery = self.packet_recovery; stream = stream; sent = [] };
      world = world;
      cadence = self.cadence;
      newly = empty_cache;
    } in
    end_pass-Polled self (poll_connection config poll_hold start) h
      (poll_connection-Merged config poll_hold start empty-Synced)

-- A poll that raises leaves the cache as it was, and a poll that ends, after a timeout too, leaves a coherent cache if it
-- was coherent: each input register and each battery has times exactly if it is cached, and each
-- holding register with a time is cached.
pub async_poll_once-Polled :
    (config : Config) (self : Client) (world : World)
    → Coherent self.cache
    → Polled self.cache (async_poll_once config (self, world))
unfolding async_poll_once
async_poll_once-Polled config self world h =
    let asked = should_poll_hold self.cadence in
    poll_connected-Polled config asked.1 (record self { cadence = asked.0 }) (async_connect world) h
