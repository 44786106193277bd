-- ===== src/Client/Poll/Refresh.antt =====
-- What becomes of a request for the settings when the connection of the poll fails.
use luxpower_ha_integration.Base.{
  ℕ, ◌<◌, ◌≡◌, refl, ap, ◌∙◌, Bool, true, false, some, arith, get_elem?, Outcome, Exception, ok,
  raised,
}
use luxpower_ha_integration.Stream.{Script}
use luxpower_ha_integration.Client.{Cadence, Client, Config, World, async_connect}
use luxpower_ha_integration.Client.Cycle.{should_poll_hold}
use luxpower_ha_integration.Client.Cycle.Schedule.{hold_polls_of, hold_polls_of-fifth}
use luxpower_ha_integration.Client.Poll.{poll_connected, async_poll_once}

refused :
    (config : Config) (poll_hold : Bool) (self : Client) (connected : World × Outcome Script)
    (e : Exception)
    → connected.1 ≡ raised e
    → ((poll_connected config poll_hold self connected).0.0 ≡ self)
      × ((poll_connected config poll_hold self connected).1 ≡ raised e)
refused config poll_hold self (world, raised e') e h = (refl, cc)
refused config poll_hold self (world, ok stream) e h = cc

forced :
    (self : Cadence)
    → self.force_hold_poll ≡ true
    → ((should_poll_hold self).0.polls_since_hold ≡ 0)
      × ((should_poll_hold self).0.force_hold_poll ≡ false)
unfolding should_poll_hold
forced self h = (ground arith, ground arith)

-- When the settings are to be read by the next poll and the connection of that poll fails, the poll
-- raises, and none of the four polls after it reads the settings.
pub async_poll_once-drops_refresh :
    (config : Config) (self : Client) (world : World) (e : Exception) (k : ℕ)
    → self.cadence.force_hold_poll ≡ true
    → (async_connect world).1 ≡ raised e
    → k < 4
    → ((async_poll_once config (self, world)).1 ≡ raised e)
      × (get_elem? (hold_polls_of 4 (async_poll_once config (self, world)).0.0.cadence) k
          ≡ some false)
unfolding async_poll_once
async_poll_once-drops_refresh config self world e k wanted fails' small =
    let asked = should_poll_hold self.cadence in
    let (kept, outcome) =
      refused config asked.1 (record self { cadence = asked.0 }) (async_connect world) e fails' in
    let (since, off) = forced self.cadence wanted in
    (
      outcome,
      ap (λ (c : Client). get_elem? (hold_polls_of 4 c.cadence) k) kept
          ∙ hold_polls_of-fifth 4 k asked.0 small (omega (arith, since)) off
          ∙ ap some (ground (arith, since)),
    )
