-- ===== src/Client/Fetch/Window.antt =====
-- async_get_data on every outcome of its attempts: success, exhausted attempts with the cache
-- window, and exceptions that it does not catch.
use luxpower_ha_integration.Base.{
  ℕ, zero, suc, ◌+◌, ◌≡◌, refl, ap, sym, subst, ◌∙◌, inl, inr, Bool, false, not, ◌&&◌, [], arith,
  ltb, if◌then◌else◌, is_empty, Bool-cases, Outcome, Exception, ok, raised, communication_error,
}
use luxpower_ha_integration.Client.{Cache, Client, Config, World, async_connect, empty_cache}
use luxpower_ha_integration.Stream.{Script}
use luxpower_ha_integration.Client.Cycle.{should_poll_hold}
use luxpower_ha_integration.Client.Pass.{Pass}
use luxpower_ha_integration.Client.Poll.{poll_connection, poll_connected, end_pass, async_poll_once}
use luxpower_ha_integration.Client.Poll.Coherent.{Coherent, Polled, async_poll_once-Polled}
use luxpower_ha_integration.Client.Fetch.{
  Data, snapshot, is_retried, handle_poll_failure, succeed, after_attempt, attempts, async_get_data,
}

-- The data that exhausted attempts report, from the cache and the number of failures before.
abbrev pub window : Cache → (failures : ℕ) → Outcome Data
window cache failures =
    if not (is_empty cache.last_good_input_regs)
      && not (is_empty cache.last_good_hold_regs)
      && ltb failures 2
    then ok (snapshot cache)
    else raised communication_error

-- The possible ends of async_get_data.
pub data Fetched (self : Client) : Client → Outcome Data → Type 0 where
  -- An attempt has succeeded: the data are the cache's.
  fresh :
      (self' : Client)
      → Coherent self'.cache
      → self'.connection_failure_count ≡ 0
      → Fetched self self' (ok (snapshot self'.cache))
  -- All attempts have failed: the cache is what it was.
  exhausted :
      (self' : Client)
      → self'.cache ≡ self.cache
      → self'.connection_failure_count ≡ self.connection_failure_count + 1
      → Fetched self self' (window self.cache self.connection_failure_count)
  -- An exception that the attempts do not catch: the cache is what it was.
  escaped :
      (self' : Client) (e : Exception)
      → is_retried e ≡ false
      → self'.cache ≡ self.cache
      → self'.connection_failure_count ≡ self.connection_failure_count
      → Fetched self self' (raised e)

-- A poll leaves the count of failures to async_get_data.
end_pass-count :
    (self : Client) (r : Pass × Outcome (Unit {0}))
    → (end_pass self r).0.0.connection_failure_count ≡ self.connection_failure_count
end_pass-count self (pass, raised e) = refl
end_pass-count self (pass, ok _) = refl

poll_connected-count :
    (config : Config) (poll_hold : Bool) (self : Client) (connected : World × Outcome Script)
    → (poll_connected config poll_hold self connected).0.0.connection_failure_count
      ≡ self.connection_failure_count
poll_connected-count config poll_hold self (world, raised e) = refl
poll_connected-count config poll_hold self (world, ok stream) = end_pass-count self (
    poll_connection config poll_hold (record {
      line = record { packet_recovery = self.packet_recovery; stream = stream; sent = [] };
      world = world;
      cadence = self.cadence;
      newly = empty_cache;
    }))

async_poll_once-count :
    (config : Config) (self : Client) (world : World)
    → (async_poll_once config (self, world)).0.0.connection_failure_count
      ≡ self.connection_failure_count
unfolding async_poll_once
async_poll_once-count config self world =
    let asked = should_poll_hold self.cadence in
    poll_connected-count config asked.1 (record self { cadence = asked.0 }) (async_connect world)

handle_poll_failure-window :
    (self : Client) → (handle_poll_failure self).1 ≡ window self.cache self.connection_failure_count
unfolding handle_poll_failure
handle_poll_failure-window self = ground arith

handle_poll_failure-cache : (self : Client) → (handle_poll_failure self).0.cache ≡ self.cache
unfolding handle_poll_failure
handle_poll_failure-cache self = refl

handle_poll_failure-count :
    (self : Client)
    → (handle_poll_failure self).0.connection_failure_count ≡ self.connection_failure_count + 1
unfolding handle_poll_failure
handle_poll_failure-count self = refl

-- A result for a client, and what it has to do with the client before.
abbrev Ends : Client → (Client × World) × Outcome Data → Type 0
Ends before ((self, world), outcome) = Fetched before self outcome

handle_poll_failure-Fetched :
    (before self : Client)
    → self.cache ≡ before.cache
    → self.connection_failure_count ≡ before.connection_failure_count
    → Fetched before (handle_poll_failure self).0 (handle_poll_failure self).1
handle_poll_failure-Fetched before self same count =
    subst (Fetched before (handle_poll_failure self).0)
      (sym (
        handle_poll_failure-window self
        ∙ ap (λ c. window c self.connection_failure_count) same
        ∙ ap (window before.cache) count))
      (exhausted (handle_poll_failure self).0 (handle_poll_failure-cache self ∙ same)
        (handle_poll_failure-count self ∙ ap (λ n. n + 1) count))

succeed-Fetched :
    (before : Client) (attempt : ℕ) (self : Client) (world : World)
    → Coherent self.cache
    → Ends before (succeed attempt (self, world))
unfolding succeed
succeed-Fetched before attempt self world h = fresh (succeed attempt (self, world)).0.0 h refl

-- One attempt in front of the ends of the later ones.
after_attempt-Ends :
    (before : Client) (rest : Client × World → (Client × World) × Outcome Data) (attempt : ℕ)
    (r : (Client × World) × Outcome (Unit {0}))
    → Polled before.cache r
    → r.0.0.connection_failure_count ≡ before.connection_failure_count
    → ((self : Client) (world : World)
        → self.cache ≡ before.cache
        → self.connection_failure_count ≡ before.connection_failure_count
        → Ends before (rest (self, world)))
    → Ends before (after_attempt rest attempt r)
after_attempt-Ends before rest attempt ((self, world), ok _) h count later =
    succeed-Fetched before attempt self world h
after_attempt-Ends before rest attempt ((self, world), raised e) h count later =
    elim (Bool-cases (is_retried e)) [
      | inl t ↦
          subst (λ b. Ends before (if b then rest (self, world) else ((self, world), raised e)))
            (sym t) (later self world h count)
      | inr f ↦
          subst (λ b. Ends before (if b then rest (self, world) else ((self, world), raised e)))
            (sym f) (escaped self e f h count)
    ]

attempts-Ends :
    (config : Config) (before : Client) (left attempt : ℕ) (self : Client) (world : World)
    → Coherent before.cache
    → self.cache ≡ before.cache
    → self.connection_failure_count ≡ before.connection_failure_count
    → Ends before (attempts config left attempt (self, world))
unfolding attempts
attempts-Ends config before zero attempt self world coherent same count =
    handle_poll_failure-Fetched before self same count
attempts-Ends config before (suc left) attempt self world coherent same count =
    let polled = async_poll_once-Polled config self world (subst Coherent (sym same) coherent) in
    after_attempt-Ends before (attempts config left (attempt + 1)) attempt
      (async_poll_once config (self, world))
      (subst (λ c. Polled c (async_poll_once config (self, world))) same polled)
      (async_poll_once-count config self world ∙ count)
      λ self' world' same' count'.
        attempts-Ends config before left (attempt + 1) self' world' coherent same' count'

-- With a coherent cache, fetching data has one of three ends. An attempt has succeeded: the cache
-- is coherent, the count of failures is 0, and the data are the cache's. Or all attempts have failed:
-- the cache is unchanged, the count is one more, and the data are the cache's if input and holding
-- registers are cached and less than two fetches had failed before, otherwise a communication error is raised. Or an
-- exception that is no timeout and no OSError escapes: cache and count are unchanged.
pub async_get_data-Fetched :
    (config : Config) (self : Client) (world : World)
    → Coherent self.cache
    → (self' : Client) × (world' : World) × (outcome : Outcome Data) × (async_get_data config
          (self, world)
        ≡ ((self', world'), outcome))
      × Fetched self self' outcome
unfolding async_get_data
async_get_data-Fetched config self world h =
    let r = attempts config config.connection_retries 0 (self, world) in
    (
      r.0.0,
      r.0.1,
      r.1,
      refl,
      attempts-Ends config self config.connection_retries 0 self world h refl refl,
    )
