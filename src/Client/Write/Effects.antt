-- ===== src/Client/Write/Effects.antt =====
-- What a write does to the cache and to the connections that are left.
use luxpower_ha_integration.Base.{
  ℕ, ◌*◌, ◌/◌, ◌≡◌, refl, true, false, List, [], ◌∷◌, arith, ◌==◌, if◌then◌else◌, Outcome, ok,
  raised, timeout_error, value_error,
}
use luxpower_ha_integration.Base.Dict.{Dict, nat_eq, contains-put, contains-remove, contains-update}
use luxpower_ha_integration.Base.Exec.{proceed}
use luxpower_ha_integration.Packet.Bytes.{Bytes}
use luxpower_ha_integration.Packet.Response.{LxpResponse, parse}
use luxpower_ha_integration.Stream.{Script}
use luxpower_ha_integration.Validator.{hold}
use luxpower_ha_integration.Client.{Cache, Client, Config, World, require_aware_utc}
use luxpower_ha_integration.Client.Request.{async_request_registers}
use luxpower_ha_integration.Client.Pass.{register_block, stamp}
use luxpower_ha_integration.Client.Poll.Kept.{contains-stamp}
use luxpower_ha_integration.Client.Poll.Coherent.{Coherent, hold-Coherent}
use luxpower_ha_integration.Client.Fetch.{is_retried}
use luxpower_ha_integration.Client.Write.{
  Verdict, confirmed, failed, rejected, judge, accept_value, on_verdict, evaluate_write_response,
  Writing, refresh_later, store_block, stamp_block, after_reread, async_reread_hold_block, exchange,
  evaluate, reread_if_confirmed, after_exchange, on_line, write_connected,
}

accept_value-Coherent :
    (register value : ℕ) (c : Cache) → Coherent c → Coherent (accept_value register value c)
accept_value-Coherent register value c h = record {
  input_ = h.input_;
  hold_ = λ j.
      let before = h.hold_ j in
      ground (
        arith,
        contains-remove register j c.hold_observed_at,
        contains-put register j value c.last_good_hold_regs,
      );
  battery_ = h.battery_;
}

evaluate_write_response-Coherent :
    (buf : Bytes) (register value : ℕ) (c : Cache)
    → Coherent c
    → Coherent (evaluate_write_response buf register value c).0
unfolding evaluate_write_response
evaluate_write_response-Coherent [] register value c h = h
evaluate_write_response-Coherent (b ∷ bs) register value c h = judged (parse (b ∷ bs))
  where
    verdict_kept : (v : Verdict) → Coherent (on_verdict register value v c)
    verdict_kept confirmed = accept_value-Coherent register value c h
    verdict_kept failed = h
    verdict_kept rejected = h

    judged :
        (o : Outcome LxpResponse)
        → Coherent
            (elim o as (λ _. Cache × Outcome Verdict) [
              | raised e ↦ (c, raised e)
              | ok response ↦ (
                on_verdict register value (judge response register value) c,
                ok (judge response register value),
              )
            ]).0
    judged (raised e) = h
    judged (ok response) = verdict_kept (judge response register value)

-- The cache is coherent, and the connections to come are the given ones.
record Kept (connections : List (Outcome Script)) (self : Writing) : Type 0 where
  pub coherent : Coherent self.client.cache
  pub connections_are : self.world.connections ≡ connections

stamp_block-Kept :
    (cs : List (Outcome Script)) (d : Dict ℕ ℕ) (self : Writing) (o : Outcome ℕ)
    → Kept cs self
    → Kept cs (stamp_block d (store_block d self) o).0
stamp_block-Kept cs d self (raised e) k = record {
  coherent = record {
    input_ = k.coherent.input_;
    hold_ = λ j.
        let before = k.coherent.hold_ j in
        ground (arith, contains-update j self.client.cache.last_good_hold_regs d);
    battery_ = k.coherent.battery_;
  };
  connections_are = k.connections_are;
}
stamp_block-Kept cs d self (ok t) k = record {
  coherent = record {
    input_ = k.coherent.input_;
    hold_ = λ j.
        hold-Coherent j self.client.cache.last_good_hold_regs self.client.cache.hold_observed_at d
          (stamp t d) (k.coherent.hold_ j) (contains-stamp j t d);
    battery_ = k.coherent.battery_;
  };
  connections_are = k.connections_are;
}

after_reread-Kept :
    (cs : List (Outcome Script)) (self : Writing) (o : Outcome (Dict ℕ ℕ))
    → Kept cs self
    → Kept cs (after_reread self o).0
unfolding after_reread
after_reread-Kept cs self (raised e) k =
    elim (is_retried e)
      as (λ b.
        let left : Writing × Outcome (Unit {0}) =
          if b then (refresh_later self, ok tt) else (self, raised e) in
        Kept cs left.0) [
          | true ↦ record { coherent = k.coherent; connections_are = k.connections_are }
          | false ↦ k
        ]
after_reread-Kept cs self (ok []) k = record {
  coherent = k.coherent;
  connections_are = k.connections_are;
}
after_reread-Kept cs self (ok (entry ∷ entries)) k =
    stamp_block-Kept cs (entry ∷ entries) self
      (require_aware_utc (self.world.clock self.world.ticks)) k

async_reread_hold_block-Kept :
    (cs : List (Outcome Script)) (config : Config) (register : ℕ) (self : Writing)
    → Kept cs self
    → Kept cs (async_reread_hold_block config register self).0
unfolding async_reread_hold_block
async_reread_hold_block-Kept cs config register self k =
    let asked =
      async_request_registers config (register / config.block_size * config.block_size) hold 3
        self.line in
    let read_ : Outcome (Dict ℕ ℕ) = elim asked.1 [
      | ok block ↦ ok (register_block block)
      | raised e ↦ raised e
    ] in
    let self' : Writing = record self { line = asked.0 } in
    elim (config.block_size == 0)
      as (λ b. Kept cs (if b then (self, raised value_error) else after_reread self' read_).0) [
        | true ↦ k
        | false ↦
            after_reread-Kept cs self' read_
              (record { coherent = k.coherent; connections_are = k.connections_are })
      ]

reread_if_confirmed-Kept :
    (cs : List (Outcome Script)) (config : Config) (register : ℕ) (v : Verdict) (self : Writing)
    → Kept cs self
    → Kept cs (reread_if_confirmed config register v self).0
reread_if_confirmed-Kept cs config register confirmed self k =
    proceed-Kept (async_reread_hold_block config register self)
      (async_reread_hold_block-Kept cs config register self k)
  where
    proceed-Kept :
        (r : Writing × Outcome (Unit {0}))
        → Kept cs r.0
        → Kept cs (proceed (λ _ s. (s, ok confirmed)) r).0
    proceed-Kept (s, ok _) h = h
    proceed-Kept (s, raised e) h = h
reread_if_confirmed-Kept cs config register failed self k = k
reread_if_confirmed-Kept cs config register rejected self k = k

evaluate-Kept :
    (cs : List (Outcome Script)) (register value : ℕ) (buf : Bytes) (self : Writing)
    → Kept cs self
    → Kept cs (evaluate register value buf self).0
evaluate-Kept cs register value buf self k = record {
  coherent = evaluate_write_response-Coherent buf register value self.client.cache k.coherent;
  connections_are = k.connections_are;
}

judged-Kept :
    (cs : List (Outcome Script)) (config : Config) (register : ℕ) (r : Writing × Outcome Verdict)
    → Kept cs r.0
    → Kept cs (proceed (reread_if_confirmed config register) r).0
judged-Kept cs config register (s, ok v) h = reread_if_confirmed-Kept cs config register v s h
judged-Kept cs config register (s, raised e) h = h

after_exchange-Kept :
    (cs : List (Outcome Script)) (config : Config) (register value : ℕ)
    (r : Writing × Outcome Bytes)
    → Kept cs r.0
    → Kept cs (after_exchange config register value r).0
after_exchange-Kept cs config register value (s, raised timeout_error) h = h
after_exchange-Kept cs config register value (s, raised _) h = h
after_exchange-Kept cs config register value (s, ok buf) h =
    judged-Kept cs config register (evaluate register value buf s)
      (evaluate-Kept cs register value buf s h)

-- An attempt keeps the cache coherent, and opens no further connection.
pub write_connected-Kept :
    (config : Config) (register value : ℕ) (self : Client) (c : World × Outcome Script)
    → Coherent self.cache
    → Coherent (write_connected config register value self c).0.0.cache
      × ((write_connected config register value self c).0.1.connections ≡ c.0.connections)
write_connected-Kept config register value self (world, raised e) h = (h, refl)
write_connected-Kept config register value self (world, ok stream) h =
    let start : Writing = record {
      client = self;
      world = world;
      line = record { packet_recovery = self.packet_recovery; stream = stream; sent = [] };
    } in
    let kept =
      after_exchange-Kept world.connections config register value
        (on_line (exchange config register value) start)
        (record { coherent = h; connections_are = refl }) in
    (kept.coherent, kept.connections_are)
