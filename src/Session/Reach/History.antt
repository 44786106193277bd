-- ===== src/Session/Reach/History.antt =====
-- Every reachable session shows a history of blocks: only an accepted block changes the snapshot.
use luxpower_ha_integration.Base.{
  is_cancellation, ℕ, ◌+◌, ◌≡◌, refl, sym, subst, inl, inr, true, false, Option, none, some, [],
  arith, ◌==◌, if◌then◌else◌, Outcome, Exception, ok, raised, Bool-cases, Option-cases,
  Outcome-cases, connection_lost, session_closed,
}
use luxpower_ha_integration.Base.Dict.{nat_eq, lookup}
use luxpower_ha_integration.Packet.Bytes.{Bytes}
use luxpower_ha_integration.Session.{LuxReadObservation, Counters, Config, LuxReadSession}
use luxpower_ha_integration.Session.Frame.{route_frame}
use luxpower_ha_integration.Session.Frame.Branches.{route_of, route_frame-keeps}
use luxpower_ha_integration.Session.Lifecycle.{
  new_session, fail_pending, async_close, reader_failed, retire_decoder,
}
use luxpower_ha_integration.Session.Connect.{
  Transport, connect_with, connected_session, async_connect, reconnect_end,
}
use luxpower_ha_integration.Session.Request.{
  request_packet, register_read, begin_read, ReadEnding, deadline, is_cancelled, io_fails,
  fails_otherwise, reply, count_timeout, await_future, future_of, release, abandon, reply_with,
  finish_read,
}
use luxpower_ha_integration.Session.Reach.{
  Step, Reachable, connects, closes, reconnects, reads, begins, finishes, delivers, starts, steps,
}
use luxpower_ha_integration.Session.Reach.Rounds.{read_round-keeps}
use luxpower_ha_integration.Session.Reach.Snapshot.{HasHistory, follow-HasHistory}
use luxpower_ha_integration.Session.Reach.Shown.{Shows}

inputs-fail_pending :
    (error : Exception) (self : LuxReadSession) → (fail_pending error self).inputs ≡ self.inputs
unfolding fail_pending
inputs-fail_pending error self = elim (Option-cases self.pending) [
  | inl e ↦ ground (arith, e)
  | inr (id, e) ↦ ground (arith, e)
]

inputs-async_close : (self : LuxReadSession) → (async_close self).inputs ≡ self.inputs
unfolding async_close retire_decoder
inputs-async_close self = inputs-fail_pending session_closed (record self {
  has_reader_task = false;
  has_writer = false;
  active_connection_generation = none;
  connection_lost = false;
  generation = self.generation + 1;
})

inputs-reader_failed : (g : ℕ) (self : LuxReadSession) → (reader_failed g self).inputs ≡ self.inputs
unfolding reader_failed retire_decoder
inputs-reader_failed g self =
    let lost : LuxReadSession = record self {
      has_writer = false;
      has_reader_task = false;
      active_connection_generation = none;
      generation = self.generation + 1;
      connection_lost = true;
      counters = record self.counters { connection_losses = self.counters.connection_losses + 1 };
    } in
    elim (Bool-cases (g == self.generation)) [
      | inr old ↦ ground (arith, old)
      | inl current ↦ ground (arith, current, inputs-fail_pending connection_lost lost)
    ]

inputs-abandon :
    (id : ℕ) (count : Counters → Counters) (self : LuxReadSession)
    → (abandon id count self).inputs ≡ self.inputs
unfolding abandon release
inputs-abandon id count self = refl

inputs-reply_with :
    (outcome : Option (Outcome LuxReadObservation)) (id : ℕ) (self : LuxReadSession)
    → (reply_with outcome id self).0.inputs ≡ self.inputs
inputs-reply_with none id self = refl
inputs-reply_with (some (ok o)) id self = refl
inputs-reply_with (some (raised e)) id self =
    elim (is_cancellation e)
      as (λ b. (if b then abandon id (λ c. c) self else self).inputs ≡ self.inputs) [
        | true ↦ inputs-abandon id (λ c. c) self
        | false ↦ refl
      ]

inputs-finish_read :
    (id : ℕ) (ending : ReadEnding) (self : LuxReadSession)
    → (finish_read id ending self).0.inputs ≡ self.inputs
unfolding finish_read
inputs-finish_read id (deadline true) self = inputs-abandon id (count_timeout true) self
inputs-finish_read id (deadline false) self = inputs-abandon id (count_timeout false) self
inputs-finish_read id is_cancelled self = inputs-abandon id (λ c. c) self
inputs-finish_read id io_fails self = inputs-abandon id (count_timeout false) self
inputs-finish_read id fails_otherwise self = inputs-abandon id (λ c. c) self
inputs-finish_read id reply self =
    inputs-reply_with (await_future (future_of (lookup id self.requests))) id self

inputs-async_connect :
    (connector : Outcome Transport) (self : LuxReadSession)
    → (async_connect connector self).0.inputs ≡ self.inputs
unfolding async_connect connect_with connected_session
inputs-async_connect connector self = ground arith

inputs-reconnect_end :
    (g : ℕ) (connector : Outcome Transport) (self : LuxReadSession)
    → (reconnect_end g connector self).0.inputs ≡ self.inputs
unfolding reconnect_end
inputs-reconnect_end g connector self = elim (Bool-cases (self.generation == g)) [
  | inr old ↦ ground (arith, old)
  | inl current ↦ ground (arith, current, inputs-async_connect connector self)
]

inputs-begin_read :
    (start count : ℕ) (t d r : Option ℕ) (now : ℕ) (self : LuxReadSession)
    → (begin_read start count t d r now self).0.inputs ≡ self.inputs
unfolding begin_read register_read
inputs-begin_read start count t d r now self =
    elim (Outcome-cases (request_packet start count t d r self)) [
      | inr (e, f) ↦ ground (arith, f)
      | inl (packet, f) ↦ ground (arith, f)
    ]

same_inputs-HasHistory :
    (self next : LuxReadSession) → next.inputs ≡ self.inputs → HasHistory self → HasHistory next
same_inputs-HasHistory self next same (history, shows, blocks) =
    (history, subst (Shows history) (sym same) shows, blocks)

route_frame-HasHistory :
    (frame : Bytes) (g : ℕ) (clock : Outcome ℕ) (now : ℕ) (self : LuxReadSession)
    → HasHistory self
    → HasHistory (route_frame frame g clock now self).0
route_frame-HasHistory frame g clock now self s =
    route_frame-keeps HasHistory clock now self frame g s s
      (λ response. follow-HasHistory response clock now self s (route_of response self) refl)

step-HasHistory : {self next : LuxReadSession} → Step self next → HasHistory self → HasHistory next
step-HasHistory {self} (connects connector) s =
    same_inputs-HasHistory self (async_connect connector self).0
      (inputs-async_connect connector self) s
step-HasHistory {self} closes s =
    same_inputs-HasHistory self (async_close self) (inputs-async_close self) s
step-HasHistory {self} (reconnects g connector) s =
    same_inputs-HasHistory self (reconnect_end g connector self).0
      (inputs-reconnect_end g connector self) s
step-HasHistory {self} (reads loop arrival now) s =
    read_round-keeps HasHistory route_frame-HasHistory (λ decoder b i t self' s'. s')
      (λ g self' s'.
        same_inputs-HasHistory self' (reader_failed g self') (inputs-reader_failed g self') s')
      loop arrival now self s
step-HasHistory {self} (begins start count t d r now) s =
    same_inputs-HasHistory self (begin_read start count t d r now self).0
      (inputs-begin_read start count t d r now self) s
step-HasHistory {self} (finishes id ending lock) s =
    same_inputs-HasHistory self (finish_read id ending self).0 (inputs-finish_read id ending self) s
step-HasHistory (delivers subscriptions) s = s

new_session-HasHistory : (config : Config) → HasHistory (new_session config)
unfolding lookup
new_session-HasHistory config = (
  [],
  record {
    values_of = λ r. refl;
    times_of = λ r. refl;
    sources_of = λ r. refl;
    sequences_of = λ r. refl;
    ranges_of = λ r. refl;
    explicit_times_of = λ r. refl;
    unsolicited_times_of = λ r. refl;
    blocks_of = λ block. refl;
    numbered = refl;
  },
  tt,
)

-- Every session that comes about shows some history of blocks, each of consecutive registers within
-- the 750 and numbered from 1 on in the order of the history: for each register, the value, the
-- time, the source, the sequence number and the range are all those of the latest block that covers
-- it, and none if no block does; its explicit and its unsolicited time are those of the latest such
-- block of the kind; and the values kept for a block are those of its latest observation.
pub Reachable-HasHistory :
    (config : Config) {self : LuxReadSession} → Reachable config self → HasHistory self
Reachable-HasHistory config starts = new_session-HasHistory config
Reachable-HasHistory config (steps before step) =
    step-HasHistory step (Reachable-HasHistory config before)
