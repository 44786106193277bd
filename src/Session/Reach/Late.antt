-- ===== src/Session/Reach/Late.antt =====
-- A reader loop whose connection generation has been retired changes nothing, for ever after.
use luxpower_ha_integration.Base.{
  is_cancellation, refl, ℕ, ◌+◌, ◌≤◌, ◌<◌, ◌≡◌, inl, inr, Bool, true, false, Option, none, some,
  arith, ◌==◌, if◌then◌else◌, Outcome, Exception, ok, raised, Bool-cases, Option-cases,
  Outcome-cases, connection_lost, session_closed,
}
use luxpower_ha_integration.Base.Dict.{nat_eq, lookup}
use luxpower_ha_integration.Packet.Bytes.{Bytes}
use luxpower_ha_integration.Session.{LuxReadObservation, Counters, LuxReadSession}
use luxpower_ha_integration.Session.Frame.{accept, answer, follow, route_frame}
use luxpower_ha_integration.Session.Classify.{Route, counts_193, rejects, refuses, accepts}
use luxpower_ha_integration.Session.Frame.Branches.{counted_frame, route_of, route_frame-keeps}
use luxpower_ha_integration.Session.Lifecycle.{
  fail_pending, async_close, reader_failed, retire_decoder,
}
use luxpower_ha_integration.Session.Connect.{
  Transport, connect_with, connected_session, async_connect, reconnect_end,
}
use luxpower_ha_integration.Session.Reader.{
  ReaderLoop, Arrival, chunk, elapsed, breaks, read_round, reader_round, test_loop, end_round,
  read_chunk, read_timed_out,
}
use luxpower_ha_integration.Session.Request.{
  request_packet, register_read, begin_read, ReadEnding, deadline, is_cancelled, io_fails,
  fails_otherwise, reply, count_timeout, await_future, future_of, release, abandon, reply_with,
  finish_read,
}
use luxpower_ha_integration.Session.Reach.{
  Step, connects, closes, reconnects, reads, begins, finishes, delivers,
}
use luxpower_ha_integration.Session.Reach.Rounds.{read_round-keeps}

-- Steps one after another.
pub data Later (self : LuxReadSession) : LuxReadSession → Type 0 where
  at_once : Later self self
  after : {mid next : LuxReadSession} → Later self mid → Step mid next → Later self next

generation-fail_pending :
    (error : Exception) (self : LuxReadSession)
    → (fail_pending error self).generation ≡ self.generation
unfolding fail_pending
generation-fail_pending error self = elim (Option-cases self.pending) [
  | inl e ↦ ground (arith, e)
  | inr (id, e) ↦ ground (arith, e)
]

generation-async_close :
    (self : LuxReadSession) → (async_close self).generation ≡ self.generation + 1
unfolding async_close retire_decoder
generation-async_close self = generation-fail_pending session_closed (record self {
  has_reader_task = false;
  has_writer = false;
  active_connection_generation = none;
  connection_lost = false;
  generation = self.generation + 1;
})

generation-abandon :
    (id : ℕ) (count : Counters → Counters) (self : LuxReadSession)
    → (abandon id count self).generation ≡ self.generation + 1
unfolding abandon release
generation-abandon id count self = refl

-- The generation is at least `g`.
abbrev AtLeast : ℕ → LuxReadSession → Type 0
AtLeast g self = g ≤ self.generation

module _ (g : ℕ) where
  reader_failed-AtLeast :
      (h : ℕ) (self : LuxReadSession) → AtLeast g self → AtLeast g (reader_failed h self)
  unfolding reader_failed retire_decoder
  reader_failed-AtLeast h self s =
      let lost : LuxReadSession = record self {
        has_writer = false;
        has_reader_task = false;
        active_connection_generation = none;
        generation = self.generation + 1;
        connection_lost = true;
        counters = record self.counters { connection_losses = self.counters.connection_losses + 1 };
      } in
      elim (Bool-cases (h == self.generation)) [
        | inr old ↦ ground (arith, old)
        | inl current ↦ ground (arith, current, generation-fail_pending connection_lost lost)
      ]

  follow-AtLeast :
      (clock : Outcome ℕ) (now : ℕ) (self : LuxReadSession) (route : Route)
      → AtLeast g self
      → AtLeast g (follow route clock now self).0
  unfolding follow accept answer
  follow-AtLeast clock now self counts_193 s = s
  follow-AtLeast clock now self (rejects id code) s = s
  follow-AtLeast clock now self (refuses reason) s = s
  follow-AtLeast (raised e) now self (accepts start values answered) s = s
  follow-AtLeast (ok at) now self (accepts start values none) s = s
  follow-AtLeast (ok at) now self (accepts start values (some p)) s = s

  route_frame-AtLeast :
      (frame : Bytes) (h : ℕ) (clock : Outcome ℕ) (now : ℕ) (self : LuxReadSession)
      → AtLeast g self
      → AtLeast g (route_frame frame h clock now self).0
  route_frame-AtLeast frame h clock now self s =
      route_frame-keeps (AtLeast g) clock now self frame h s s
        (λ response. follow-AtLeast clock now (counted_frame self) (route_of response self) s)

  finish_read-AtLeast :
      (id : ℕ) (ending : ReadEnding) (self : LuxReadSession)
      → AtLeast g self
      → AtLeast g (finish_read id ending self).0
  unfolding finish_read
  finish_read-AtLeast id (deadline true) self s =
      omega (arith, generation-abandon id (count_timeout true) self)
  finish_read-AtLeast id (deadline false) self s =
      omega (arith, generation-abandon id (count_timeout false) self)
  finish_read-AtLeast id is_cancelled self s = omega (arith, generation-abandon id (λ c. c) self)
  finish_read-AtLeast id io_fails self s =
      omega (arith, generation-abandon id (count_timeout false) self)
  finish_read-AtLeast id fails_otherwise self s = omega (arith, generation-abandon id (λ c. c) self)
  finish_read-AtLeast id reply self s = replied (await_future (future_of (lookup id self.requests)))
    where
      replied :
          (outcome : Option (Outcome LuxReadObservation)) → AtLeast g (reply_with outcome id self).0
      replied none = s
      replied (some (ok o)) = s
      replied (some (raised e)) =
          elim (is_cancellation e)
            as (λ b. AtLeast g (if b then abandon id (λ c. c) self else self)) [
              | true ↦ omega (arith, generation-abandon id (λ c. c) self)
              | false ↦ s
            ]

  async_connect-AtLeast :
      (connector : Outcome Transport) (self : LuxReadSession)
      → AtLeast g self
      → AtLeast g (async_connect connector self).0
  unfolding async_connect connect_with connected_session
  async_connect-AtLeast connector self s = ground arith

  reconnect_end-AtLeast :
      (h : ℕ) (connector : Outcome Transport) (self : LuxReadSession)
      → AtLeast g self
      → AtLeast g (reconnect_end h connector self).0
  unfolding reconnect_end
  reconnect_end-AtLeast h connector self s = elim (Bool-cases (self.generation == h)) [
    | inr old ↦ ground (arith, old)
    | inl current ↦ ground (arith, current, async_connect-AtLeast connector self s)
  ]

  begin_read-AtLeast :
      (start count : ℕ) (t d r : Option ℕ) (now : ℕ) (self : LuxReadSession)
      → AtLeast g self
      → AtLeast g (begin_read start count t d r now self).0
  unfolding begin_read register_read
  begin_read-AtLeast start count t d r now self s =
      elim (Outcome-cases (request_packet start count t d r self)) [
        | inr (e, f) ↦ ground (arith, f)
        | inl (packet, f) ↦ ground (arith, f)
      ]

  step-AtLeast : {self next : LuxReadSession} → Step self next → AtLeast g self → AtLeast g next
  step-AtLeast {self} (connects connector) s = async_connect-AtLeast connector self s
  step-AtLeast {self} closes s = omega (arith, generation-async_close self)
  step-AtLeast {self} (reconnects h connector) s = reconnect_end-AtLeast h connector self s
  step-AtLeast {self} (reads loop arrival now) s =
      read_round-keeps (AtLeast g) route_frame-AtLeast (λ decoder b i t self' s'. s')
        reader_failed-AtLeast loop arrival now self s
  step-AtLeast {self} (begins start count t d r now) s =
      begin_read-AtLeast start count t d r now self s
  step-AtLeast {self} (finishes id ending lock) s = finish_read-AtLeast id ending self s
  step-AtLeast (delivers subscriptions) s = s

  Later-AtLeast : {self next : LuxReadSession} → Later self next → AtLeast g self → AtLeast g next
  Later-AtLeast at_once s = s
  Later-AtLeast (after before step) s = step-AtLeast step (Later-AtLeast before s)

retired_round :
    (loop : ReaderLoop) (arrival : Arrival) (now : ℕ) (self : LuxReadSession)
    → loop.loop_generation < self.generation
    → read_round loop arrival now self ≡ self
unfolding read_round reader_round test_loop end_round read_chunk read_timed_out reader_failed
retired_round loop arrival now self h = elim arrival [
  | chunk bytes times ↦ ground arith
  | elapsed ↦ ground arith
  | breaks e ↦ ground arith
]

-- How a read ends other than by its future.
pub data GivenUp : ReadEnding → Type 0 where
  by_deadline : (drain_completed : Bool) → GivenUp (deadline drain_completed)
  by_cancellation : GivenUp is_cancelled
  by_io : GivenUp io_fails
  by_failure : GivenUp fails_otherwise

GivenUp-generation :
    (id : ℕ) {ending : ReadEnding} (self : LuxReadSession)
    → GivenUp ending
    → (finish_read id ending self).0.generation ≡ self.generation + 1
unfolding finish_read
GivenUp-generation id self (by_deadline true) = generation-abandon id (count_timeout true) self
GivenUp-generation id self (by_deadline false) = generation-abandon id (count_timeout false) self
GivenUp-generation id self by_cancellation = generation-abandon id (λ c. c) self
GivenUp-generation id self by_io = generation-abandon id (count_timeout false) self
GivenUp-generation id self by_failure = generation-abandon id (λ c. c) self

-- Once a read has been given up, by a deadline, a cancellation or a failure, and even before its
-- connection is closed, the reader loop of its connection, and of each connection before, changes
-- no session that comes about later, whatever its pending read brings: a late reply answers no later
-- read and is not recorded.
pub late_reply-inert :
    (id : ℕ) (ending : ReadEnding) (self : LuxReadSession) {next : LuxReadSession}
    (loop : ReaderLoop) (arrival : Arrival) (now : ℕ)
    → GivenUp ending
    → loop.loop_generation ≤ self.generation
    → Later (finish_read id ending self).0 next
    → read_round loop arrival now next ≡ next
late_reply-inert id ending self {next} loop arrival now given_up old later =
    let retired = GivenUp-generation id self given_up in
    retired_round loop arrival now next
      (omega (arith, Later-AtLeast (self.generation + 1) later (omega arith)))
