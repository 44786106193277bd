-- ===== src/Session/Reach/Counts.antt =====
-- The counters of every reachable session add up.
use luxpower_ha_integration.Base.{
  is_cancellation, ℕ, ◌+◌, ◌-◌, ◌*◌, ◌≤◌, ◌≡◌, refl, sym, subst, inl, inr, true, false, Option,
  none, some, List, [], ◌∷◌, ◌++◌, min, arith, ◌==◌, if◌then◌else◌, length, length-append,
  length-drop, Outcome, Exception, ok, raised, Bool-cases, Option-cases, Outcome-cases,
  connection_lost, session_closed,
}
use luxpower_ha_integration.Packet.Bytes.{Bytes}
use luxpower_ha_integration.Packet.Response.{LxpResponse}
use luxpower_ha_integration.Decoder.{LuxFrameDecoder}
use luxpower_ha_integration.Base.Dict.{nat_eq, lookup}
use luxpower_ha_integration.Session.{
  LuxReadObservation, Counters, Config, LuxReadSession, pending_at,
}
use luxpower_ha_integration.Session.Frame.{
  request_latency_history, append_bounded, observe, record_inputs, answer, accept, follow,
  route_frame,
}
use luxpower_ha_integration.Session.Classify.{Route, counts_193, rejects, refuses, accepts}
use luxpower_ha_integration.Session.Frame.Branches.{
  answered_by-IsAnswer, pending_at-pending, rejects-pending, accepts-answer, counted_frame,
  route_of, route_frame-keeps,
}
use luxpower_ha_integration.Session.Lifecycle.{
  new_session, fail_pending, async_close, reader_failed, retire_decoder,
}
use luxpower_ha_integration.Session.Connect.{
  Transport, connect_with, connected_session, async_connect, reconnect_end,
}
use luxpower_ha_integration.Session.Request.{
  request_packet, register_read, begin_read, ReadEnding, deadline, is_cancelled, io_fails,
  fails_otherwise, reply, count_timeout, await_future, future_of, release, abandon, reply_with,
  finish_read,
}
use luxpower_ha_integration.Session.Reach.{
  Step, Reachable, connects, closes, reconnects, reads, begins, finishes, delivers, starts, steps,
}
use luxpower_ha_integration.Session.Reach.Rounds.{reread, read_round-keeps}

abbrev pub pending_count : Option ℕ → ℕ
pending_count none = 0
pending_count (some id) = 1

pub record CountsSound (self : LuxReadSession) : Type 0 where
  pub answered_or_not :
      self.counters.validated_fc4_frames
      ≡ self.counters.expected_fc4_responses + self.counters.unmatched_fc4_observations
  pub sequenced : self.inputs.observation_sequence ≡ self.counters.validated_fc4_frames
  pub each_frame_once :
      self.counters.validated_fc4_frames + self.counters.function_193_frames
        + self.counters.modbus_rejections
      ≤ self.counters.frames_received
  pub each_request_once :
      self.counters.expected_fc4_responses
        + self.counters.modbus_rejections
        + pending_count self.pending
      ≤ self.counters.explicit_requests
  pub repeated : self.counters.duplicate_fc4_frames ≤ self.counters.validated_fc4_frames
  pub timed : self.counters.request_latency_samples_total ≡ self.counters.expected_fc4_responses
  pub history :
      length self.counters.request_latencies_ms
      ≡ min self.counters.request_latency_samples_total request_latency_history
  pub dialled :
      self.counters.connections + self.counters.connection_failures
      ≤ self.counters.connection_attempts

new_session-Counts : (config : Config) → CountsSound (new_session config)
new_session-Counts config = ground arith

-- A bounded append keeps as many samples as the history has room for.
length-append_bounded :
    (xs : List ℕ) (x total : ℕ)
    → length xs ≡ min total request_latency_history
    → length (append_bounded request_latency_history xs x) ≡ min (total + 1) request_latency_history
length-append_bounded xs x total h = omega (
  arith,
  length-append xs (x ∷ []),
  length-drop (length xs + 1 - request_latency_history) (xs ++ x ∷ []),
)

reread-Counts :
    (decoder : LuxFrameDecoder) (b i t : ℕ) (self : LuxReadSession)
    → CountsSound self
    → CountsSound (reread decoder b i t self)
reread-Counts decoder b i t self s = ground arith

fail_pending-Counts :
    (error : Exception) (self : LuxReadSession)
    → CountsSound self
    → CountsSound (fail_pending error self)
unfolding fail_pending
fail_pending-Counts error self s = elim (Option-cases self.pending) [
  | inl e ↦ ground (arith, e)
  | inr (id, e) ↦ ground (arith, e)
]

retire_decoder-Counts :
    (self : LuxReadSession) → CountsSound self → CountsSound (retire_decoder self)
unfolding retire_decoder
retire_decoder-Counts self s = ground arith

async_close-Counts : (self : LuxReadSession) → CountsSound self → CountsSound (async_close self)
unfolding async_close
async_close-Counts self s =
    let dropped : LuxReadSession = record self {
      has_reader_task = false;
      has_writer = false;
      active_connection_generation = none;
      connection_lost = false;
      generation = self.generation + 1;
    } in
    retire_decoder-Counts (fail_pending session_closed dropped)
      (fail_pending-Counts session_closed dropped (ground arith))

reader_failed-Counts :
    (g : ℕ) (self : LuxReadSession) → CountsSound self → CountsSound (reader_failed g self)
unfolding reader_failed
reader_failed-Counts g self s = elim (Bool-cases (g == self.generation)) [
  | inr old ↦ subst CountsSound {x = self} {y = reader_failed g self} (ground (arith, old)) s
  | inl current ↦
      let lost : LuxReadSession = record self {
        has_writer = false;
        has_reader_task = false;
        active_connection_generation = none;
        generation = self.generation + 1;
        connection_lost = true;
        counters = record self.counters { connection_losses = self.counters.connection_losses + 1 };
      } in
      subst CountsSound {x = retire_decoder (fail_pending connection_lost lost)}
        {y = reader_failed g self} (ground (arith, current))
        (retire_decoder-Counts (fail_pending connection_lost lost)
          (fail_pending-Counts connection_lost lost (ground arith)))
]

release-Counts : (id : ℕ) (self : LuxReadSession) → CountsSound self → CountsSound (release id self)
unfolding release
release-Counts id self s = elim (Option-cases self.pending) [
  | inl e ↦ ground (arith, e)
  | inr (other, e) ↦ elim (Bool-cases (other == id)) [
    | inl same ↦ ground (arith, e, same)
    | inr not_it ↦ ground (arith, e, not_it)
  ]
]

abandon-Counts :
    (id : ℕ) (count : Counters → Counters) (self : LuxReadSession)
    → ((r : LuxReadSession)
        → CountsSound r
        → CountsSound (record r { counters = count r.counters }))
    → CountsSound self
    → CountsSound (abandon id count self)
unfolding abandon
abandon-Counts id count self harmless s =
    let released = release id self in
    let counted = harmless released (release-Counts id self s) in ground (arith, counted)

finish_read-Counts :
    (id : ℕ) (ending : ReadEnding) (self : LuxReadSession)
    → CountsSound self
    → CountsSound (finish_read id ending self).0
unfolding finish_read
finish_read-Counts id (deadline true) self s =
    abandon-Counts id (count_timeout true) self (λ r t. ground arith) s
finish_read-Counts id (deadline false) self s =
    abandon-Counts id (count_timeout false) self (λ r t. ground arith) s
finish_read-Counts id is_cancelled self s = abandon-Counts id (λ c. c) self (λ r t. ground arith) s
finish_read-Counts id io_fails self s =
    abandon-Counts id (count_timeout false) self (λ r t. ground arith) s
finish_read-Counts id fails_otherwise self s =
    abandon-Counts id (λ c. c) self (λ r t. ground arith) s
finish_read-Counts id reply self s =
    reply_with-Counts (await_future (future_of (lookup id self.requests)))
  where
    reply_with-Counts :
        (outcome : Option (Outcome LuxReadObservation)) → CountsSound (reply_with outcome id self).0
    reply_with-Counts none = s
    reply_with-Counts (some (ok o)) = s
    reply_with-Counts (some (raised e)) =
        elim (is_cancellation e)
          as (λ b. CountsSound (if b then abandon id (λ c. c) self else self)) [
            | true ↦ abandon-Counts id (λ c. c) self (λ r t. t) s
            | false ↦ s
          ]

async_connect-Counts :
    (connector : Outcome Transport) (self : LuxReadSession)
    → CountsSound self
    → CountsSound (async_connect connector self).0
unfolding async_connect connect_with connected_session
async_connect-Counts connector self s = ground arith

reconnect_end-Counts :
    (g : ℕ) (connector : Outcome Transport) (self : LuxReadSession)
    → CountsSound self
    → CountsSound (reconnect_end g connector self).0
unfolding reconnect_end
reconnect_end-Counts g connector self s = elim (Bool-cases (self.generation == g)) [
  | inr old ↦
      subst CountsSound {x = self} {y = (reconnect_end g connector self).0} (ground (arith, old)) s
  | inl current ↦
      subst CountsSound {x = (async_connect connector self).0}
        {y = (reconnect_end g connector self).0} (ground (arith, current))
        (async_connect-Counts connector self s)
]

begin_read-Counts :
    (start count : ℕ) (t d r : Option ℕ) (now : ℕ) (self : LuxReadSession)
    → CountsSound self
    → CountsSound (begin_read start count t d r now self).0
unfolding begin_read register_read
begin_read-Counts start count t d r now self s =
    elim (Outcome-cases (request_packet start count t d r self)) [
      | inr (e, f) ↦ ground (arith, f)
      | inl (packet, f) ↦ ground (arith, f)
    ]

follow-Counts :
    (response : LxpResponse) (clock : Outcome ℕ) (now : ℕ) (self : LuxReadSession)
    → CountsSound self
    → (route : Route) → route_of response self ≡ route
    → CountsSound (follow route clock now (counted_frame self)).0
unfolding follow accept answer record_inputs observe
follow-Counts response clock now self s counts_193 h = ground arith
follow-Counts response clock now self s (refuses reason) h = ground arith
follow-Counts response clock now self s (rejects id code) h =
    let (p, e) = rejects-pending self.config (pending_at self.generation self) response id code h in
    let (is_pending, found, of_generation) = pending_at-pending self.generation self id p e in
    ground (arith, is_pending)
follow-Counts response (raised e) now self s (accepts start values answered) h = ground arith
follow-Counts response (ok at) now self s (accepts start values none) h = ground arith
follow-Counts response (ok at) now self s (accepts start values (some (id, p))) h =
    let (same_values, at_start, acceptable, answer_is) =
      accepts-answer self.config (pending_at self.generation self) response start values
        (some (id, p)) h in
    let a =
      answered_by-IsAnswer start values (pending_at self.generation self) id p (sym answer_is) in
    let (is_pending, found, of_generation) =
      pending_at-pending self.generation self id p a.is_pending in
    ground (
      arith,
      is_pending,
      length-append_bounded self.counters.request_latencies_ms ((now - p.sent_monotonic) * 1000)
          self.counters.request_latency_samples_total s.history,
    )

route_frame-Counts :
    (frame : Bytes) (g : ℕ) (clock : Outcome ℕ) (now : ℕ) (self : LuxReadSession)
    → CountsSound self
    → CountsSound (route_frame frame g clock now self).0
route_frame-Counts frame g clock now self s =
    route_frame-keeps CountsSound clock now self frame g s (ground arith)
      (λ response. follow-Counts response clock now self s (route_of response self) refl)

step-Counts : {self next : LuxReadSession} → Step self next → CountsSound self → CountsSound next
step-Counts {self} (connects connector) s = async_connect-Counts connector self s
step-Counts {self} closes s = async_close-Counts self s
step-Counts {self} (reconnects g connector) s = reconnect_end-Counts g connector self s
step-Counts {self} (reads loop arrival now) s =
    read_round-keeps CountsSound route_frame-Counts reread-Counts reader_failed-Counts loop arrival
      now self s
step-Counts {self} (begins start count t d r now) s = begin_read-Counts start count t d r now self s
step-Counts {self} (finishes id ending lock) s = finish_read-Counts id ending self s
step-Counts (delivers subscriptions) s = ground arith

-- In every session that comes about, each validated block is counted as an expected response or as
-- an unmatched observation, the latest sequence number is the number of validated blocks, no more
-- blocks are counted as duplicates, and each frame is counted at most once as a block, a message of
-- function 193 or a rejection; the expected responses, the rejections and the pending read are no
-- more than the requests; each expected response has been counted as a latency sample, and the
-- history has as many samples as were counted, up to 4096; and the connections and the failures to
-- connect are no more than the attempts.
pub Reachable-Counts :
    (config : Config) {self : LuxReadSession} → Reachable config self → CountsSound self
Reachable-Counts config starts = new_session-Counts config
Reachable-Counts config (steps before step) = step-Counts step (Reachable-Counts config before)
