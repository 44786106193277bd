-- ===== src/Session/Reader.antt =====
-- classes/read_session.py: _reader_loop, the only reader of a connection, round by round. What a
-- read brings is an event of the caller's choice; the loop's own variable is its deadline.
use luxpower_ha_integration.Base.{
  ℕ, ◌+◌, ◌-◌, Bool, false, not, Option, none, some, List, [], ◌∷◌, min, leb, ◌==◌, if◌then◌else◌,
  is_empty, length, Outcome, Exception, ok, raised, connection_error, is_cancellation,
}
use luxpower_ha_integration.Base.Exec.{Exec, proceed}
use luxpower_ha_integration.Packet.Bytes.{Bytes}
use luxpower_ha_integration.Decoder.{LuxFrameDecoder, feed, discard_partial}
use luxpower_ha_integration.Session.{Counters, LuxReadSession}
use luxpower_ha_integration.Session.Frame.{count_invalid, route_frame}
use luxpower_ha_integration.Session.Lifecycle.{reader_failed, read_timeout_seconds}

pub record ReaderLoop : Type 0 where
  pub loop_generation : ℕ
  pub receive_deadline : Option ℕ

abbrev pub deadline_after : Option ℕ → (now : ℕ) → Option ℕ
deadline_after none now = none
deadline_after (some timeout) now = some (now + timeout)

-- The loop's variables when the reader task starts.
abbrev pub start_loop : (generation now : ℕ) → LuxReadSession → ReaderLoop
start_loop generation now self = record {
  loop_generation = generation;
  receive_deadline = deadline_after self.config.receive_inactivity_timeout now;
}

abbrev pub has_partial : LuxReadSession → Bool
has_partial self = not (is_empty self.decoder.buffer)

-- The timeout of a round's read: none is `await reader.read(n)` without one.
unfoldable pub read_timeout : (partial_frame : Bool) → (deadline : Option ℕ) → (now : ℕ) → Option ℕ
read_timeout partial_frame none now = if partial_frame then some read_timeout_seconds else none
read_timeout partial_frame (some deadline) now =
    let remaining = deadline - now in
    if partial_frame then some (min read_timeout_seconds remaining) else some remaining

-- What a read brings. Each frame of a chunk that is accepted asks the clock, and the i-th frame's
-- outcome of the clock and monotonic time are `times i`.
pub data Arrival : Type 0 where
  chunk : Bytes → (times : ℕ → Outcome ℕ × ℕ) → Arrival
  elapsed : Arrival
  breaks : Exception → Arrival

-- How a round ends.
pub data RoundEnd : Type 0 where
  goes_on : ReaderLoop → RoundEnd
  returns : RoundEnd
  raises : Exception → RoundEnd

-- for frame in frames: self._route_frame(frame, generation)
unfoldable pub route_frames :
    List Bytes
    → (generation : ℕ) → (index : ℕ) → (ℕ → Outcome ℕ × ℕ)
    → Exec LuxReadSession (Unit {0})
route_frames [] generation index times self = (self, ok tt)
route_frames (frame ∷ frames) generation index times self =
    proceed (λ t. route_frames frames generation (index + 1) times)
      (route_frame frame generation (times index).0 (times index).1 self)

abbrev pub count_bytes : ℕ → Counters → Counters
count_bytes n counters = record counters { bytes_received = counters.bytes_received + n }

abbrev pub count_malformed : (before after : ℕ) → Counters → Counters
count_malformed before after counters = record counters {
  invalid_frames = counters.invalid_frames + (after - before);
}

-- The frames that the decoder gives for a chunk.
unfoldable pub route_fed :
    LuxFrameDecoder × List Bytes
    → (generation : ℕ) → (ℕ → Outcome ℕ × ℕ)
    → Exec LuxReadSession (Unit {0})
route_fed (decoder, frames) generation times self =
    let before = self.decoder.malformed_lengths in
    route_frames frames generation 0 times (record self {
      decoder = decoder;
      counters = count_malformed before decoder.malformed_lengths self.counters;
    })

unfoldable pub receive_chunk :
    Bytes → (generation : ℕ) → (ℕ → Outcome ℕ × ℕ) → Exec LuxReadSession (Unit {0})
receive_chunk bytes generation times self =
    let counted = record self { counters = count_bytes (length bytes) self.counters } in
    proceed (λ fed. route_fed fed generation times) (counted, feed counted.decoder bytes)

abbrev pub round_end : ReaderLoop → LuxReadSession × Outcome (Unit {0}) → LuxReadSession × RoundEnd
round_end loop (self, ok t) = (self, goes_on loop)
round_end loop (self, raised e) = (self, raises e)

abbrev pub is_past : Option ℕ → (now : ℕ) → Bool
is_past none now = false
is_past (some deadline) now = leb deadline now

-- A partial frame is given up.
unfoldable pub give_up_partial : LuxReadSession → LuxReadSession
give_up_partial self =
    let (decoder, gave_up) = discard_partial self.decoder in
    record self {
      decoder = decoder;
      counters = if gave_up then count_invalid self.counters else self.counters;
    }

-- `except asyncio.TimeoutError` of the read
unfoldable pub read_timed_out : ReaderLoop → (now : ℕ) → LuxReadSession → LuxReadSession × RoundEnd
read_timed_out loop now self =
    if not (loop.loop_generation == self.generation)
    then (self, returns)
    else if is_past loop.receive_deadline now
    then (
      record self {
        counters = record self.counters {
          receive_inactivity_timeouts = self.counters.receive_inactivity_timeouts + 1;
        };
      },
      raises connection_error,
    )
    else (give_up_partial self, goes_on loop)

-- Behind the read: a chunk of an old generation is dropped.
unfoldable pub read_chunk :
    ReaderLoop
    → Bytes
    → (ℕ → Outcome ℕ × ℕ)
    → (now : ℕ) → LuxReadSession
    → LuxReadSession × RoundEnd
read_chunk loop bytes times now self =
    if not (loop.loop_generation == self.generation)
    then (self, returns)
    else if is_empty bytes
    then (self, raises connection_error)
    else round_end
        (record loop {
          receive_deadline = deadline_after self.config.receive_inactivity_timeout now;
        })
        (receive_chunk bytes loop.loop_generation times self)

abbrev pub arrive : ReaderLoop → Arrival → (now : ℕ) → LuxReadSession → LuxReadSession × RoundEnd
arrive loop (chunk bytes times) now self = read_chunk loop bytes times now self
arrive loop elapsed now self = read_timed_out loop now self
arrive loop (breaks e) now self = (self, raises e)

-- while generation == self._generation
unfoldable pub test_loop : LuxReadSession × RoundEnd → LuxReadSession × RoundEnd
test_loop (self, goes_on loop) =
    (self, if loop.loop_generation == self.generation then goes_on loop else returns)
test_loop (self, ending) = (self, ending)

-- From what the read brings, at the time `now`, to the loop's test, behind which it reads again:
-- between the test and the next arrival, the session may have changed.
unfoldable pub reader_round :
    ReaderLoop → Arrival → (now : ℕ) → LuxReadSession → LuxReadSession × RoundEnd
reader_round loop arrival now self = test_loop (arrive loop arrival now self)

-- `finally`: an error fails the session, if the generation is still the loop's; a cancellation is
-- not kept as an error.
unfoldable pub end_round : ReaderLoop → LuxReadSession × RoundEnd → LuxReadSession
end_round loop (self, raises e) =
    if is_cancellation e then self else reader_failed loop.loop_generation self
end_round loop (self, _) = self

-- A round, with what the loop's end does behind it.
unfoldable pub read_round : ReaderLoop → Arrival → (now : ℕ) → LuxReadSession → LuxReadSession
read_round loop arrival now self = end_round loop (reader_round loop arrival now self)
