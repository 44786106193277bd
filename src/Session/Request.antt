-- ===== src/Session/Request.antt =====
-- classes/read_session.py: async_read_input, up to its first wait and from each of its endings on.
-- `_request_lock` lets one read at a time be between the two. What the read waits for (the writer's
-- drain, the reply, a deadline, a cancellation) ends it as the caller chooses.
pub mod ReadOnly
pub mod OnlyReads
use luxpower_ha_integration.Base.{
  ℕ, ◌+◌, Bool, true, false, not, ◌&&◌, ◌||◌, Option, none, some, ltb, leb, ◌==◌, if◌then◌else◌,
  length, slice, Outcome, Exception, ok, raised, ◌>>=◌, ◌>>◌, value_error, runtime_error,
  communication_error, connection_lost, session_closed, read_timeout, ambiguous_request,
  cancelled_error, is_cancellation,
}
use luxpower_ha_integration.Base.Exec.{Exec, proceed}
use luxpower_ha_integration.Base.Dict.{nat_eq, lookup, put}
use luxpower_ha_integration.Packet.Bytes.{Bytes, bytes_beq, from_bytes}
use luxpower_ha_integration.Packet.Crc.{compute_crc}
use luxpower_ha_integration.Packet.Builder.{
  prefix, protocol, data_length, translated_data, action_write, prepare_packet_for_read,
}
use luxpower_ha_integration.Packet.Response.{index}
use luxpower_ha_integration.Session.{
  LuxReadObservation, Counters, Future, waiting, cancelled, result, failed, PendingRead, Config,
  LuxReadSession, is_connected, settle,
}
use luxpower_ha_integration.Session.Classify.{read_input_function_code, register_limit}
use luxpower_ha_integration.Session.Lifecycle.{
  is_given, is_given_zero, or_default, taint, async_close,
}

-- MAX_READ_REGISTERS
abbrev pub max_read_registers : ℕ
max_read_registers = 125

-- _validate_read_range, of numbers that are not negative
unfoldable pub validate_read_range : (start count : ℕ) → Outcome (Unit {0})
validate_read_range start count =
    if not (ltb start register_limit)
    then raised value_error
    else if not (leb 1 count && leb count max_read_registers)
    then raised value_error
    else if ltb register_limit (start + count)
    then raised value_error
    else ok tt

-- `checks` of _assert_read_only_packet
unfoldable pub packet_checks : Config → (packet : Bytes) → (start count : ℕ) → Outcome Bool
packet_checks config packet start count = do
  one ← index packet 6
  tcp ← index packet 7
  action ← index packet 20
  function ← index packet 21
  ok (
      (length packet == 38)
      && (bytes_beq (slice 0 2 packet) prefix
          && ((from_bytes (slice 2 4 packet) == protocol)
              && ((from_bytes (slice 4 6 packet) + 6 == length packet)
                  && ((one == 1)
                      && ((tcp == translated_data)
                          && (bytes_beq (slice 8 18 packet) config.dongle_serial
                              && ((from_bytes (slice 18 20 packet) == data_length)
                                  && ((action == action_write)
                                      && ((function == read_input_function_code)
                                          && (bytes_beq (slice 22 32 packet) config.inverter_serial
                                              && ((from_bytes (slice 32 34 packet) == start)
                                                  && ((from_bytes (slice 34 36 packet) == count)
                                                      && (from_bytes (slice 36 38 packet)
                                                          == compute_crc
                                                            (slice 20 36 packet)))))))))))))))

-- _assert_read_only_packet
unfoldable pub assert_read_only_packet :
    Config → (packet : Bytes) → (start count : ℕ) → Outcome (Unit {0})
assert_read_only_packet config packet start count =
    packet_checks config packet start count >>= λ all_hold.
    if all_hold then ok tt else raised communication_error

-- The checks of the timeouts.
unfoldable pub check_timeouts :
    (timeout drain_timeout reply_timeout : Option ℕ) → Outcome (Unit {0})
check_timeouts timeout drain_timeout reply_timeout =
    if is_given timeout && (is_given drain_timeout || is_given reply_timeout)
    then raised value_error
    else if is_given_zero timeout || (is_given_zero drain_timeout || is_given_zero reply_timeout)
    then raised value_error
    else ok tt

-- effective_drain_timeout, effective_reply_timeout and split_deadlines
pub record Deadlines : Type 0 where
  pub drain : ℕ
  pub reply : ℕ
  pub split : Bool

unfoldable pub deadlines : Config → (timeout drain_timeout reply_timeout : Option ℕ) → Deadlines
deadlines config (some timeout) drain_timeout reply_timeout = record {
  drain = timeout;
  reply = timeout;
  split = false;
}
deadlines config none drain_timeout reply_timeout = record {
  drain = or_default drain_timeout config.drain_timeout;
  reply = or_default reply_timeout config.reply_timeout;
  split = config.split_request_deadlines || (is_given drain_timeout || is_given reply_timeout);
}

-- The packet of a read, built and checked.
unfoldable pub read_packet : Config → (start count : ℕ) → Outcome Bytes
read_packet config start count = do
  packet ←
      prepare_packet_for_read config.dongle_serial config.inverter_serial start count
        read_input_function_code
  assert_read_only_packet config packet start count
  ok packet

abbrev pub count_request : Counters → Counters
count_request counters = record counters { explicit_requests = counters.explicit_requests + 1 }

-- The read is registered as the pending one; its packet is to be written.
unfoldable pub register_read : (start count now : ℕ) → Bytes → Exec LuxReadSession (ℕ × Bytes)
register_read start count now packet self =
    let id = self.next_request in
    (
      record self {
        pending = some id;
        requests =
            put id
              (record {
                start = start;
                count = count;
                generation = self.generation;
                sent_monotonic = now;
                future = waiting;
              })
              self.requests;
        next_request = id + 1;
        requests_on_generation = self.requests_on_generation + 1;
        counters = count_request self.counters;
      },
      ok (id, packet),
    )

-- The tests behind the request lock.
unfoldable pub ready : LuxReadSession → Outcome (Unit {0})
ready self =
    if not (is_connected self)
    then (if self.connection_lost then raised connection_lost else raised session_closed)
    else elim self.pending [ none ↦ ok tt | some id ↦ raised runtime_error ]

abbrev pub request_packet :
    (start count : ℕ)
    → (timeout drain_timeout reply_timeout : Option ℕ) → LuxReadSession
    → Outcome Bytes
request_packet start count timeout drain_timeout reply_timeout self = do
  validate_read_range start count
  check_timeouts timeout drain_timeout reply_timeout
  ready self
  read_packet self.config start count

-- async_read_input up to `self._writer.write(packet)`
unfoldable pub begin_read :
    (start count : ℕ)
    → (timeout drain_timeout reply_timeout : Option ℕ) → (now : ℕ) → Exec LuxReadSession (ℕ × Bytes)
begin_read start count timeout drain_timeout reply_timeout now self =
    proceed (register_read start count now)
      (self, request_packet start count timeout drain_timeout reply_timeout self)

-- How the waits of a read end.
pub data ReadEnding : Type 0 where
  deadline : (drain_completed : Bool) → ReadEnding
  is_cancelled io_fails fails_otherwise reply : ReadEnding

-- `if self._pending is pending: self._pending = None`, and the future is cancelled
unfoldable pub release : ℕ → LuxReadSession → LuxReadSession
release id self = record self {
  pending = elim self.pending [
    | none ↦ none
    | some other ↦ if other == id then none else some other
  ];
  requests = settle id cancelled self.requests;
}

abbrev pub count_timeout : (drain_completed : Bool) → Counters → Counters
count_timeout true counters = record counters { request_timeouts = counters.request_timeouts + 1 }
count_timeout false counters = record counters {
  ambiguous_requests = counters.ambiguous_requests + 1;
}

-- The read is given up, and with it the connection's generation: up to `await self.async_close()`,
-- which waits for the lifecycle lock and is a step of its own.
unfoldable pub abandon : ℕ → (Counters → Counters) → LuxReadSession → LuxReadSession
abandon id count self =
    let released = release id self in taint (record released { counters = count released.counters })

-- `await asyncio.shield(future)`; a future that waits has no outcome
abbrev pub await_future : Future → Option (Outcome LuxReadObservation)
await_future waiting = none
await_future cancelled = some (raised cancelled_error)
await_future (result o) = some (ok o)
await_future (failed e) = some (raised e)

abbrev pub future_of : Option PendingRead → Future
future_of none = cancelled
future_of (some p) = p.future

-- The handlers of a reply: of a future's exceptions, a CancelledError alone gives the read up.
abbrev pub reply_with :
    Option (Outcome LuxReadObservation)
    → ℕ
    → LuxReadSession
    → LuxReadSession × Option (Outcome LuxReadObservation)
reply_with none id self = (self, none)
reply_with (some (ok o)) id self = (self, some (ok o))
reply_with (some (raised e)) id self =
    (if is_cancellation e then abandon id (λ c. c) self else self, some (raised e))

-- async_read_input from the end of its wait on, up to the close of a connection that is given up
unfoldable pub finish_read :
    ℕ → ReadEnding → LuxReadSession → LuxReadSession × Option (Outcome LuxReadObservation)
finish_read id (deadline true) self =
    (abandon id (count_timeout true) self, some (raised read_timeout))
finish_read id (deadline false) self =
    (abandon id (count_timeout false) self, some (raised ambiguous_request))
finish_read id is_cancelled self = (abandon id (λ c. c) self, some (raised cancelled_error))
finish_read id io_fails self =
    (abandon id (count_timeout false) self, some (raised ambiguous_request))
finish_read id fails_otherwise self = (abandon id (λ c. c) self, some (raised ambiguous_request))
finish_read id reply self = reply_with (await_future (future_of (lookup id self.requests))) id self
