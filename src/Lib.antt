-- ===== src/Lib.antt =====
-- A verification library for the LuxPower integration, a Home Assistant component that reads and
-- writes the registers of an inverter through a TCP dongle.
--
-- The program's core is a protocol client. A request is a packet with a checksum; the dongle's
-- answers are packets in a byte stream; a poll reads blocks of registers, checks each response, and
-- merges the accepted values with a cache and the times at which they were observed; a write sends
-- one register and waits for an echo. A coordinator calls the client and adjusts its own schedule
-- after failures. The paths below are from the repository's root; the code stands in
-- custom_components/lxp_modbus, whose folder classes is written classes/.
--
-- Which file models which part:
--   Base               lists, dictionaries, exceptions as values, state passing, laws of bits
--   Packet             classes/lxp_packet_utils.py (Crc: compute_crc), lxp_request_builder.py (Builder:
--                      both prepare_packet functions), lxp_response.py (Response: the constructor as
--                      `parse`, its private methods, the register views)
--   Decoder            classes/frame_decoder.py: LuxFrameDecoder, one round of `feed` as `feed_step`
--   Stream             the asyncio stream, which is not part of the repository, as a script of reads
--   PacketRecovery     classes/packet_recovery.py: async_attempt_recovery
--   Validator          classes/data_validator.py: is_data_sane
--   Batteries          classes/lxp_batteries.py: parse_bat_info_block, get_battery_info
--   Utils              utils.py: bit fields, bitmask texts, PV strings, model and firmware texts
--   Client             classes/modbus_client.py, and of classes/connection_manager.py and
--                      observation.py what it calls: Cycle (which polls read what), Request
--                      (async_request_registers), Pass and Poll (_async_poll_once), Fetch
--                      (async_get_data, _handle_poll_failure), Write (async_write_register and below)
--   Session            classes/read_session.py: Delivery (the subscriptions), Classify and Frame
--                      (_route_frame), Lifecycle (close, _reader_failed), Connect (connect, reconnect),
--                      Reader (_reader_loop, round by round), Request (async_read_input, up to its first
--                      wait and from each ending on), Views (snapshot, metrics), Reach (the step relation
--                      and invariants)
--   Recovery           recovery.py, and the recovery of the transport in luxpower/hybrid.py (at the
--                      repository's root): Reconnect (its coroutine), Dials (how often it dials), Budget
--                      (its window)
--   Coordinator        coordinator.py: _async_update_data, _register_failure
--   Telemetry          telemetry_groups.py: the groups of registers, group_input_registers
--   Discovery          classes/inverter_discovery.py: get_inverter_model_from_device
--   Entity             entity.py: _async_write_register, is_master
--   Tests              runs on concrete packets, and the theorems at concrete inputs
--
-- State is explicit. A method takes the records that it can change and returns them beside its
-- outcome; an exception is a value, and what was changed before it stays changed. The records of the
-- client are its cache, the counters of its polling cycle, and the rest; a request has only the
-- connection, so it cannot touch the cache. Bytes are numbers in lists, integers are not negative, and
-- an attribute that is -1 or None before it is read is `none`. Dictionaries are association lists in
-- insertion order, whose lookups take the first entry.
--
-- Bounds and fuel. `feed` runs its loop with one more unit of fuel than the buffer has bytes, and the
-- search for a later frame likewise; every round that goes on takes a byte at least, so the fuel is
-- enough. A range has at most `stop - start` numbers, as its step is 1 at least.
-- The recovery loop counts the attempts that the source allows, the client's loops count
-- the configured retries. A bit length takes at most as many halvings as the number says.
--
-- The world outside is a parameter: what each connection attempt gives, what each read gives, and the
-- clocks. An exception of `drain` counts as one of the read behind it; an exception of closing a
-- connection is left out, and so is the time that a call waits. One call runs at a time, as under the
-- client's lock.
--
-- The read session is a set of coroutines. Between two waits a coroutine runs in one piece, and such a
-- piece, or an operation that holds the lifecycle lock, is a step of the relation in Session.Reach;
-- the steps come in any order, for any reader loop and any read. Giving up a read retires its
-- generation in one step, and the close that waits for the lock is a later one. A read in progress is an object with
-- a number, so that the session and the waiting coroutine share it. Times are natural numbers.
--
-- A cancellation is an exception that `except Exception` lets pass; a coroutine that is cancelled
-- elsewhere than at a read of its stream is not modelled for the client.
--
-- Not modelled: logging and texts for logs, read profiles, the journal of timeout diagnostics and the
-- experiments (read_profiles.py, timeout_diagnostics.py, the rest of luxpower/), the
-- entities' views and descriptions, and the glue to Home Assistant.
pub mod Base
pub mod Packet
pub mod Decoder
pub mod Stream
pub mod Session
pub mod Recovery
pub mod PacketRecovery
pub mod Validator
pub mod Coordinator
pub mod Batteries
pub mod Utils
pub mod Client
pub mod Telemetry
pub mod Discovery
pub mod Entity
pub mod Tests
