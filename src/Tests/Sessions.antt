-- ===== src/Tests/Sessions.antt =====
-- The read session: a run from its start to an answered read, and the theorems at such inputs.
use luxpower_ha_integration.Base.{
  ℕ, ◌≤◌, ◌≡◌, ◌≢◌, refl, true, false, none, some, arith, List, [], ◌∷◌, ok,
}
use luxpower_ha_integration.Packet.Bytes.{Bytes, AreBytes}
use luxpower_ha_integration.Packet.Response.{LxpResponse, unparsed}
use luxpower_ha_integration.Session.Run
use luxpower_ha_integration.Session.{LuxReadObservation, Config, LuxReadSession}
use luxpower_ha_integration.Session.Delivery.{new_state}
use luxpower_ha_integration.Session.Delivery.Bounded.{calls-Delivered}
use luxpower_ha_integration.Session.Delivery.Offered.{
  Call, publishes, drains, calls, published, Delivered, call,
}
use luxpower_ha_integration.Session.Classify.{refuses, device_function, data_sanity, classify}
use luxpower_ha_integration.Session.Frame.Reasons.{classify-not_data_sanity}
use luxpower_ha_integration.Session.Lifecycle.{new_session}
use luxpower_ha_integration.Session.Connect.{Transport, async_connect}
use luxpower_ha_integration.Session.Reader.{ReaderLoop, Arrival, chunk, read_round}
use luxpower_ha_integration.Session.Request.{
  begin_read, reply, deadline, finish_read, validate_read_range, assert_read_only_packet,
  read_packet,
}
use luxpower_ha_integration.Session.Request.ReadOnly.{read_request, read_packet_total}
use luxpower_ha_integration.Session.Request.OnlyReads.{assert_read_only_packet_only}
use luxpower_ha_integration.Session.Reach.{Reachable, starts, steps, connects, begins, reads}
use luxpower_ha_integration.Session.Reach.Reads.{SessionReads}
use luxpower_ha_integration.Session.Reach.Kept.{Reachable-Reads}
use luxpower_ha_integration.Session.Reach.Counts.{CountsSound, Reachable-Counts}
use luxpower_ha_integration.Session.Reach.Snapshot.{HasHistory}
use luxpower_ha_integration.Session.Reach.History.{Reachable-HasHistory}
use luxpower_ha_integration.Session.Reach.Late.{at_once, after, by_deadline, late_reply-inert}
use luxpower_ha_integration.Tests.{dongle, inverter}

abbrev pub session_config : Config
session_config = record {
  dongle_serial = dongle;
  inverter_serial = inverter;
  request_timeout = 3;
  drain_timeout = 3;
  reply_timeout = 3;
  split_request_deadlines = false;
  tcp_keepalive = true;
  receive_inactivity_timeout = some 900;
  groups = [];
}

abbrev pub transport : Transport
transport = record {
  has_extra_info = true;
  extra_info = ok (some true);
  keepalive_option = ok tt;
  has_idle_option = true;
  idle_option = ok tt;
}

-- A read of the input registers 0 and 1, which are 100 and 300.
abbrev input_packet : Bytes
input_packet =
    161 ∷ 26 ∷ 2 ∷ 0 ∷ 35 ∷ 0 ∷ 1 ∷ 194 ∷ 66 ∷ 65 ∷ 49 ∷ 50 ∷ 51 ∷ 52 ∷ 53 ∷ 54 ∷ 55 ∷ 56 ∷ 21 ∷ 0
    ∷ 1 ∷ 4 ∷ 51 ∷ 49 ∷ 50 ∷ 51 ∷ 52 ∷ 53 ∷ 54 ∷ 55 ∷ 56 ∷ 57 ∷ 0 ∷ 0 ∷ 4 ∷ 100 ∷ 0 ∷ 44 ∷ 1 ∷ 120
    ∷ 110 ∷ []

abbrev connected : LuxReadSession
connected = (async_connect (ok transport) (new_session session_config)).0

abbrev asked : LuxReadSession
asked = (begin_read 0 2 none none none 5 connected).0

abbrev arrival : Arrival
arrival = chunk input_packet (λ i. (ok 1000, 6))

abbrev loop : ReaderLoop
loop = record { loop_generation = 1; receive_deadline = some 905 }

abbrev answered : LuxReadSession
answered = read_round loop arrival 6 asked

answered-Reachable : Reachable session_config answered
answered-Reachable =
    steps (steps (steps starts (connects (ok transport))) (begins 0 2 none none none 5))
      (reads loop arrival 6)

Reachable-Reads_example : SessionReads answered
Reachable-Reads_example = Reachable-Reads session_config answered-Reachable

Reachable-Counts_example : CountsSound answered
Reachable-Counts_example = Reachable-Counts session_config answered-Reachable

Reachable-HasHistory_example : HasHistory answered
Reachable-HasHistory_example = Reachable-HasHistory session_config answered-Reachable

-- The run: the session reads what it asked for, and the caller gets it.
answered_registers : answered.inputs.input_registers ≡ (0, 100) ∷ (1, 300) ∷ []
unfolding Run.program
answered_registers = refl

abbrev answer_given : LuxReadObservation
answer_given = record {
  register_start = 0;
  register_count = 2;
  values = (0, 100) ∷ (1, 300) ∷ [];
  observed_at = 1000;
  explicit_response = true;
  duplicate = false;
  sequence = 1;
}

answer_returned : (finish_read 0 reply answered).1 ≡ some (ok answer_given)
unfolding Run.program
answer_returned = refl

asked_generation : 1 ≤ asked.generation
unfolding Run.program
asked_generation = omega arith

late_reply-inert_example :
    read_round loop arrival 9
      (async_connect (ok transport) (finish_read 0 (deadline true) asked).0).0
    ≡ (async_connect (ok transport) (finish_read 0 (deadline true) asked).0).0
late_reply-inert_example =
    late_reply-inert 0 (deadline true) asked loop arrival 9 (by_deadline true) asked_generation
      (after at_once (connects (ok transport)))

-- A queue of two that is offered three observations and then drained.
abbrev observed : ℕ → LuxReadObservation
observed n = record answer_given { sequence = n }

abbrev three_calls : List Call
three_calls = publishes (observed 1) ∷ publishes (observed 2) ∷ publishes (observed 3) ∷ drains ∷ []

two_delivered : (calls three_calls (new_state 2)).1 ≡ observed 2 ∷ observed 3 ∷ []
unfolding Run.program calls call
two_delivered = refl

calls-Delivered_example :
    Delivered
      (published three_calls)
      (calls three_calls (new_state 2)).1
      (calls three_calls (new_state 2)).0
calls-Delivered_example = calls-Delivered 2 three_calls (omega arith)

two_registers_valid : validate_read_range 0 2 ≡ ok tt
unfolding Run.program
two_registers_valid = refl

read_packet_total_example : read_packet session_config 0 2 ≡ ok (read_request session_config 0 2)
read_packet_total_example = read_packet_total session_config 0 2 refl refl two_registers_valid

abbrev sent_packet : Bytes
sent_packet =
    161 ∷ 26 ∷ 1 ∷ 0 ∷ 32 ∷ 0 ∷ 1 ∷ 194 ∷ 66 ∷ 65 ∷ 49 ∷ 50 ∷ 51 ∷ 52 ∷ 53 ∷ 54 ∷ 55 ∷ 56 ∷ 18 ∷ 0
    ∷ 0 ∷ 4 ∷ 51 ∷ 49 ∷ 50 ∷ 51 ∷ 52 ∷ 53 ∷ 54 ∷ 55 ∷ 56 ∷ 57 ∷ 0 ∷ 0 ∷ 2 ∷ 0 ∷ 245 ∷ 41 ∷ []

sent_packet-AreBytes : AreBytes sent_packet
sent_packet-AreBytes = ground arith

sent_packet_passes : assert_read_only_packet session_config sent_packet 0 2 ≡ ok tt
unfolding Run.program
sent_packet_passes = refl

assert_read_only_packet_only_example : sent_packet ≡ read_request session_config 0 2
assert_read_only_packet_only_example =
    assert_read_only_packet_only session_config sent_packet 0 2 sent_packet-AreBytes refl refl
      (omega arith) (omega arith) sent_packet_passes

-- An answer of function 3.
abbrev wrong_function : LxpResponse
wrong_function = record unparsed {
  packet_error = false;
  tcp_function = some 194;
  dongle_serial = some dongle;
  serial_number = some inverter;
  device_function = some 3;
  register = some 0;
}

wrong_function_refused : classify session_config none wrong_function ≡ refuses device_function
unfolding Run.program
wrong_function_refused = refl

classify-not_data_sanity_example : device_function ≢ data_sanity
classify-not_data_sanity_example =
    classify-not_data_sanity session_config wrong_function none device_function
      wrong_function_refused
