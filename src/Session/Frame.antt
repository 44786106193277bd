-- ===== src/Session/Frame.antt =====
-- classes/read_session.py: _route_frame, which decides what a frame is and updates the session.
-- Its tests are in Session.Classify; `follow` is what each branch does. The clock's outcome (the checked
-- time, or what it raises) and the monotonic time, in seconds, are arguments.
pub mod Branches
pub mod Reasons
use luxpower_ha_integration.Base.{
  ℕ, ◌+◌, ◌-◌, ◌*◌, ◌≡◌, ◌↔◌, Bool, true, false, not, ◌&&◌, ◌||◌, Option, none, some, List, [], ◌∷◌,
  ◌++◌, map, arith, ltb, leb, ◌==◌, if◌then◌else◌, is_empty, length, drop, get_elem?, Outcome, ok,
  raised, read_rejected,
}
use luxpower_ha_integration.Base.Exec.{Exec, proceed}
use luxpower_ha_integration.Base.Dict.{Dict, Eq, nat_eq, lookup, put, update}
use luxpower_ha_integration.Packet.Bytes.{Bytes, bytes_beq}
use luxpower_ha_integration.Packet.Builder.{translated_data}
use luxpower_ha_integration.Packet.Response.{LxpResponse, parse, parsed_values_dictionary}
use luxpower_ha_integration.Validator.{is_data_sane, input}
use luxpower_ha_integration.Telemetry.{operational, input_register_group, group_beq}
use luxpower_ha_integration.Session.{
  LuxObservationSource, explicit, unsolicited, LuxReadObservation, Inputs, Counters, result, failed,
  PendingRead, Config, LuxReadSession, settle, pending_at,
}
use luxpower_ha_integration.Session.Delivery.{publish_observation}
use luxpower_ha_integration.Session.Classify.{
  Route, counts_193, rejects, refuses, accepts, classify, fill,
}

abbrev pub block_beq : ℕ × ℕ → ℕ × ℕ → Bool
block_beq a b = (a.0 == b.0) && (a.1 == b.1)

pub block_beq_iff : (a b : ℕ × ℕ) → (block_beq a b ≡ true) ↔ (a ≡ b)
block_beq_iff a b = ground arith

instance abbrev pub block_eq : Eq (ℕ × ℕ)
block_eq = record { beq = block_beq; beq_iff = block_beq_iff }

-- dict equality, of dictionaries that list the same registers in the same order
unfoldable pub values_beq : Dict ℕ ℕ → Dict ℕ ℕ → Bool
values_beq [] [] = true
values_beq ((r, v) ∷ d) ((s, w) ∷ e) = ((r == s) && (v == w)) && values_beq d e
values_beq _ _ = false

abbrev pub has_values : Option (Dict ℕ ℕ) → Dict ℕ ℕ → Bool
has_values none values = false
has_values (some last) values = values_beq last values

-- self._last_block_values.get(key) == values
abbrev pub is_duplicate : (start : ℕ) → (values : Dict ℕ ℕ) → Inputs → Bool
is_duplicate start values inputs =
    has_values (lookup (start, length values) inputs.last_block_values) values

abbrev pub is_answer : Option (ℕ × PendingRead) → Bool
is_answer none = false
is_answer (some answered) = true

abbrev pub source_of : (explicit_response : Bool) → LuxObservationSource
source_of true = explicit
source_of false = unsolicited

-- The observation of an accepted block.
unfoldable pub observe :
    (start : ℕ)
    → (values : Dict ℕ ℕ) → (is_explicit : Bool) → (observed_at : ℕ) → Inputs
    → LuxReadObservation
observe start values is_explicit observed_at inputs = record {
  register_start = start;
  register_count = length values;
  values = values;
  observed_at = observed_at;
  explicit_response = is_explicit;
  duplicate = is_duplicate start values inputs;
  sequence = inputs.observation_sequence + 1;
}

-- The updates of the session's dictionaries for it.
unfoldable pub record_inputs : LuxReadObservation → Inputs → Inputs
record_inputs o inputs = record {
  input_registers = update inputs.input_registers o.values;
  input_observed_at = update inputs.input_observed_at (fill o.observed_at o.values);
  input_sources = update inputs.input_sources (fill (source_of o.explicit_response) o.values);
  input_observation_sequences =
      update inputs.input_observation_sequences (fill o.sequence o.values);
  input_observation_ranges =
      update inputs.input_observation_ranges (fill (o.register_start, o.register_count) o.values);
  explicit_observed_at =
      if o.explicit_response
      then update inputs.explicit_observed_at (fill o.observed_at o.values)
      else inputs.explicit_observed_at;
  unsolicited_observed_at =
      if o.explicit_response
      then inputs.unsolicited_observed_at
      else update inputs.unsolicited_observed_at (fill o.observed_at o.values);
  last_block_values = put (o.register_start, length o.values) o.values inputs.last_block_values;
  observation_sequence = o.sequence;
}

-- The number of operational registers of a block.
unfoldable pub count_operational : Config → Dict ℕ ℕ → ℕ
count_operational config [] = 0
count_operational config ((register, value) ∷ values) =
    let rest = count_operational config values in
    if group_beq (input_register_group config.groups register) operational then rest + 1 else rest

-- _REQUEST_LATENCY_HISTORY, and an append to a deque of at most that many
abbrev pub request_latency_history : ℕ
request_latency_history = 4096

abbrev pub append_bounded : (capacity : ℕ) → List ℕ → ℕ → List ℕ
append_bounded capacity xs x = drop (length xs + 1 - capacity) (xs ++ x ∷ [])

abbrev pub count_block : LuxReadObservation → Counters → Counters
count_block o counters = record counters {
  validated_fc4_frames = counters.validated_fc4_frames + 1;
  duplicate_fc4_frames =
      if o.duplicate then counters.duplicate_fc4_frames + 1 else counters.duplicate_fc4_frames;
}

-- The last part of _route_frame: the read is answered, or the block counts as unmatched.
abbrev pub count_answer :
    Config → PendingRead → LuxReadObservation → (now : ℕ) → Counters → Counters
count_answer config p o now counters = record counters {
  expected_fc4_responses = counters.expected_fc4_responses + 1;
  request_latencies_ms =
      append_bounded request_latency_history counters.request_latencies_ms
        ((now - p.sent_monotonic) * 1000);
  request_latency_samples_total = counters.request_latency_samples_total + 1;
  operational_registers_expected =
      counters.operational_registers_expected + count_operational config o.values;
}

abbrev pub count_unmatched : Config → LuxReadObservation → Counters → Counters
count_unmatched config o counters = record counters {
  unmatched_fc4_observations = counters.unmatched_fc4_observations + 1;
  operational_registers_unmatched =
      counters.operational_registers_unmatched + count_operational config o.values;
}

unfoldable pub answer :
    Option (ℕ × PendingRead) → LuxReadObservation → (now : ℕ) → LuxReadSession → LuxReadSession
answer none o now self = record self { counters = count_unmatched self.config o self.counters }
answer (some (id, p)) o now self = record self {
  pending = none;
  requests = settle id (result o) self.requests;
  counters = count_answer self.config p o now self.counters;
}

-- A block is accepted, unless the clock raises.
unfoldable pub accept :
    (start : ℕ)
    → (values : Dict ℕ ℕ) → Option (ℕ × PendingRead)
    → Outcome ℕ
    → (now : ℕ) → Exec LuxReadSession (Unit {0})
accept start values answered (raised e) now self = (self, raised e)
accept start values answered (ok observed_at) now self =
    let o = observe start values (is_answer answered) observed_at self.inputs in
    (
      answer answered o now (record self {
        inputs = record_inputs o self.inputs;
        subscriptions = publish_observation o self.subscriptions;
        counters = count_block o self.counters;
      }),
      ok tt,
    )

abbrev pub count_193 : Counters → Counters
count_193 counters = record counters { function_193_frames = counters.function_193_frames + 1 }

abbrev pub count_rejection : Counters → Counters
count_rejection counters = record counters { modbus_rejections = counters.modbus_rejections + 1 }

abbrev pub count_invalid : Counters → Counters
count_invalid counters = record counters { invalid_frames = counters.invalid_frames + 1 }

abbrev pub count_frame : Counters → Counters
count_frame counters = record counters { frames_received = counters.frames_received + 1 }

unfoldable pub follow : Route → Outcome ℕ → (now : ℕ) → Exec LuxReadSession (Unit {0})
follow counts_193 clock now self = (record self { counters = count_193 self.counters }, ok tt)
follow (rejects id code) clock now self = (
  record self {
    pending = none;
    requests = settle id (failed (read_rejected code)) self.requests;
    counters = count_rejection self.counters;
  },
  ok tt,
)
follow (refuses reason) clock now self =
    (record self { counters = count_invalid self.counters }, ok tt)
follow (accepts start values answered) clock now self = accept start values answered clock now self

-- _route_frame
unfoldable pub route_frame :
    Bytes → (generation : ℕ) → Outcome ℕ → (now : ℕ) → Exec LuxReadSession (Unit {0})
route_frame frame generation clock now self =
    if not (generation == self.generation)
    then (self, ok tt)
    else let counted = record self { counters = count_frame self.counters } in
      let pending = pending_at generation self in
      proceed (λ response. follow (classify self.config pending response) clock now)
        (counted, parse frame)
