-- ===== src/Session/Views.antt =====
-- classes/read_session.py: the snapshot and the metrics that a session hands out.
use luxpower_ha_integration.Base.{ℕ, ◌+◌, ◌-◌, List}
use luxpower_ha_integration.Base.Dict.{Dict}
use luxpower_ha_integration.Decoder.{stats}
use luxpower_ha_integration.Session.{LuxObservationSource, LuxReadSession}

pub record LuxReadSessionSnapshot : Type 0 where
  pub input_registers : Dict ℕ ℕ
  pub observed_at : Dict ℕ ℕ
  pub input_sources : Dict ℕ LuxObservationSource
  pub input_observation_sequences : Dict ℕ ℕ
  pub input_observation_ranges : Dict ℕ (ℕ × ℕ)
  pub explicit_observed_at : Dict ℕ ℕ
  pub unsolicited_observed_at : Dict ℕ ℕ

-- snapshot; `observed_at` holds input registers only
unfoldable pub snapshot : LuxReadSession → LuxReadSessionSnapshot
snapshot self = record {
  input_registers = self.inputs.input_registers;
  observed_at = self.inputs.input_observed_at;
  input_sources = self.inputs.input_sources;
  input_observation_sequences = self.inputs.input_observation_sequences;
  input_observation_ranges = self.inputs.input_observation_ranges;
  explicit_observed_at = self.inputs.explicit_observed_at;
  unsolicited_observed_at = self.inputs.unsolicited_observed_at;
}

pub record LuxReadSessionMetrics : Type 0 where
  pub connections : ℕ
  pub reconnects : ℕ
  pub bytes_received : ℕ
  pub frames_received : ℕ
  pub validated_fc4_frames : ℕ
  pub expected_fc4_responses : ℕ
  pub unmatched_fc4_observations : ℕ
  pub duplicate_fc4_frames : ℕ
  pub invalid_frames : ℕ
  pub function_193_frames : ℕ
  pub explicit_requests : ℕ
  pub request_timeouts : ℕ
  pub connection_losses : ℕ
  pub operational_registers_expected : ℕ
  pub operational_registers_unmatched : ℕ
  pub observation_queue_drops : ℕ
  pub request_latencies_ms : List ℕ
  pub request_latency_samples_total : ℕ
  pub decoder_discarded_bytes : ℕ
  pub decoder_buffered_bytes : ℕ
  pub connection_attempts : ℕ
  pub connection_failures : ℕ
  pub ambiguous_requests : ℕ
  pub modbus_rejections : ℕ
  pub tcp_keepalive_applied_connections : ℕ
  pub tcp_keepalive_idle_applied_connections : ℕ
  pub tcp_keepalive_configuration_failures : ℕ
  pub tcp_keepalive_configuration_unavailable : ℕ
  pub receive_inactivity_timeouts : ℕ

-- metrics; max(0, connections - 1) is the subtraction of natural numbers
unfoldable pub metrics : LuxReadSession → LuxReadSessionMetrics
metrics self =
    let counters = self.counters in
    let decoder_stats = stats self.decoder in
    record {
      connections = counters.connections;
      reconnects = counters.connections - 1;
      bytes_received = counters.bytes_received;
      frames_received = counters.frames_received;
      validated_fc4_frames = counters.validated_fc4_frames;
      expected_fc4_responses = counters.expected_fc4_responses;
      unmatched_fc4_observations = counters.unmatched_fc4_observations;
      duplicate_fc4_frames = counters.duplicate_fc4_frames;
      invalid_frames = counters.invalid_frames;
      function_193_frames = counters.function_193_frames;
      explicit_requests = counters.explicit_requests;
      request_timeouts = counters.request_timeouts;
      connection_losses = counters.connection_losses;
      operational_registers_expected = counters.operational_registers_expected;
      operational_registers_unmatched = counters.operational_registers_unmatched;
      observation_queue_drops = self.subscriptions.observation_queue_drops;
      request_latencies_ms = counters.request_latencies_ms;
      request_latency_samples_total = counters.request_latency_samples_total;
      decoder_discarded_bytes = counters.decoder_discarded_total + decoder_stats.discarded_bytes;
      decoder_buffered_bytes = decoder_stats.buffered_bytes;
      connection_attempts = counters.connection_attempts;
      connection_failures = counters.connection_failures;
      ambiguous_requests = counters.ambiguous_requests;
      modbus_rejections = counters.modbus_rejections;
      tcp_keepalive_applied_connections = self.keepalive.applied_connections;
      tcp_keepalive_idle_applied_connections = self.keepalive.idle_applied_connections;
      tcp_keepalive_configuration_failures = self.keepalive.configuration_failures;
      tcp_keepalive_configuration_unavailable = self.keepalive.configuration_unavailable;
      receive_inactivity_timeouts = counters.receive_inactivity_timeouts;
    }
