-- ===== src/Session/Run.antt =====
-- One name that opens the read session, for runs of it.
use luxpower_ha_integration.Packet.Builder.{prepare_packet_for_read}
use luxpower_ha_integration.Packet.Response
use luxpower_ha_integration.Decoder
use luxpower_ha_integration.Validator
use luxpower_ha_integration.Base.Dict.{lookup, contains, put, remove, update}
use luxpower_ha_integration.Session.{settle, pending_at}
use luxpower_ha_integration.Session.Delivery.{
  offer, offer_all, publish_observation, drain_queue, drain,
}
use luxpower_ha_integration.Session.Frame.{
  values_beq, observe, record_inputs, count_operational, answer, accept, follow, route_frame,
}
use luxpower_ha_integration.Session.Classify.{are_from, invalid_frame_reason, classify, fill}
use luxpower_ha_integration.Session.Lifecycle.{
  fail_pending, retire_decoder, async_close, reader_failed,
}
use luxpower_ha_integration.Session.Connect.{
  configure_tcp_keepalive, connected_session, connect_with, async_connect,
}
use luxpower_ha_integration.Session.Reader.{
  route_frames, route_fed, receive_chunk, give_up_partial, read_timed_out, read_chunk, reader_round,
  end_round, read_round, test_loop,
}
use luxpower_ha_integration.Session.Request.{
  validate_read_range, packet_checks, assert_read_only_packet, check_timeouts, read_packet,
  register_read, ready, begin_read, release, abandon, finish_read,
}

unfoldable pub program : Unit {0}
unfolding Response.program Decoder.program Validator.program prepare_packet_for_read lookup contains
    put remove update settle pending_at offer offer_all publish_observation drain_queue drain
    are_from invalid_frame_reason classify fill values_beq observe record_inputs count_operational
    answer accept follow route_frame fail_pending retire_decoder async_close reader_failed
    configure_tcp_keepalive connected_session connect_with async_connect route_frames route_fed
    receive_chunk give_up_partial read_timed_out read_chunk reader_round test_loop end_round
    read_round validate_read_range packet_checks assert_read_only_packet check_timeouts read_packet
    register_read ready begin_read release abandon finish_read
program = tt
