-- ===== src/Tests/Streams.antt =====
-- Byte streams, recovery and the checks on values: runs, and the theorems at concrete inputs.
use luxpower_ha_integration.Base.{◌+◌, ◌≡◌, refl, arith, some, List, [], ◌∷◌, ◌++◌, take, ok}
use luxpower_ha_integration.Packet.Bytes.{Bytes}
use luxpower_ha_integration.Packet.Response
use luxpower_ha_integration.Packet.Response.{LxpResponse, unparsed, parse, ErrorType, wrong_length}
use luxpower_ha_integration.Stream.{received}
use luxpower_ha_integration.Decoder
use luxpower_ha_integration.Decoder.{LuxFrameDecoder, feed}
use luxpower_ha_integration.Decoder.Steps.{IsFrame}
use luxpower_ha_integration.Decoder.Cuts.{Fed, feed-Fed}
use luxpower_ha_integration.Decoder.Sync.{concat, feed-concat}
use luxpower_ha_integration.PacketRecovery.{fresh_handler, async_attempt_recovery}
use luxpower_ha_integration.PacketRecovery.Recovers.{AttemptEnds, async_attempt_recovery-Attempted}
use luxpower_ha_integration.Tests.{hold_packet, ack_packet}

abbrev decoder : LuxFrameDecoder
decoder = record {
  max_frame_size = 1024;
  buffer = [];
  frames = 0;
  discarded_bytes = 0;
  malformed_lengths = 0;
}

-- A byte of noise, two frames, and the start of a third.
two_frames :
    feed decoder (7 ∷ hold_packet ++ ack_packet ++ 161 ∷ [])
    ≡ ok (
      record decoder { buffer = 161 ∷ []; frames = 2; discarded_bytes = 1 },
      hold_packet ∷ ack_packet ∷ [],
    )
unfolding Decoder.program
two_frames = refl

feed-Fed_example :
    (after : LuxFrameDecoder) × (frames : List Bytes) × (feed decoder (7 ∷ hold_packet)
      ≡ ok (after, frames))
    × Fed (7 ∷ hold_packet) decoder frames after
feed-Fed_example = feed-Fed decoder (7 ∷ hold_packet) (omega arith)

hold-IsFrame : IsFrame 1024 hold_packet
hold-IsFrame = record { starts = refl; declares = refl; least = omega arith; most = omega arith }

ack-IsFrame : IsFrame 1024 ack_packet
ack-IsFrame = record { starts = refl; declares = refl; least = omega arith; most = omega arith }

feed-concat_example :
    feed decoder (concat (hold_packet ∷ ack_packet ∷ []))
    ≡ ok (record decoder { buffer = []; frames = 0 + 2 }, hold_packet ∷ ack_packet ∷ [])
feed-concat_example =
    feed-concat decoder (hold_packet ∷ ack_packet ∷ []) (hold-IsFrame, (ack-IsFrame, tt)) refl

-- The first 30 bytes of the packet of 41 bytes.
abbrev cut_response : LxpResponse
cut_response = record unparsed {
  error_type = wrong_length 41 30;
  protocol_number = some 2;
  frame_length = some 35;
  packet_length_calced = some 41;
}

cut_parses : parse (take 30 hold_packet) ≡ ok cut_response
unfolding Response.program
cut_parses = refl

async_attempt_recovery-Attempted_example :
    AttemptEnds (take 30 hold_packet) cut_response fresh_handler (received (244 ∷ 231 ∷ []) ∷ []) (
      async_attempt_recovery fresh_handler
        (received (244 ∷ 231 ∷ []) ∷ [])
        (take 30 hold_packet)
        30)
async_attempt_recovery-Attempted_example =
    async_attempt_recovery-Attempted fresh_handler (received (244 ∷ 231 ∷ []) ∷ [])
      (take 30 hold_packet) 30 cut_response cut_parses
