-- ===== src/Decoder.antt =====
-- classes/frame_decoder.py: frames out of a TCP byte stream. `while self._buffer` is a loop over
-- one step with fuel: every round that goes on takes a byte at least from the buffer.
pub mod Total
pub mod Steps
pub mod Cuts
pub mod Sync
use luxpower_ha_integration.Base.{
  ℕ, zero, suc, ◌+◌, ◌-◌, ◌≤◌, Bool, true, false, not, ◌&&◌, Option, none, some, List, [], ◌∷◌,
  ◌++◌, ltb, leb, ◌==◌, if◌then◌else◌, length, slice, drop, take, Outcome, Exception, ok, raised,
  value_error, out_of_fuel, ◌>>=◌,
}
use luxpower_ha_integration.Packet.Bytes.{Bytes, from_bytes}
use luxpower_ha_integration.Packet.Builder.{translated_data}
use luxpower_ha_integration.Packet.Response.{LxpResponse, declared_length, parse}
use luxpower_ha_integration.Packet.Response
use mathlib.Core.Option

pub record LuxFrameDecoder : Type 0 where
  pub max_frame_size : ℕ
  pub buffer : Bytes
  pub frames : ℕ
  pub discarded_bytes : ℕ
  pub malformed_lengths : ℕ

pub record FrameDecoderStats : Type 0 where
  pub frames : ℕ
  pub discarded_bytes : ℕ
  pub malformed_lengths : ℕ
  pub buffered_bytes : ℕ

-- MAX_PACKET_SIZE of const.py and the class constant.
abbrev pub max_packet_size : ℕ
max_packet_size = 1024

abbrev pub min_frame_size : ℕ
min_frame_size = 8

unfoldable pub init : ℕ → Outcome LuxFrameDecoder
init max_frame_size =
    if ltb max_frame_size min_frame_size
    then raised value_error
    else ok (record {
      max_frame_size = max_frame_size;
      buffer = [];
      frames = 0;
      discarded_bytes = 0;
      malformed_lengths = 0;
    })

-- buffer.find(prefix), for the prefix A1 1A.
unfoldable pub find_prefix : Bytes → Option ℕ
find_prefix [] = none
find_prefix (a ∷ []) = none
find_prefix (a ∷ b ∷ rest) =
    if a == 0xA1 && b == 0x1A then some 0 else Option.map suc (find_prefix (b ∷ rest))

-- buffer.find(prefix, start)
abbrev pub find_from : Bytes → ℕ → Option ℕ
find_from buffer start = Option.map (λ i. start + i) (find_prefix (drop start buffer))

-- `not response.packet_error and response.tcp_function == TRANSLATED_DATA`
abbrev pub is_valid_frame : LxpResponse → Bool
is_valid_frame response =
    not response.packet_error
    && elim response.tcp_function [ none ↦ false | some tcp ↦ tcp == translated_data ]

-- The body of the loop of _find_valid_later_frame for a candidate.
pub check_candidate : (max : ℕ) → Bytes → Outcome Bool
check_candidate max rest =
    let candidate_length = declared_length rest in
    if (leb min_frame_size candidate_length && leb candidate_length max)
      && leb candidate_length (length rest)
    then (do response ← parse (take candidate_length rest); ok (is_valid_frame response))
    else ok false

-- _find_valid_later_frame from `search_from` on.
pub later_frame : (fuel : ℕ) (max : ℕ) → Bytes → (search_from : ℕ) → Outcome (Option ℕ)
later_frame zero max buffer search_from = raised out_of_fuel
later_frame (suc fuel) max buffer search_from = elim (find_from buffer search_from) [
  | none ↦ ok none
  | some candidate ↦
      if ltb (length buffer - candidate) 6
      then ok none
      else check_candidate max (drop candidate buffer) >>= λ valid. elim valid [
        | true ↦ ok (some candidate)
        | false ↦ later_frame fuel max buffer (candidate + 2)
      ]
]

pub find_valid_later_frame : LuxFrameDecoder → Outcome (Option ℕ)
find_valid_later_frame self =
    later_frame (suc (length self.buffer)) self.max_frame_size self.buffer 2

-- What one round of the loop of `feed` does: `break`, `continue`, or append a frame.
pub data Step : Type 0 where
  stop again : LuxFrameDecoder → Step
  emit : Bytes → LuxFrameDecoder → Step

-- del self._buffer[:n]; self._discarded_bytes += n
abbrev pub discard : ℕ → LuxFrameDecoder → LuxFrameDecoder
discard n self = record self {
  buffer = drop n self.buffer;
  discarded_bytes = self.discarded_bytes + n;
}

-- `self._buffer[-1:] == prefix[:1]`
unfoldable pub ends_in_a1 : Bytes → Bool
ends_in_a1 [] = false
ends_in_a1 (b ∷ []) = b == 0xA1
ends_in_a1 (b ∷ c ∷ rest) = ends_in_a1 (c ∷ rest)

-- No prefix: a last byte that may begin one is kept.
pub no_prefix : LuxFrameDecoder → LuxFrameDecoder
no_prefix self =
    let retained = if ends_in_a1 self.buffer then 1 else 0 in
    discard (length self.buffer - retained) self

abbrev pub malformed : LuxFrameDecoder → LuxFrameDecoder
malformed self = record self { malformed_lengths = self.malformed_lengths + 1 }

-- The rest of a round, with the prefix in front of the buffer.
pub at_prefix : LuxFrameDecoder → Outcome Step
at_prefix self =
    if ltb (length self.buffer) 6
    then ok (stop self)
    else let declared = declared_length self.buffer in
      if not (leb min_frame_size declared && leb declared self.max_frame_size)
      then ok (again (malformed (discard 1 self)))
      else if ltb (length self.buffer) declared
      then (find_valid_later_frame self >>= λ found. elim found [
        | some later_start ↦ ok (again (malformed (discard later_start self)))
        | none ↦ ok (stop self)
      ])
      else ok (
          emit (take declared self.buffer)
            (record self { buffer = drop declared self.buffer; frames = self.frames + 1 }))

pub feed_step : LuxFrameDecoder → Outcome Step
feed_step self = elim (find_prefix self.buffer) [
  | none ↦ ok (stop (no_prefix self))
  | some frame_start ↦ at_prefix (if frame_start == 0 then self else discard frame_start self)
]

-- The loop goes on, or ends with the frames completed so far.
pub continue :
    (LuxFrameDecoder → List Bytes → Outcome (LuxFrameDecoder × List Bytes))
    → List Bytes
    → Step
    → Outcome (LuxFrameDecoder × List Bytes)
continue rest completed (stop self) = ok (self, completed)
continue rest completed (again self) = rest self completed
continue rest completed (emit frame self) = rest self (completed ++ frame ∷ [])

-- `while self._buffer`
pub feed_loop : (fuel : ℕ) → LuxFrameDecoder → List Bytes → Outcome (LuxFrameDecoder × List Bytes)
feed_loop zero self completed = raised out_of_fuel
feed_loop (suc fuel) self completed = elim self.buffer [
  | [] ↦ ok (self, completed)
  | b ∷ rest ↦ feed_step self >>= continue (feed_loop fuel) completed
]

pub feed : LuxFrameDecoder → Bytes → Outcome (LuxFrameDecoder × List Bytes)
feed self input =
    let filled = record self { buffer = self.buffer ++ input } in
    feed_loop (suc (length filled.buffer)) filled []

pub discard_partial : LuxFrameDecoder → LuxFrameDecoder × Bool
discard_partial self = elim self.buffer [
  | [] ↦ (self, false)
  | b ∷ rest ↦ (
    record self {
      buffer = [];
      discarded_bytes = self.discarded_bytes + length self.buffer;
      malformed_lengths = self.malformed_lengths + 1;
    },
    true,
  )
]

pub reset : LuxFrameDecoder → LuxFrameDecoder
reset self = record self { buffer = []; frames = 0; discarded_bytes = 0; malformed_lengths = 0 }

pub stats : LuxFrameDecoder → FrameDecoderStats
stats self = record {
  frames = self.frames;
  discarded_bytes = self.discarded_bytes;
  malformed_lengths = self.malformed_lengths;
  buffered_bytes = length self.buffer;
}

-- Named on the `unfolding` line of a test, this opens the decoder and the parser.
unfoldable pub program : Unit {0}
unfolding Response.program init find_prefix check_candidate later_frame find_valid_later_frame
    ends_in_a1 no_prefix at_prefix feed_step continue feed_loop feed discard_partial reset stats
program = tt
