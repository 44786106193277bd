-- ===== src/Session/Reach/Rounds.antt =====
-- A round of the reader loop keeps what its parts keep.
use luxpower_ha_integration.Base.{
  ℕ, ◌+◌, subst, inl, inr, true, false, List, [], ◌∷◌, arith, ◌==◌, length, is_empty, if◌then◌else◌,
  Outcome, ok, raised, Bool-cases, is_cancellation,
}
use luxpower_ha_integration.Base.Exec.{proceed-keeps}
use luxpower_ha_integration.Packet.Bytes.{Bytes}
use luxpower_ha_integration.Decoder.{LuxFrameDecoder, feed, discard_partial}
use luxpower_ha_integration.Session.{LuxReadSession}
use luxpower_ha_integration.Session.Frame.{count_invalid, route_frame}
use luxpower_ha_integration.Session.Lifecycle.{reader_failed}
use luxpower_ha_integration.Session.Reader.{
  ReaderLoop, RoundEnd, goes_on, returns, raises, Arrival, chunk, elapsed, breaks, route_frames,
  count_bytes, count_malformed, route_fed, receive_chunk, is_past, give_up_partial, read_timed_out,
  read_chunk, arrive, test_loop, reader_round, end_round, read_round, round_end, deadline_after,
}

-- The session with other bytes, and other counts of them.
abbrev pub reread :
    LuxFrameDecoder → (bytes invalid inactivity : ℕ) → LuxReadSession → LuxReadSession
reread decoder bytes invalid inactivity self = record self {
  decoder = decoder;
  counters = record self.counters {
    bytes_received = bytes;
    invalid_frames = invalid;
    receive_inactivity_timeouts = inactivity;
  };
}

module _ {ℓ} (P : LuxReadSession → Type ℓ)
    (frame-P : (frame : Bytes) (g : ℕ) (clock : Outcome ℕ) (now : ℕ) (self : LuxReadSession)
      → P self
      → P (route_frame frame g clock now self).0)
    (reread-P : (decoder : LuxFrameDecoder) (b i t : ℕ) (self : LuxReadSession)
      → P self
      → P (reread decoder b i t self))
    (failed-P : (g : ℕ) (self : LuxReadSession) → P self → P (reader_failed g self)) where
  route_frames-keeps :
      (frames : List Bytes) (g i : ℕ) (times : ℕ → Outcome ℕ × ℕ) (self : LuxReadSession)
      → P self
      → P (route_frames frames g i times self).0
  unfolding route_frames
  route_frames-keeps [] g i times self p = p
  route_frames-keeps (frame ∷ frames) g i times self p =
      proceed-keeps P (λ t. route_frames frames g (i + 1) times)
        (route_frame frame g (times i).0 (times i).1 self)
        (frame-P frame g (times i).0 (times i).1 self p)
        (λ t s q. route_frames-keeps frames g (i + 1) times s q)

  receive_chunk-keeps :
      (bytes : Bytes) (g : ℕ) (times : ℕ → Outcome ℕ × ℕ) (self : LuxReadSession)
      → P self
      → P (receive_chunk bytes g times self).0
  unfolding receive_chunk route_fed
  receive_chunk-keeps bytes g times self p =
      let counted : LuxReadSession = record self {
        counters = count_bytes (length bytes) self.counters;
      } in
      let start =
        reread-P self.decoder (self.counters.bytes_received + length bytes)
          self.counters.invalid_frames self.counters.receive_inactivity_timeouts self p in
      proceed-keeps P (λ fed. route_fed fed g times) (counted, feed counted.decoder bytes) start
        (λ fed s q. route_frames-keeps fed.1 g 0 times _ (
          reread-P fed.0 s.counters.bytes_received
            (count_malformed s.decoder.malformed_lengths fed.0.malformed_lengths
              s.counters).invalid_frames
            s.counters.receive_inactivity_timeouts s q))

  end_round-keeps :
      (loop : ReaderLoop) (r : LuxReadSession × RoundEnd) → P r.0 → P (end_round loop r)
  unfolding end_round
  end_round-keeps loop (self, goes_on l) p = p
  end_round-keeps loop (self, returns) p = p
  end_round-keeps loop (self, raises e) p =
      elim (is_cancellation e)
        as (λ b. P (if b then self else reader_failed loop.loop_generation self)) [
          | true ↦ p
          | false ↦ failed-P loop.loop_generation self p
        ]

  give_up_partial-keeps : (self : LuxReadSession) → P self → P (give_up_partial self)
  unfolding give_up_partial
  give_up_partial-keeps self p =
      let (decoder, gave_up) = discard_partial self.decoder in
      let c = self.counters in
      elim gave_up
        as (λ b.
          P (record self { decoder = decoder; counters = if b then count_invalid c else c })) [
            | true ↦
                reread-P decoder c.bytes_received (c.invalid_frames + 1)
                  c.receive_inactivity_timeouts self p
            | false ↦
                reread-P decoder c.bytes_received c.invalid_frames c.receive_inactivity_timeouts
                  self p
          ]

  read_timed_out-keeps :
      (loop : ReaderLoop) (now : ℕ) (self : LuxReadSession)
      → P self
      → P (read_timed_out loop now self).0
  unfolding read_timed_out
  read_timed_out-keeps loop now self p =
      elim (Bool-cases (loop.loop_generation == self.generation)) [
        | inr old ↦
            subst P {x = self} {y = (read_timed_out loop now self).0} (ground (arith, old)) p
        | inl current ↦ elim (Bool-cases (is_past loop.receive_deadline now)) [
          | inl past ↦
              subst P
                {x = reread self.decoder self.counters.bytes_received self.counters.invalid_frames
                  (self.counters.receive_inactivity_timeouts + 1) self}
                {y = (read_timed_out loop now self).0} (ground (arith, current, past))
                (reread-P self.decoder self.counters.bytes_received self.counters.invalid_frames
                  (self.counters.receive_inactivity_timeouts + 1) self p)
          | inr early ↦
              subst P {x = give_up_partial self} {y = (read_timed_out loop now self).0}
                (ground (arith, current, early)) (give_up_partial-keeps self p)
        ]
      ]

  round_end-keeps :
      (loop : ReaderLoop) (r : LuxReadSession × Outcome (Unit {0})) → P r.0 → P (round_end loop r).0
  round_end-keeps loop (self, ok t) p = p
  round_end-keeps loop (self, raised e) p = p

  read_chunk-keeps :
      (loop : ReaderLoop) (bytes : Bytes) (times : ℕ → Outcome ℕ × ℕ) (now : ℕ)
      (self : LuxReadSession)
      → P self
      → P (read_chunk loop bytes times now self).0
  unfolding read_chunk
  read_chunk-keeps loop bytes times now self p =
      elim (Bool-cases (loop.loop_generation == self.generation)) [
        | inr old ↦
            subst P {x = self} {y = (read_chunk loop bytes times now self).0} (ground (arith, old))
              p
        | inl current ↦ elim (Bool-cases (is_empty bytes)) [
          | inl over ↦
              subst P {x = self} {y = (read_chunk loop bytes times now self).0}
                (ground (arith, current, over)) p
          | inr some' ↦
              let next : ReaderLoop = record loop {
                receive_deadline = deadline_after self.config.receive_inactivity_timeout now;
              } in
              let r = receive_chunk bytes loop.loop_generation times self in
              subst P {x = (round_end next r).0} {y = (read_chunk loop bytes times now self).0}
                (ground (arith, current, some'))
                (round_end-keeps next r
                  (receive_chunk-keeps bytes loop.loop_generation times self p))
        ]
      ]

  arrive-keeps :
      (loop : ReaderLoop) (arrival : Arrival) (now : ℕ) (self : LuxReadSession)
      → P self
      → P (arrive loop arrival now self).0
  arrive-keeps loop (chunk bytes times) now self p = read_chunk-keeps loop bytes times now self p
  arrive-keeps loop elapsed now self p = read_timed_out-keeps loop now self p
  arrive-keeps loop (breaks e) now self p = p

  test_loop-keeps : (r : LuxReadSession × RoundEnd) → P r.0 → P (test_loop r).0
  unfolding test_loop
  test_loop-keeps (self, goes_on loop) p = p
  test_loop-keeps (self, returns) p = p
  test_loop-keeps (self, raises e) p = p

  reader_round-keeps :
      (loop : ReaderLoop) (arrival : Arrival) (now : ℕ) (self : LuxReadSession)
      → P self
      → P (reader_round loop arrival now self).0
  unfolding reader_round
  reader_round-keeps loop arrival now self p =
      test_loop-keeps (arrive loop arrival now self) (arrive-keeps loop arrival now self p)

  pub read_round-keeps :
      (loop : ReaderLoop) (arrival : Arrival) (now : ℕ) (self : LuxReadSession)
      → P self
      → P (read_round loop arrival now self)
  unfolding read_round
  read_round-keeps loop arrival now self p =
      end_round-keeps loop (reader_round loop arrival now self)
        (reader_round-keeps loop arrival now self p)
