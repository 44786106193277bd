-- ===== src/Decoder/Sync.antt =====
-- A stream that is in step: whole frames, one behind the other, come out as they went in.
use luxpower_ha_integration.Base.{
  ℕ, zero, suc, ◌+◌, ◌<◌, ◌≡◌, refl, ap, ◌∙◌, some, List, [], ◌∷◌, ◌++◌, append_assoc, arith,
  length, length-append, take, take-append, slice-append, All, ok,
}
use luxpower_ha_integration.Packet.Bytes.{Bytes, from_bytes, take-length, drop-length}
use luxpower_ha_integration.Packet.Builder.{prefix}
use luxpower_ha_integration.Packet.Response.{declared_length}
use luxpower_ha_integration.Decoder.{
  LuxFrameDecoder, find_prefix, emit, at_prefix, feed_step, continue, feed_loop, feed,
}
use luxpower_ha_integration.Decoder.Steps.{IsFrame}
use luxpower_ha_integration.Decoder.Cuts.{feed_loop-empty, feed_loop-step}

abbrev pub concat : List Bytes → Bytes
concat [] = []
concat (f ∷ fs) = f ++ concat fs

find_prefix-front : (bytes : Bytes) → take 2 bytes ≡ prefix → find_prefix bytes ≡ some 0
unfolding find_prefix
find_prefix-front [] h = cc
find_prefix-front (a ∷ []) h = cc
find_prefix-front (a ∷ b ∷ rest) h = ground arith

module _ (self : LuxFrameDecoder) (f rest : Bytes) (is_frame : IsFrame self.max_frame_size f)
    (front : self.buffer ≡ f ++ rest) where
  declared-front : declared_length self.buffer ≡ length f
  declared-front =
      let least = is_frame.least in
      ap declared_length front
      ∙ ap (λ b. from_bytes b + 6) (slice-append 4 6 f rest (omega arith) (omega arith))
      ∙ is_frame.declares

  at_prefix-front :
      at_prefix self ≡ ok (emit f (record self { buffer = rest; frames = self.frames + 1 }))
  unfolding at_prefix
  at_prefix-front =
      let least = is_frame.least in
      let most = is_frame.most in
      ground (
        arith,
        declared-front,
        length-append f rest,
        take-length (length f) f rest refl,
        drop-length (length f) f rest refl,
      )

  feed_step-front :
      feed_step self ≡ ok (emit f (record self { buffer = rest; frames = self.frames + 1 }))
  unfolding feed_step
  feed_step-front =
      let least = is_frame.least in
      let starts = ap (take 2) front ∙ take-append 2 f rest (omega arith) ∙ is_frame.starts in
      ground (arith, find_prefix-front self.buffer starts, at_prefix-front)

feed_loop-concat :
    (fuel : ℕ) (self : LuxFrameDecoder) (completed fs : List Bytes)
    → All (IsFrame self.max_frame_size) fs
    → self.buffer ≡ concat fs
    → length (concat fs) < fuel
    → feed_loop fuel self completed
      ≡ ok (record self { buffer = []; frames = self.frames + length fs }, completed ++ fs)
unfolding continue
feed_loop-concat zero self completed fs all e h = absurd (omega arith)
feed_loop-concat (suc fuel) self completed [] all e h =
    feed_loop-empty fuel self completed e ∙ ground arith
feed_loop-concat (suc fuel) self completed ([] ∷ fs) all e h =
    let least = all.0.least in absurd (omega arith)
feed_loop-concat (suc fuel) self completed ((b ∷ bs) ∷ fs) all e h =
    let after = record self { buffer = concat fs; frames = self.frames + 1 } in
    feed_loop-step fuel self completed b (bs ++ concat fs) (emit (b ∷ bs) after) e
      (feed_step-front self (b ∷ bs) (concat fs) all.0 e)
    ∙ feed_loop-concat fuel after (completed ++ (b ∷ bs) ∷ []) fs all.1 refl
        (omega (arith, length-append bs (concat fs)))
    ∙ ground (arith, append_assoc completed ((b ∷ bs) ∷ []) fs)

-- A decoder with an empty buffer returns the frames of a stream of whole frames, in order, counts
-- them, discards nothing and keeps nothing.
pub feed-concat :
    (self : LuxFrameDecoder) (fs : List Bytes)
    → All (IsFrame self.max_frame_size) fs
    → self.buffer ≡ []
    → feed self (concat fs) ≡ ok (record self { buffer = []; frames = self.frames + length fs }, fs)
unfolding feed
feed-concat self fs all e =
    let filled = record self { buffer = self.buffer ++ concat fs } in
    let same : filled.buffer ≡ concat fs = ap (λ b. b ++ concat fs) e in
    feed_loop-concat (suc (length filled.buffer)) filled [] fs all same
      (omega (arith, ap length same))
