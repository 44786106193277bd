-- ===== src/Decoder/Cuts.antt =====
-- What `feed` does to a byte stream: it cuts the buffered and the new bytes into discarded bytes
-- and frames, in order, and keeps the rest.
use luxpower_ha_integration.Base.{
  ℕ, zero, suc, ◌+◌, ◌≤◌, ◌<◌, ◌≡◌, refl, ap, sym, subst, ◌∙◌, List, [], ◌∷◌, ◌++◌, append_assoc,
  append-nil, arith, inl, inr, List-cases, length, length-drop, length-append, take, drop,
  take-append-drop, length-take, All, ok,
}
use luxpower_ha_integration.Packet.Bytes.{Bytes}
use luxpower_ha_integration.Decoder.{
  LuxFrameDecoder, Step, stop, again, emit, feed_step, continue, feed_loop, feed,
}
use luxpower_ha_integration.Decoder.Steps.{IsFrame, Discards, Emits, Fits, feed_step-Fits}

-- `bytes` splits into the frames, `n` bytes around them, and `rest` at the end.
pub data Cut (rest : Bytes) : (bytes : Bytes) (frames : List Bytes) (n : ℕ) → Type 0 where
  end : Cut rest rest [] 0
  junk :
      (g : Bytes) {b : Bytes} {fs : List Bytes} {n : ℕ}
      → Cut rest b fs n
      → Cut rest (g ++ b) fs (length g + n)
  frame :
      (f : Bytes) {b : Bytes} {fs : List Bytes} {n : ℕ}
      → Cut rest b fs n
      → Cut rest (f ++ b) (f ∷ fs) n

abbrev pub total_length : List Bytes → ℕ
total_length [] = 0
total_length (f ∷ fs) = length f + total_length fs

-- Nothing is lost and nothing is made up.
pub Cut-length :
    {rest bytes : Bytes} {frames : List Bytes} {n : ℕ}
    → Cut rest bytes frames n
    → length bytes ≡ total_length frames + n + length rest
Cut-length end = omega arith
Cut-length (junk g {b} c) = omega (arith, Cut-length c, length-append g b)
Cut-length (frame f {b} c) = omega (arith, Cut-length c, length-append f b)

Cut-drop :
    (k : ℕ) {rest bytes : Bytes} {frames : List Bytes} {n : ℕ}
    → k ≤ length bytes
    → Cut rest (drop k bytes) frames n
    → Cut rest bytes frames (k + n)
Cut-drop k {rest} {bytes} {frames} {n} h c =
    let e : length (take k bytes) + n ≡ k + n = omega (arith, length-take k bytes) in
    subst (λ m. Cut rest bytes frames m) e
      (subst (λ b. Cut rest b frames (length (take k bytes) + n)) (take-append-drop k bytes)
        (junk (take k bytes) c))

-- What a run of the loop from `self` to `after` has done.
pub record Fed (bytes : Bytes) (self : LuxFrameDecoder) (frames : List Bytes)
    (after : LuxFrameDecoder) : Type 0 where
  pub discarded : ℕ
  pub cut : Cut after.buffer bytes frames discarded
  pub counted : after.discarded_bytes ≡ self.discarded_bytes + discarded
  pub frames_counted : after.frames ≡ self.frames + length frames
  pub max : after.max_frame_size ≡ self.max_frame_size
  pub bounded : length after.buffer < self.max_frame_size
  pub are_frames : All (IsFrame self.max_frame_size) frames

Fed-empty :
    (self : LuxFrameDecoder) → 8 ≤ self.max_frame_size → self.buffer ≡ [] → Fed [] self [] self
Fed-empty self big e = record {
  discarded = 0;
  cut = subst (λ b. Cut b [] [] 0) (sym e) end;
  counted = omega arith;
  frames_counted = omega arith;
  max = refl;
  bounded = rw e (omega arith);
  are_frames = tt;
}

module _ {self mid after : LuxFrameDecoder} {frames : List Bytes} (k : ℕ) where
  Fed-again :
      Discards k self mid → Fed mid.buffer mid frames after → Fed self.buffer self frames after
  Fed-again d r = record {
    discarded = k + r.discarded;
    cut = Cut-drop k d.inside (subst (λ b. Cut after.buffer b frames r.discarded) d.buffer r.cut);
    counted = omega (arith, d.counted, r.counted);
    frames_counted = omega (arith, d.frames, r.frames_counted);
    max = r.max ∙ d.max;
    bounded = omega (arith, r.bounded, d.max);
    are_frames = subst (λ m. All (IsFrame m) frames) d.max r.are_frames;
  }

  Fed-emit :
      {f : Bytes}
      → Emits k f self mid
      → Fed mid.buffer mid frames after
      → Fed self.buffer self (f ∷ frames) after
  Fed-emit {f} e r = record {
    discarded = k + r.discarded;
    cut =
        Cut-drop k e.inside
          (subst (λ b. Cut after.buffer b (f ∷ frames) r.discarded) (sym e.buffer) (frame f r.cut));
    counted = omega (arith, e.counted, r.counted);
    frames_counted = omega (arith, e.frames, r.frames_counted);
    max = r.max ∙ e.max;
    bounded = omega (arith, r.bounded, e.max);
    are_frames = (e.is_frame, subst (λ m. All (IsFrame m) frames) e.max r.are_frames);
  }

Fed-stop :
    (k : ℕ) {self after : LuxFrameDecoder}
    → Discards k self after
    → length after.buffer < self.max_frame_size
    → Fed self.buffer self [] after
Fed-stop k {self} {after} d small = record {
  discarded = k + 0;
  cut = Cut-drop k d.inside (subst (λ b. Cut after.buffer b [] 0) d.buffer end);
  counted = omega (arith, d.counted);
  frames_counted = omega (arith, d.frames);
  max = d.max;
  bounded = small;
  are_frames = tt;
}

abbrev Runs : ℕ → LuxFrameDecoder → List Bytes → Type 0
Runs fuel self completed =
    (after : LuxFrameDecoder) × (frames : List Bytes) × (feed_loop fuel self completed
      ≡ ok (after, completed ++ frames))
    × Fed self.buffer self frames after

pub feed_loop-empty :
    (fuel : ℕ) (self : LuxFrameDecoder) (completed : List Bytes)
    → self.buffer ≡ []
    → feed_loop (suc fuel) self completed ≡ ok (self, completed ++ [])
unfolding feed_loop
feed_loop-empty fuel self completed e = ground (arith, append-nil completed)

pub feed_loop-step :
    (fuel : ℕ) (self : LuxFrameDecoder) (completed : List Bytes) (b : ℕ) (bs : Bytes) (s : Step)
    → self.buffer ≡ b ∷ bs
    → feed_step self ≡ ok s
    → feed_loop (suc fuel) self completed ≡ continue (feed_loop fuel) completed s
unfolding feed_loop
feed_loop-step fuel self completed b bs s e q = ground arith

-- One round in front of the runs of the rest of the loop.
module _ (fuel : ℕ) (self : LuxFrameDecoder) (completed : List Bytes)
    (big : 8 ≤ self.max_frame_size) (enough : length self.buffer < suc fuel) (b : ℕ) (bs : Bytes)
    (filled : self.buffer ≡ b ∷ bs)
    (later : (mid : LuxFrameDecoder) (done : List Bytes)
      → 8 ≤ mid.max_frame_size
      → length mid.buffer < fuel
      → Runs fuel mid done) where
  round-Runs : (s : Step) → feed_step self ≡ ok s → Fits self s → Runs (suc fuel) self completed
  unfolding continue
  round-Runs (stop after) q (k, d, small) = (
    after,
    [],
    feed_loop-step fuel self completed b bs (stop after) filled q
        ∙ ap (λ l. ok (after, l)) (sym (append-nil completed)),
    Fed-stop k d small,
  )
  round-Runs (again mid) q (k, d, some') =
      let (after, frames, e, fed) =
        later mid completed (omega (arith, d.max))
          (omega (arith, d.inside, ap length d.buffer, length-drop k self.buffer)) in
      (
        after,
        frames,
        feed_loop-step fuel self completed b bs (again mid) filled q ∙ e,
        Fed-again k d fed,
      )
  round-Runs (emit f mid) q (k, d) =
      let frame = d.is_frame in
      let (after, frames, e, fed) = later mid (completed ++ f ∷ []) (omega (arith, d.max)) (
        omega (
          arith,
          d.inside,
          frame.least,
          ap length d.buffer,
          length-append f mid.buffer,
          length-drop k self.buffer,
        )) in
      (
        after,
        f ∷ frames,
        feed_loop-step fuel self completed b bs (emit f mid) filled q
            ∙ e
            ∙ ap (λ l. ok (after, l)) (append_assoc completed (f ∷ []) frames),
        Fed-emit k d fed,
      )

feed_loop-Fed :
    (fuel : ℕ) (self : LuxFrameDecoder) (completed : List Bytes)
    → 8 ≤ self.max_frame_size
    → length self.buffer < fuel
    → Runs fuel self completed
feed_loop-Fed zero self completed big h = absurd (omega arith)
feed_loop-Fed (suc fuel) self completed big h = elim (List-cases self.buffer) [
  | inl e ↦ (
    self,
    [],
    feed_loop-empty fuel self completed e,
    subst (λ b. Fed b self [] self) (sym e) (Fed-empty self big e),
  )
  | inr (b, bs, e) ↦
      let (s, q, f) = feed_step-Fits self big in
      round-Runs fuel self completed big h b bs e (feed_loop-Fed fuel) s q f
]

-- Feeding any bytes to a decoder raises nothing. The buffered bytes followed by the new ones are
-- cut, in order, into discarded bytes, the frames that are returned, and the bytes kept; the two
-- counters grow by what was discarded and by the number of frames; every frame starts with the
-- prefix and has the length that it declares, within the bounds; and fewer bytes are kept than a
-- frame may have.
pub feed-Fed :
    (self : LuxFrameDecoder) (input : Bytes)
    → 8 ≤ self.max_frame_size
    → (after : LuxFrameDecoder) × (frames : List Bytes) × (feed self input ≡ ok (after, frames))
      × Fed (self.buffer ++ input) self frames after
unfolding feed
feed-Fed self input big =
    let filled = record self { buffer = self.buffer ++ input } in
    let (after, frames, e, fed) =
      feed_loop-Fed (suc (length filled.buffer)) filled [] big (omega arith) in
    (
      after,
      frames,
      e,
      record {
        discarded = fed.discarded;
        cut = fed.cut;
        counted = fed.counted;
        frames_counted = fed.frames_counted;
        max = fed.max;
        bounded = fed.bounded;
        are_frames = fed.are_frames;
      },
    )
