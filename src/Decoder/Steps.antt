-- ===== src/Decoder/Steps.antt =====
-- One round of the decoder's loop: what it takes from the buffer, what it counts, and what it
-- returns.
use luxpower_ha_integration.Base.{
  ℕ, suc, ◌+◌, ◌-◌, ◌≤◌, ◌<◌, ◌≡◌, refl, ap, sym, ◌∙◌, inl, inr, true, false, ◌&&◌, some, [], ◌∷◌,
  ◌++◌, arith, length, take, take-append, drop, take-append-drop, drop-drop, length-take,
  length-drop, ok, Bool-cases, Option-cases, ltb, leb, ◌==◌, if◌then◌else◌,
}
use luxpower_ha_integration.Packet.Bytes.{Bytes}
use luxpower_ha_integration.Packet.Builder.{prefix}
use luxpower_ha_integration.Packet.Response.{declared_length}
use luxpower_ha_integration.Decoder.{
  LuxFrameDecoder, find_prefix, discard, malformed, Step, stop, again, emit, ends_in_a1, no_prefix,
  at_prefix, feed_step,
}
use luxpower_ha_integration.Decoder.Total.{
  find_prefix-bound, find_valid_later_frame_total, find_valid_later_frame-bound,
  declared_length-take,
}

-- A frame: the prefix, the declared length, and a length that the decoder admits.
pub record IsFrame (max : ℕ) (frame : Bytes) : Type 0 where
  pub starts : take 2 frame ≡ prefix
  pub declares : declared_length frame ≡ length frame
  pub least : 8 ≤ length frame
  pub most : length frame ≤ max

-- `n` bytes are taken off the front of the buffer and counted as discarded.
pub record Discards (n : ℕ) (self after : LuxFrameDecoder) : Type 0 where
  pub inside : n ≤ length self.buffer
  pub buffer : after.buffer ≡ drop n self.buffer
  pub counted : after.discarded_bytes ≡ self.discarded_bytes + n
  pub frames : after.frames ≡ self.frames
  pub max : after.max_frame_size ≡ self.max_frame_size

pub record Emits (n : ℕ) (frame : Bytes) (self after : LuxFrameDecoder) : Type 0 where
  pub inside : n ≤ length self.buffer
  pub buffer : drop n self.buffer ≡ frame ++ after.buffer
  pub counted : after.discarded_bytes ≡ self.discarded_bytes + n
  pub frames : after.frames ≡ self.frames + 1
  pub max : after.max_frame_size ≡ self.max_frame_size
  pub is_frame : IsFrame self.max_frame_size frame

abbrev pub Fits : LuxFrameDecoder → Step → Type 0
Fits self (stop after) =
    (n : ℕ) × Discards n self after × (length after.buffer < self.max_frame_size)
Fits self (again after) = (n : ℕ) × Discards n self after × (1 ≤ n)
Fits self (emit frame after) = (n : ℕ) × Emits n frame self after

Discards-discard :
    (n : ℕ) (self : LuxFrameDecoder) → n ≤ length self.buffer → Discards n self (discard n self)
Discards-discard n self h = record {
  inside = h;
  buffer = refl;
  counted = refl;
  frames = refl;
  max = refl;
}

Discards-malformed :
    (n : ℕ) (self : LuxFrameDecoder)
    → n ≤ length self.buffer
    → Discards n self (malformed (discard n self))
Discards-malformed n self h = record {
  inside = h;
  buffer = refl;
  counted = refl;
  frames = refl;
  max = refl;
}

Discards-nothing : (self : LuxFrameDecoder) → Discards 0 self self
Discards-nothing self = record {
  inside = omega arith;
  buffer = refl;
  counted = omega arith;
  frames = refl;
  max = refl;
}

no_prefix-Fits :
    (self : LuxFrameDecoder) → 8 ≤ self.max_frame_size → Fits self (stop (no_prefix self))
unfolding no_prefix
no_prefix-Fits self big =
    let kept : ℕ = if ends_in_a1 self.buffer then 1 else 0 in
    (
      length self.buffer - kept,
      Discards-discard (length self.buffer - kept) self (omega arith),
      ground (arith, length-drop (length self.buffer - kept) self.buffer),
    )

IsFrame-take :
    (self : LuxFrameDecoder)
    → take 2 self.buffer ≡ prefix
    → 8 ≤ declared_length self.buffer
    → declared_length self.buffer ≤ self.max_frame_size
    → declared_length self.buffer ≤ length self.buffer
    → IsFrame self.max_frame_size (take (declared_length self.buffer) self.buffer)
IsFrame-take self starts least most whole =
    let n = declared_length self.buffer in
    let l = length-take n self.buffer in
    record {
      starts =
          sym (take-append 2 (take n self.buffer) (drop n self.buffer) (omega arith))
          ∙ ap (take 2) (take-append-drop n self.buffer)
          ∙ starts;
      declares = declared_length-take n self.buffer (omega arith) whole ∙ omega arith;
      least = omega arith;
      most = omega arith;
    }

-- The declared length is within the decoder's bounds.
at_declared-Fits :
    (self : LuxFrameDecoder)
    → take 2 self.buffer ≡ prefix
    → ltb (length self.buffer) 6 ≡ false
    → (leb 8 (declared_length self.buffer) && leb (declared_length self.buffer) self.max_frame_size)
      ≡ true
    → (s : Step) × (at_prefix self ≡ ok s) × Fits self s
unfolding at_prefix
at_declared-Fits self starts long good =
    elim (Bool-cases (ltb (length self.buffer) (declared_length self.buffer))) [
      | inr whole ↦
          let n = declared_length self.buffer in
          let after = record self { buffer = drop n self.buffer; frames = self.frames + 1 } in
          (
            emit (take n self.buffer) after,
            rw (long, good, whole),
            (
              0,
              record {
                inside = omega arith;
                buffer = sym (take-append-drop n self.buffer);
                counted = omega arith;
                frames = refl;
                max = refl;
                is_frame = IsFrame-take self starts (ground arith) (ground arith) (ground arith);
              },
            ),
          )
      | inl partial ↦
          let (o, found) = find_valid_later_frame_total self in
          elim (Option-cases o) [
            | inl e ↦ (
              stop self,
              rw (long, good, partial, found, e),
              (0, Discards-nothing self, ground arith),
            )
            | inr (i, e) ↦
                let (two, inside) = find_valid_later_frame-bound self i (found ∙ ap ok e) in
                (
                  again (malformed (discard i self)),
                  rw (long, good, partial, found, e),
                  (i, Discards-malformed i self inside, omega arith),
                )
          ]
    ]

at_prefix-Fits :
    (self : LuxFrameDecoder)
    → 8 ≤ self.max_frame_size
    → take 2 self.buffer ≡ prefix
    → (s : Step) × (at_prefix self ≡ ok s) × Fits self s
unfolding at_prefix
at_prefix-Fits self big starts = elim (Bool-cases (ltb (length self.buffer) 6)) [
  | inl short ↦ (stop self, rw short, (0, Discards-nothing self, ground arith))
  | inr long ↦
      elim (Bool-cases (
        leb 8 (declared_length self.buffer)
        && leb (declared_length self.buffer) self.max_frame_size)) [
          | inl good ↦ at_declared-Fits self starts long good
          | inr bad ↦ (
            again (malformed (discard 1 self)),
            rw (long, bad),
            (1, Discards-malformed 1 self (ground arith), omega arith),
          )
        ]
]

module _ (i : ℕ) (self : LuxFrameDecoder) (inside : i ≤ length self.buffer) where
  Discards-behind :
      (n : ℕ) (after : LuxFrameDecoder)
      → Discards n (discard i self) after
      → Discards (i + n) self after
  Discards-behind n after d = record {
    inside = omega (arith, d.inside, length-drop i self.buffer);
    buffer = d.buffer ∙ drop-drop n i self.buffer;
    counted = omega (arith, d.counted);
    frames = d.frames;
    max = d.max;
  }

  -- Bytes discarded in front of a round count with it.
  Fits-discard : (s : Step) → Fits (discard i self) s → Fits self s
  Fits-discard (stop after) (n, d, small) = (i + n, Discards-behind n after d, small)
  Fits-discard (again after) (n, d, some') = (i + n, Discards-behind n after d, omega arith)
  Fits-discard (emit frame after) (n, e) = (
    i + n,
    record {
      inside = omega (arith, e.inside, length-drop i self.buffer);
      buffer = sym (drop-drop n i self.buffer) ∙ e.buffer;
      counted = omega (arith, e.counted);
      frames = e.frames;
      max = e.max;
      is_frame = e.is_frame;
    },
  )

find_prefix-starts :
    (buffer : Bytes) (i : ℕ) → find_prefix buffer ≡ some i → take 2 (drop i buffer) ≡ prefix
unfolding find_prefix
find_prefix-starts [] i h = cc
find_prefix-starts (a ∷ []) i h = cc
find_prefix-starts (a ∷ b ∷ rest) i h = elim (Bool-cases (a == 0xA1 && b == 0x1A)) [
  | inl here ↦ ground arith
  | inr later ↦ elim (Option-cases (find_prefix (b ∷ rest))) [
    | inl e ↦ ground arith
    | inr (j, e) ↦
        let i' : suc j ≡ i = ground arith in
        ap (λ k. take 2 (drop k (a ∷ b ∷ rest))) (sym i') ∙ find_prefix-starts (b ∷ rest) j e
  ]
]

-- Every round of the loop ends without an exception, and takes what `Fits` says.
pub feed_step-Fits :
    (self : LuxFrameDecoder)
    → 8 ≤ self.max_frame_size
    → (s : Step) × (feed_step self ≡ ok s) × Fits self s
unfolding feed_step
feed_step-Fits self big = elim (Option-cases (find_prefix self.buffer)) [
  | inl e ↦ (stop (no_prefix self), rw (e, feed_step), no_prefix-Fits self big)
  | inr (i, e) ↦
      let starts = find_prefix-starts self.buffer i e in
      let inside = find_prefix-bound self.buffer i e in
      elim (Bool-cases (i == 0)) [
        | inl front ↦
            let zero' : i ≡ 0 = ground arith in
            let (s, q, f) =
              at_prefix-Fits self big
                (ap (λ k. take 2 (drop k self.buffer)) (sym zero') ∙ starts) in
            (s, rw (e, feed_step, front) q, f)
        | inr later ↦
            let (s, q, f) = at_prefix-Fits (discard i self) big starts in
            (s, rw (e, feed_step, later) q, Fits-discard i self (omega arith) s f)
      ]
]
