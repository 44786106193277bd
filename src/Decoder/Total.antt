-- ===== src/Decoder/Total.antt =====
-- The decoder never raises: its loops end within their fuel, and every candidate that it hands to
-- the parser is exactly as long as it declares.
use luxpower_ha_integration.Base.{
  ℕ, zero, suc, ◌+◌, ◌-◌, ◌≤◌, ◌<◌, ◌≡◌, inl, inr, Bool, false, ◌&&◌, Option, none, some, [], ◌∷◌,
  arith, length, take, drop, take-append-drop, slice-append, length-take, length-drop, ok,
  Bool-cases, Option-cases, Outcome-cases, ltb, leb,
}
use luxpower_ha_integration.Packet.Bytes.{Bytes}
use luxpower_ha_integration.Packet.Response.{declared_length, parse}
use luxpower_ha_integration.Packet.Response.Parsing.{parse_raises}
use luxpower_ha_integration.Decoder.{
  LuxFrameDecoder, find_prefix, find_from, is_valid_frame, check_candidate, later_frame,
  find_valid_later_frame,
}

-- A prefix that is found has its two bytes inside the buffer.
pub find_prefix-bound :
    (buffer : Bytes) (i : ℕ) → find_prefix buffer ≡ some i → i + 2 ≤ length buffer
unfolding find_prefix
find_prefix-bound [] i h = cc
find_prefix-bound (a ∷ []) i h = cc
find_prefix-bound (a ∷ b ∷ rest) i h = elim (Option-cases (find_prefix (b ∷ rest))) [
  | inl e ↦ ground arith
  | inr (j, e) ↦ ground (arith, find_prefix-bound (b ∷ rest) j e)
]

pub find_from-bound :
    (buffer : Bytes) (start i : ℕ)
    → find_from buffer start ≡ some i
    → (start ≤ i) × (i + 2 ≤ length buffer)
find_from-bound buffer start i h = elim (Option-cases (find_prefix (drop start buffer))) [
  | inl e ↦ ground arith
  | inr (j, e) ↦ ground (arith, find_prefix-bound (drop start buffer) j e, length-drop start buffer)
]

pub declared_length-take :
    (n : ℕ) (rest : Bytes)
    → 6 ≤ n
    → n ≤ length rest
    → declared_length (take n rest) ≡ declared_length rest
declared_length-take n rest h fits =
    let l = length-take n rest in
    ground (arith, take-append-drop n rest, slice-append 4 6 (take n rest) (drop n rest))

pub check_candidate_total :
    (max : ℕ) (rest : Bytes) → (b : Bool) × (check_candidate max rest ≡ ok b)
unfolding check_candidate
check_candidate_total max rest =
    elim (Bool-cases (
      (leb 8 (declared_length rest) && leb (declared_length rest) max)
      && leb (declared_length rest) (length rest))) [
        | inr no' ↦ (false, ground arith)
        | inl fits ↦ elim (Outcome-cases (parse (take (declared_length rest) rest))) [
          | inl (r, e) ↦ (is_valid_frame r, rw (fits, e))
          | inr (e, p) ↦
              let (_, short, long) = parse_raises (take (declared_length rest) rest) e p in
              absurd (
                ground (
                  arith,
                  length-take (declared_length rest) rest,
                  declared_length-take (declared_length rest) rest,
                ))
        ]
      ]

later_frame_total :
    (fuel max : ℕ) (buffer : Bytes) (search_from : ℕ)
    → length buffer < fuel + search_from
    → 0 < fuel
    → (o : Option ℕ) × (later_frame fuel max buffer search_from ≡ ok o)
unfolding later_frame
later_frame_total zero max buffer search_from h p = absurd (omega arith)
later_frame_total (suc fuel) max buffer search_from h p =
    elim (Option-cases (find_from buffer search_from)) [
      | inl e ↦ (none, rw (e, later_frame))
      | inr (c, e) ↦ elim (Bool-cases (ltb (length buffer - c) 6)) [
        | inl short ↦ (none, rw (e, later_frame, short))
        | inr long ↦
            let (from, inside) = find_from-bound buffer search_from c e in
            let (b, checked) = check_candidate_total max (drop c buffer) in
            elim (Bool-cases b) [
              | inl yes' ↦ (some c, rw (e, later_frame, long, checked, yes'))
              | inr no' ↦
                  let (o, later) =
                    later_frame_total fuel max buffer (c + 2) (omega arith) (omega arith) in
                  (o, rw (e, later_frame, long, checked, no') later)
            ]
      ]
    ]

pub find_valid_later_frame_total :
    (self : LuxFrameDecoder) → (o : Option ℕ) × (find_valid_later_frame self ≡ ok o)
unfolding find_valid_later_frame
find_valid_later_frame_total self =
    later_frame_total (suc (length self.buffer)) self.max_frame_size self.buffer 2 (omega arith)
      (omega arith)

later_frame-bound :
    (fuel max : ℕ) (buffer : Bytes) (search_from i : ℕ)
    → later_frame fuel max buffer search_from ≡ ok (some i)
    → (search_from ≤ i) × (i ≤ length buffer)
unfolding later_frame
later_frame-bound zero max buffer search_from i h = cc
later_frame-bound (suc fuel) max buffer search_from i h =
    elim (Option-cases (find_from buffer search_from)) [
      | inl e ↦ ground arith
      | inr (c, e) ↦ ground (
        arith,
        find_from-bound buffer search_from c e,
        later_frame-bound fuel max buffer (c + 2) i,
      )
    ]

-- A later frame that is found starts behind the two bytes of the first prefix.
pub find_valid_later_frame-bound :
    (self : LuxFrameDecoder) (i : ℕ)
    → find_valid_later_frame self ≡ ok (some i)
    → (2 ≤ i) × (i ≤ length self.buffer)
unfolding find_valid_later_frame
find_valid_later_frame-bound self i h =
    later_frame-bound (suc (length self.buffer)) self.max_frame_size self.buffer 2 i h
