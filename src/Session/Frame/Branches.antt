-- ===== src/Session/Frame/Branches.antt =====
-- What the branch that a frame takes says of the frame and of the pending read.
use luxpower_ha_integration.Base.{
  ℕ, ◌≡◌, refl, sym, ap, subst, ◌∙◌, inl, inr, Bool, true, false, not, ◌&&◌, Option, none, some,
  arith, ◌==◌, if◌then◌else◌, length, Bool-cases, Option-cases, Outcome, Outcome-cases, Exception,
  ok, raised,
}
use luxpower_ha_integration.Packet.Bytes.{Bytes}
use luxpower_ha_integration.Base.Dict.{Dict, nat_eq, lookup}
use luxpower_ha_integration.Packet.Response.{LxpResponse, parse, parsed_values_dictionary}
use luxpower_ha_integration.Session.{PendingRead, Config, LuxReadSession, at_generation, pending_at}
use luxpower_ha_integration.Session.Frame.{count_frame, follow, route_frame}
use luxpower_ha_integration.Session.Classify.{
  LuxInvalidFrameReason, Route, counts_193, rejects, refuses, accepts, is_193, is_rejection,
  is_acceptable, is_contiguous, invalid_frame_reason, rejection_of, acceptance_of, answered_by,
  classify,
}

-- A block that answers a read is the block that it asks for.
pub record IsAnswer (start : ℕ) (values : Dict ℕ ℕ) (id : ℕ) (p : PendingRead)
    (pending : Option (ℕ × PendingRead)) : Type 0 where
  pub is_pending : pending ≡ some (id, p)
  pub from_start : start ≡ p.start
  pub of_count : length values ≡ p.count

pub answered_by-IsAnswer :
    (start : ℕ) (values : Dict ℕ ℕ) (pending : Option (ℕ × PendingRead)) (id : ℕ) (p : PendingRead)
    → answered_by start (length values) pending ≡ some (id, p)
    → IsAnswer start values id p pending
answered_by-IsAnswer start values none id p h = cc
answered_by-IsAnswer start values (some (j, q)) id p h =
    elim (Bool-cases ((start == q.start) && (length values == q.count))) [
      | inr differs ↦ absurd (ground (arith, differs))
      | inl same ↦
          let pair : ◌≡◌ {A = ℕ × PendingRead} (j, q) (id, p) = ground (arith, same) in
          let q_is : q ≡ p = ap (λ t. t.1) pair in
          record {
            is_pending = ap some pair;
            from_start = ground (arith, same, ap (λ t. t.start) q_is);
            of_count = ground (arith, same, ap (λ t. t.count) q_is);
          }
    ]

at_generation-some :
    (g j : ℕ) (q : PendingRead) (id : ℕ) (p : PendingRead)
    → at_generation g j (some q) ≡ some (id, p)
    → (j ≡ id) × (q ≡ p) × (q.generation ≡ g)
at_generation-some g j q id p h = elim (Bool-cases (q.generation == g)) [
  | inr old ↦ absurd (ground (arith, old))
  | inl current ↦
      let pair : ◌≡◌ {A = ℕ × PendingRead} (j, q) (id, p) = ground (arith, current) in
      (ap (λ t. t.0) pair, ap (λ t. t.1) pair, ground arith)
]

pub pending_at-pending :
    (g : ℕ) (self : LuxReadSession) (id : ℕ) (p : PendingRead)
    → pending_at g self ≡ some (id, p)
    → (self.pending ≡ some id) × (lookup id self.requests ≡ some p) × (p.generation ≡ g)
unfolding pending_at
pending_at-pending g self id p h = elim (Option-cases self.pending) [
  | inl e ↦ absurd (ground (arith, e))
  | inr (j, e) ↦ elim (Option-cases (lookup j self.requests)) [
    | inl f ↦ absurd (ground (arith, e, f))
    | inr (q, f) ↦
        let (same, same_read, of_generation) =
          at_generation-some g j q id p (ground (arith, e, f)) in
        (
          e ∙ ap some same,
          subst (λ k. lookup k self.requests ≡ some p) same (f ∙ ap some same_read),
          sym (ap (λ t. t.generation) same_read) ∙ of_generation,
        )
  ]
]

accepts-inj :
    (r s : ℕ) (us vs : Dict ℕ ℕ) (x y : Option (ℕ × PendingRead))
    → accepts r us x ≡ accepts s vs y
    → (r ≡ s) × (us ≡ vs) × (x ≡ y)
accepts-inj r s us vs x y h = (cc, cc, cc)

-- The shape of `classify`, over the outcomes of its tests.
abbrev chosen :
    (is_193 is_rejection is_acceptable : Bool)
    → ℕ
    → Option ℕ
    → Dict ℕ ℕ
    → Option (ℕ × PendingRead)
    → LuxInvalidFrameReason
    → Route
chosen fc193 rejected acceptable code register values pending reason =
    if fc193
    then counts_193
    else if rejected
    then rejection_of code pending (refuses reason)
    else if not acceptable
    then refuses reason
    else acceptance_of register values pending (refuses reason)

module _ (code : ℕ) (register : Option ℕ) (values : Dict ℕ ℕ) (reason : LuxInvalidFrameReason) where
  chosen-rejects :
      (a b c : Bool) (pending : Option (ℕ × PendingRead)) (id k : ℕ)
      → chosen a b c code register values pending reason ≡ rejects id k
      → (p : PendingRead) × (pending ≡ some (id, p))
  chosen-rejects true b c pending id k h = cc
  chosen-rejects false true c none id k h = cc
  chosen-rejects false true c (some (j, p)) id k h = (p, ground arith)
  chosen-rejects false false false pending id k h = cc
  chosen-rejects false false true pending id k h = elim (Option-cases register) [
    | inl e ↦ absurd (ground (arith, e))
    | inr (r, e) ↦ absurd (ground (arith, e))
  ]

  chosen-accepts :
      (a b c : Bool) (pending : Option (ℕ × PendingRead)) (start : ℕ) (vs : Dict ℕ ℕ)
      (answered : Option (ℕ × PendingRead))
      → chosen a b c code register values pending reason ≡ accepts start vs answered
      → (vs ≡ values)
        × (register ≡ some start)
        × (c ≡ true)
        × (answered ≡ answered_by start (length vs) pending)
  chosen-accepts true b c pending start vs answered h = cc
  chosen-accepts false true c none start vs answered h = cc
  chosen-accepts false true c (some (j, p)) start vs answered h = cc
  chosen-accepts false false false pending start vs answered h = cc
  chosen-accepts false false true pending start vs answered h = elim (Option-cases register) [
    | inl e ↦ absurd (ground (arith, e))
    | inr (r, e) ↦
        let (same, us, answer) =
          accepts-inj r start values vs (answered_by r (length values) pending) answered
            (ap (λ t. acceptance_of t values pending (refuses reason)) (sym e) ∙ h) in
        (
          sym us,
          e ∙ ap some same,
          refl,
          sym answer
              ∙ ap (λ t. answered_by t (length values) pending) same
              ∙ ap (λ t. answered_by start (length t) pending) us,
        )
  ]

module _ (config : Config) (pending : Option (ℕ × PendingRead)) (response : LxpResponse) where
  pub rejects-pending :
      (id code : ℕ)
      → classify config pending response ≡ rejects id code
      → (p : PendingRead) × (pending ≡ some (id, p))
  unfolding classify
  rejects-pending id code h =
      let values = parsed_values_dictionary response in
      chosen-rejects response.exception response.register values
        (invalid_frame_reason config response values (is_contiguous response.register values))
        (is_193 response) (is_rejection config response pending)
        (is_acceptable config response values) pending id code h

  -- An accepted block passes the long test, and answers the pending read if it fits it.
  pub accepts-answer :
      (start : ℕ) (values : Dict ℕ ℕ) (answered : Option (ℕ × PendingRead))
      → classify config pending response ≡ accepts start values answered
      → (values ≡ parsed_values_dictionary response)
        × (response.register ≡ some start)
        × (is_acceptable config response (parsed_values_dictionary response) ≡ true)
        × (answered ≡ answered_by start (length values) pending)
  unfolding classify
  accepts-answer start vs answered h =
      let values = parsed_values_dictionary response in
      chosen-accepts response.exception response.register values
        (invalid_frame_reason config response values (is_contiguous response.register values))
        (is_193 response) (is_rejection config response pending)
        (is_acceptable config response values) pending start vs answered h

-- What a frame of the session's generation does, once it is parsed.
abbrev pub counted_frame : LuxReadSession → LuxReadSession
counted_frame self = record self { counters = count_frame self.counters }

abbrev pub route_of : LxpResponse → LuxReadSession → Route
route_of response self = classify self.config (pending_at self.generation self) response

pub route_frame-current :
    (frame : Bytes) (clock : Outcome ℕ) (now : ℕ) (self : LuxReadSession) (response : LxpResponse)
    → parse frame ≡ ok response
    → route_frame frame self.generation clock now self
      ≡ follow (route_of response self) clock now (counted_frame self)
unfolding route_frame
route_frame-current frame clock now self response f =
    let current : (self.generation == self.generation) ≡ true = ground arith in
    ground (arith, current, f)

pub route_frame-raises :
    (frame : Bytes) (clock : Outcome ℕ) (now : ℕ) (self : LuxReadSession) (e : Exception)
    → parse frame ≡ raised e
    → route_frame frame self.generation clock now self ≡ (counted_frame self, raised e)
unfolding route_frame
route_frame-raises frame clock now self e f =
    let current : (self.generation == self.generation) ≡ true = ground arith in
    ground (arith, current, f)

pub route_frame-old :
    (frame : Bytes) (g : ℕ) (clock : Outcome ℕ) (now : ℕ) (self : LuxReadSession)
    → (g == self.generation) ≡ false
    → route_frame frame g clock now self ≡ (self, ok tt)
unfolding route_frame
route_frame-old frame g clock now self old = ground (arith, old)

-- What the branches keep, the frame keeps: those of a frame of the session's generation, once it is
-- counted and parsed.
module _ {ℓ} (P : LuxReadSession → Type ℓ) (clock : Outcome ℕ) (now : ℕ)
    (self : LuxReadSession) where
  route_current-keeps :
      (frame : Bytes)
      → P (counted_frame self)
      → ((response : LxpResponse)
          → P (follow (route_of response self) clock now (counted_frame self)).0)
      → P (route_frame frame self.generation clock now self).0
  route_current-keeps frame counted followed = elim (Outcome-cases (parse frame)) [
    | inr (e, f) ↦
        subst P {x = counted_frame self} {y = (route_frame frame self.generation clock now self).0}
          (ap (λ t. t.0) (sym (route_frame-raises frame clock now self e f))) counted
    | inl (response, f) ↦
        subst P {x = (follow (route_of response self) clock now (counted_frame self)).0}
          {y = (route_frame frame self.generation clock now self).0}
          (ap (λ t. t.0) (sym (route_frame-current frame clock now self response f)))
          (followed response)
  ]

  pub route_frame-keeps :
      (frame : Bytes) (g : ℕ)
      → P self
      → P (counted_frame self)
      → ((response : LxpResponse)
          → P (follow (route_of response self) clock now (counted_frame self)).0)
      → P (route_frame frame g clock now self).0
  route_frame-keeps frame g same counted followed = elim (Bool-cases (g == self.generation)) [
    | inr old ↦
        subst P {x = self} {y = (route_frame frame g clock now self).0}
          (ap (λ t. t.0) (sym (route_frame-old frame g clock now self old))) same
    | inl current ↦
        let g_is : self.generation ≡ g = ground arith in
        subst (λ h. P (route_frame frame h clock now self).0) g_is
          (route_current-keeps frame counted followed)
  ]
