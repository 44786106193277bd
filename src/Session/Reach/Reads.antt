-- ===== src/Session/Reach/Reads.antt =====
-- The reads of every reachable session: at most one waits, and what a read returns is what it
-- asked for.
use luxpower_ha_integration.Base.{
  ℕ, ◌<◌, ◌≡◌, refl, sym, ap, subst, ◌∙◌, inl, inr, Bool, true, false, Option, none, some, arith,
  ◌==◌, if◌then◌else◌, Bool-cases, Option-cases, Exception,
}
use luxpower_ha_integration.Base.Dict.{Dict, nat_eq, lookup, lookup-put}
use luxpower_ha_integration.Session.{
  LuxReadObservation, Future, waiting, cancelled, result, failed, PendingRead, LuxReadSession,
  is_connected, is_done, settle_read, settle,
}
use luxpower_ha_integration.Session.Lifecycle.{fail_pending}
use luxpower_ha_integration.Session.Request.{release}

-- What an observation has to be to answer a read.
pub record Answers (p : PendingRead) (o : LuxReadObservation) : Type 0 where
  pub same_start : o.register_start ≡ p.start
  pub same_count : o.register_count ≡ p.count
  pub is_explicit : o.explicit_response ≡ true

module _ (pending : Option ℕ) (requests : Dict ℕ PendingRead) where
  -- The part of a session that concerns its reads.
  pub record ReadsSound (next generation : ℕ) (connected : Bool) : Type 0 where
    pub pending_waits :
        (id : ℕ)
        → pending ≡ some id
        → (p : PendingRead) × (lookup id requests ≡ some p)
          × (p.future ≡ waiting)
          × (p.generation ≡ generation)
          × (connected ≡ true)
    pub waiting_pends :
        (id : ℕ) (p : PendingRead)
        → lookup id requests ≡ some p
        → p.future ≡ waiting
        → pending ≡ some id
    pub results_answer :
        (id : ℕ) (p : PendingRead) (o : LuxReadObservation)
        → lookup id requests ≡ some p
        → p.future ≡ result o
        → Answers p o
    pub numbered : (id : ℕ) (p : PendingRead) → lookup id requests ≡ some p → id < next

-- With no read pending, the generation and the connection may change.
pub idle-ReadsSound :
    (requests : Dict ℕ PendingRead) (next g h : ℕ) (c d : Bool)
    → ReadsSound none requests next g c
    → ReadsSound none requests next h d
idle-ReadsSound requests next g h c d s = record {
  pending_waits = λ id e. cc;
  waiting_pends = s.waiting_pends;
  results_answer = s.results_answer;
  numbered = s.numbered;
}

abbrev settled : Future → Option PendingRead → Option PendingRead
settled f none = none
settled f (some p) = some (settle_read f p)

lookup-settle_self :
    (id : ℕ) (f : Future) (requests : Dict ℕ PendingRead)
    → lookup id (settle id f requests) ≡ settled f (lookup id requests)
unfolding settle
lookup-settle_self id f requests = elim (Option-cases (lookup id requests)) [
  | inl e ↦ ground (arith, e)
  | inr (q, e) ↦ ground (arith, e, lookup-put id id (settle_read f q) requests)
]

lookup-settle_other :
    (id j : ℕ) (f : Future) (requests : Dict ℕ PendingRead)
    → (id == j) ≡ false
    → lookup j (settle id f requests) ≡ lookup j requests
unfolding settle
lookup-settle_other id j f requests other = elim (Option-cases (lookup id requests)) [
  | inl e ↦ ground (arith, e)
  | inr (q, e) ↦ ground (arith, e, lookup-put id j (settle_read f q) requests)
]

-- A request among the settled ones: it was there, and it is the same or has been settled.
data SettledFrom (id j : ℕ) (f : Future) (requests : Dict ℕ PendingRead) (p : PendingRead)
    : Type 0 where
  unchanged : lookup j requests ≡ some p → (id == j) ≡ false → SettledFrom id j f requests p
  was_done : lookup j requests ≡ some p → is_done p.future ≡ true → SettledFrom id j f requests p
  now_done :
      (q : PendingRead)
      → id ≡ j
      → lookup j requests ≡ some q
      → q.future ≡ waiting
      → p ≡ record q { future = f }
      → SettledFrom id j f requests p

pub some-inj : {A : Type 0} {a b : A} → some a ≡ some b → a ≡ b
some-inj h = cc

waiting_of : (f : Future) → is_done f ≡ false → f ≡ waiting
waiting_of waiting h = refl
waiting_of cancelled h = cc
waiting_of (result o) h = cc
waiting_of (failed e) h = cc

settle_read-done : (f : Future) (q : PendingRead) → is_done q.future ≡ true → settle_read f q ≡ q
settle_read-done f q d = ap (λ b. if b then q else record q { future = f }) d

settle_read-waits :
    (f : Future) (q : PendingRead)
    → is_done q.future ≡ false
    → settle_read f q ≡ record q { future = f }
settle_read-waits f q w = ap (λ b. if b then q else record q { future = f }) w

settled-From :
    (id j : ℕ) (f : Future) (requests : Dict ℕ PendingRead) (p q : PendingRead)
    → id ≡ j
    → lookup j requests ≡ some q
    → some p ≡ settled f (some q)
    → SettledFrom id j f requests p
settled-From id j f requests p q same e h = elim (Bool-cases (is_done q.future)) [
  | inl d ↦
      let p_is : p ≡ q = some-inj (h ∙ ap some (settle_read-done f q d)) in
      was_done (e ∙ ap some (sym p_is)) (ap (λ t. is_done t.future) p_is ∙ d)
  | inr w ↦
      now_done q same e (waiting_of q.future w) (some-inj (h ∙ ap some (settle_read-waits f q w)))
]

From-settle :
    (id j : ℕ) (f : Future) (requests : Dict ℕ PendingRead) (p : PendingRead)
    → lookup j (settle id f requests) ≡ some p
    → SettledFrom id j f requests p
From-settle id j f requests p h = elim (Bool-cases (id == j)) [
  | inr other ↦ unchanged (sym (lookup-settle_other id j f requests other) ∙ h) other
  | inl same ↦
      let at_id : id ≡ j = ground arith in
      let h' : lookup id (settle id f requests) ≡ some p =
        subst (λ k. lookup k (settle id f requests) ≡ some p) (sym at_id) h in
      elim (Option-cases (lookup id requests)) [
        | inl e ↦ absurd (ground (arith, e, lookup-settle_self id f requests))
        | inr (q, e) ↦
            settled-From id j f requests p q at_id (subst (λ k. lookup k requests ≡ some q) at_id e)
              (sym h' ∙ lookup-settle_self id f requests ∙ ap (settled f) e)
      ]
]

module _ (pending pending' : Option ℕ) (requests : Dict ℕ PendingRead) (next g : ℕ) (c : Bool) where
  -- A request is settled, and no longer pending if it was.
  settle-ReadsSound :
      (id : ℕ) (f : Future)
      → is_done f ≡ true
      → ((p : PendingRead) (o : LuxReadObservation)
          → lookup id requests ≡ some p
          → f ≡ result o
          → Answers p o)
      → ((j : ℕ) → pending' ≡ some j → (pending ≡ some j) × ((id == j) ≡ false))
      → ((j : ℕ) → pending ≡ some j → (id == j) ≡ false → pending' ≡ some j)
      → ReadsSound pending requests next g c
      → ReadsSound pending' (settle id f requests) next g c
  settle-ReadsSound id f d answers kept keeps s = record {
    pending_waits = λ j e.
        let (before, other) = kept j e in
        let (p, found, waits, of_generation, connected) = s.pending_waits j before in
        (p, lookup-settle_other id j f requests other ∙ found, waits, of_generation, connected);
    waiting_pends = λ j p found waits. elim (From-settle id j f requests p found) [
      | unchanged e other ↦ keeps j (s.waiting_pends j p e waits) other
      | was_done e d' ↦ absurd (ground arith)
      | now_done q same e w eq ↦ absurd (ground (arith, ap (λ t. t.future) eq))
    ];
    results_answer = λ j p o found is. elim (From-settle id j f requests p found) [
      | unchanged e other ↦ s.results_answer j p o e is
      | was_done e d' ↦ s.results_answer j p o e is
      | now_done q same e w eq ↦
          let a =
            answers q o (subst (λ k. lookup k requests ≡ some q) (sym same) e)
              (sym (ap (λ t. t.future) eq) ∙ is) in
          record {
            same_start = a.same_start ∙ sym (ap (λ t. t.start) eq);
            same_count = a.same_count ∙ sym (ap (λ t. t.count) eq);
            is_explicit = a.is_explicit;
          }
    ];
    numbered = λ j p found. elim (From-settle id j f requests p found) [
      | unchanged e other ↦ s.numbered j p e
      | was_done e d' ↦ s.numbered j p e
      | now_done q same e w eq ↦ s.numbered j q e
    ];
  }

abbrev pub SessionReads : LuxReadSession → Type 0
SessionReads self =
    ReadsSound self.pending self.requests self.next_request self.generation (is_connected self)

-- The pending read is settled: answered, rejected, or failed.
pub settle_pending-ReadsSound :
    (requests : Dict ℕ PendingRead) (next g : ℕ) (c : Bool) (id : ℕ) (f : Future)
    → is_done f ≡ true
    → ((p : PendingRead) (o : LuxReadObservation)
        → lookup id requests ≡ some p
        → f ≡ result o
        → Answers p o)
    → ReadsSound (some id) requests next g c
    → ReadsSound none (settle id f requests) next g c
settle_pending-ReadsSound requests next g c id f d answers s =
    settle-ReadsSound (some id) none requests next g c id f d answers (λ j e. cc)
      (λ j e other. absurd (ground arith)) s

-- Once the pending read is failed, the generation and the connection may have changed.
pub fail_pending-Reads :
    (error : Exception) (self : LuxReadSession) (g : ℕ) (c : Bool)
    → ReadsSound self.pending self.requests self.next_request g c
    → SessionReads (fail_pending error self)
unfolding fail_pending
fail_pending-Reads error self g c s =
    let next = self.next_request in
    let h = self.generation in
    let d = is_connected self in
    elim (Option-cases self.pending) [
      | inl e ↦
          let idle =
            idle-ReadsSound self.requests next g h c d
              (subst (λ t. ReadsSound t self.requests next g c) e s) in
          subst SessionReads {x = self} {y = fail_pending error self} (ground (arith, e))
            (subst (λ t. ReadsSound t self.requests next h d) (sym e) idle)
      | inr (id, e) ↦
          let settled' = settle id (failed error) self.requests in
          let settled-Sound =
            settle_pending-ReadsSound self.requests next g c id (failed error) refl
              (λ p o found is. cc) (subst (λ t. ReadsSound t self.requests next g c) e s) in
          subst SessionReads {x = record self { pending = none; requests = settled' }}
            {y = fail_pending error self} (ground (arith, e))
            (idle-ReadsSound settled' next g h c d settled-Sound)
    ]

pub release-Reads :
    (id : ℕ) (self : LuxReadSession) → SessionReads self → SessionReads (release id self)
unfolding release
release-Reads id self s =
    settle-ReadsSound self.pending (release id self).pending self.requests self.next_request
      self.generation (is_connected self) id cancelled refl (λ p o found is. cc)
      (λ j e. elim (Option-cases self.pending) [
        | inl none' ↦ absurd (ground (arith, none'))
        | inr (k, e') ↦ elim (Bool-cases (k == id)) [
          | inl same ↦ absurd (ground (arith, e'))
          | inr other ↦ (ground (arith, e'), ground (arith, e'))
        ]
      ])
      (λ j e other. ground (arith, e)) s
