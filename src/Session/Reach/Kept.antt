-- ===== src/Session/Reach/Kept.antt =====
-- Every step of a session keeps what ReadsSound says of its reads.

use luxpower_ha_integration.Base.{
  ℕ, ◌≡◌, refl, sym, ap, subst, ◌∙◌, ◌⊎◌, inl, inr, true, Option, none, some, arith, ◌==◌, Outcome,
  ok, raised, ◌>>=◌, >>=-eq-ok, Bool-cases, Option-cases, Outcome-cases, length, read_rejected,
}
use luxpower_ha_integration.Base.Dict.{Dict, nat_eq, lookup, put, lookup-put}
use luxpower_ha_integration.Packet.Bytes.{Bytes}
use luxpower_ha_integration.Packet.Response.{LxpResponse}
use luxpower_ha_integration.Session.{
  LuxReadObservation, Inputs, Config, waiting, result, failed, PendingRead, LuxReadSession,
  is_connected, pending_at,
}
use luxpower_ha_integration.Session.Frame.{observe, answer, accept, follow, route_frame}
use luxpower_ha_integration.Session.Classify.{
  Route, counts_193, rejects, refuses, accepts, answered_by, classify,
}
use luxpower_ha_integration.Session.Frame.Branches.{
  answered_by-IsAnswer, pending_at-pending, rejects-pending, accepts-answer, counted_frame,
  route_of, route_frame-keeps,
}
use luxpower_ha_integration.Session.Reach.Rounds.{read_round-keeps}
use luxpower_ha_integration.Session.Request.{
  validate_read_range, check_timeouts, read_packet, begin_read, register_read, request_packet,
  ready,
}
use luxpower_ha_integration.Session.Reach.{
  Step, Reachable, connects, closes, reconnects, reads, begins, finishes, delivers, starts, steps,
}
use luxpower_ha_integration.Session.Reach.Reads.{
  Answers, ReadsSound, SessionReads, settle_pending-ReadsSound, some-inj,
}
use luxpower_ha_integration.Session.Reach.Connections.{
  new_session-Reads, async_close-Reads, reader_failed-Reads, async_connect-Reads,
  reconnect_end-Reads, finish_read-Reads,
}

lookup-put_at :
    (n j : ℕ) (p : PendingRead) (requests : Dict ℕ PendingRead)
    → n ≡ j
    → lookup j (put n p requests) ≡ some p
lookup-put_at n j p requests h = ground (arith, lookup-put n j p requests)

From-put :
    (n j : ℕ) (p : PendingRead) (requests : Dict ℕ PendingRead) (q : PendingRead)
    → lookup j (put n p requests) ≡ some q
    → ((n ≡ j) × (q ≡ p)) ⊎ (lookup j requests ≡ some q)
From-put n j p requests q h = elim (Bool-cases (n == j)) [
  | inl same ↦
      let at_n : n ≡ j = ground arith in
      inl (at_n, some-inj (sym h ∙ lookup-put_at n j p requests at_n))
  | inr other ↦ inr (ground (arith, lookup-put n j p requests))
]

register_read-Reads :
    (start count now : ℕ) (packet : Bytes) (self : LuxReadSession)
    → self.pending ≡ none
    → is_connected self ≡ true
    → SessionReads self
    → SessionReads (register_read start count now packet self).0
unfolding register_read
register_read-Reads start count now packet self e c s =
    let p : PendingRead = record {
      start = start;
      count = count;
      generation = self.generation;
      sent_monotonic = now;
      future = waiting;
    } in
    let n = self.next_request in
    let behind = λ (j : ℕ). From-put n j p self.requests in
    record {
      pending_waits = λ id f. (p, lookup-put_at n id p self.requests (ground arith), refl, refl, c);
      waiting_pends = λ id q found waits. elim (behind id q found) [
        | inl (same, is) ↦ ap some same
        | inr older ↦ absurd (ground (arith, s.waiting_pends id q older waits))
      ];
      results_answer = λ id q o found is'. elim (behind id q found) [
        | inl (same, is) ↦ absurd (ground (arith, ap (λ t. t.future) is))
        | inr older ↦ s.results_answer id q o older is'
      ];
      numbered = λ id q found. elim (behind id q found) [
        | inl (same, is) ↦ omega arith
        | inr older ↦ omega (arith, s.numbered id q older)
      ];
    }

ready-ok :
    (self : LuxReadSession) (u : Unit {0})
    → ready self ≡ ok u
    → (self.pending ≡ none) × (is_connected self ≡ true)
unfolding ready
ready-ok self u h = elim (Bool-cases (is_connected self)) [
  | inr lost ↦ absurd (ground (arith, lost))
  | inl connected ↦ elim (Option-cases self.pending) [
    | inl e ↦ (e, connected)
    | inr (id, e) ↦ absurd (ground (arith, connected, e))
  ]
]

-- A packet is only built for a session that is connected and has no pending read.
request_packet-ready :
    (start count : ℕ) (t d r : Option ℕ) (self : LuxReadSession) (packet : Bytes)
    → request_packet start count t d r self ≡ ok packet
    → (self.pending ≡ none) × (is_connected self ≡ true)
request_packet-ready start count t d r self packet h =
    let packet_of = λ (u : Unit {0}). read_packet self.config start count in
    let (a, ra, ha) =
      >>=-eq-ok (validate_read_range start count)
        (λ u. check_timeouts t d r >>= λ v. ready self >>= packet_of) h in
    let (b, rb, hb) = >>=-eq-ok (check_timeouts t d r) (λ v. ready self >>= packet_of) ha in
    let (c, rc, hc) = >>=-eq-ok (ready self) packet_of hb in ready-ok self c rc

begin_read-Reads :
    (start count : ℕ) (t d r : Option ℕ) (now : ℕ) (self : LuxReadSession)
    → SessionReads self
    → SessionReads (begin_read start count t d r now self).0
unfolding begin_read
begin_read-Reads start count t d r now self s =
    elim (Outcome-cases (request_packet start count t d r self)) [
      | inr (e, f) ↦
          subst SessionReads {x = self} {y = (begin_read start count t d r now self).0}
            (ground (arith, f)) s
      | inl (packet, f) ↦
          let (idle, connected) = request_packet-ready start count t d r self packet f in
          subst SessionReads {x = (register_read start count now packet self).0}
            {y = (begin_read start count t d r now self).0} (ground (arith, f))
            (register_read-Reads start count now packet self idle connected s)
    ]

result-inj : {o o' : LuxReadObservation} → result o ≡ result o' → o ≡ o'
result-inj h = cc

observed-Answers :
    (start : ℕ) (values : Dict ℕ ℕ) (at : ℕ) (inputs : Inputs) (p q : PendingRead)
    (o : LuxReadObservation)
    → start ≡ p.start
    → length values ≡ p.count
    → p ≡ q
    → observe start values true at inputs ≡ o
    → Answers q o
unfolding observe
observed-Answers start values at inputs p q o from_start of_count same_read same_answer = record {
  same_start =
      sym (ap (λ t. t.register_start) same_answer) ∙ from_start ∙ ap (λ t. t.start) same_read;
  same_count =
      sym (ap (λ t. t.register_count) same_answer) ∙ of_count ∙ ap (λ t. t.count) same_read;
  is_explicit = sym (ap (λ t. t.explicit_response) same_answer);
}

accept-Reads :
    (start : ℕ) (values : Dict ℕ ℕ) (answered : Option (ℕ × PendingRead)) (clock : Outcome ℕ)
    (now : ℕ) (self : LuxReadSession)
    → answered ≡ answered_by start (length values) (pending_at self.generation self)
    → SessionReads self
    → SessionReads (accept start values answered clock now self).0
unfolding accept answer
accept-Reads start values answered (raised e) now self h s = s
accept-Reads start values none (ok at) now self h s = s
accept-Reads start values (some (id, p)) (ok at) now self h s =
    let a = answered_by-IsAnswer start values (pending_at self.generation self) id p (sym h) in
    let (is_pending, found, of_generation) =
      pending_at-pending self.generation self id p a.is_pending in
    let o = observe start values true at self.inputs in
    settle_pending-ReadsSound self.requests self.next_request self.generation (is_connected self) id
      (result o) refl
      (λ q o' found' is.
        let same_read : p ≡ q = some-inj (sym found ∙ found') in
        let same_answer : o ≡ o' = result-inj is in
        observed-Answers start values at self.inputs p q o' a.from_start a.of_count same_read
          same_answer)
      (subst (λ t. ReadsSound t self.requests self.next_request self.generation (is_connected self))
        is_pending s)

follow-Reads :
    (response : LxpResponse) (clock : Outcome ℕ) (now : ℕ) (self : LuxReadSession)
    → SessionReads self
    → (route : Route) → classify self.config (pending_at self.generation self) response ≡ route
    → SessionReads (follow route clock now self).0
unfolding follow
follow-Reads response clock now self s counts_193 h = s
follow-Reads response clock now self s (refuses reason) h = s
follow-Reads response clock now self s (rejects id code) h =
    let (p, e) = rejects-pending self.config (pending_at self.generation self) response id code h in
    let (is_pending, found, of_generation) = pending_at-pending self.generation self id p e in
    settle_pending-ReadsSound self.requests self.next_request self.generation (is_connected self) id
      (failed (read_rejected code)) refl (λ q o found' is. cc)
      (subst (λ t. ReadsSound t self.requests self.next_request self.generation (is_connected self))
        is_pending s)
follow-Reads response clock now self s (accepts start values answered) h =
    let (same_values, at_start, acceptable, answer_is) =
      accepts-answer self.config (pending_at self.generation self) response start values answered
        h in
    accept-Reads start values answered clock now self answer_is s

route_frame-Reads :
    (frame : Bytes) (g : ℕ) (clock : Outcome ℕ) (now : ℕ) (self : LuxReadSession)
    → SessionReads self
    → SessionReads (route_frame frame g clock now self).0
unfolding pending_at
route_frame-Reads frame g clock now self s =
    route_frame-keeps SessionReads clock now self frame g s s (λ response.
      follow-Reads response clock now (counted_frame self) s (route_of response self) refl)

step-Reads : {self next : LuxReadSession} → Step self next → SessionReads self → SessionReads next
step-Reads {self} (connects connector) s = async_connect-Reads connector self s
step-Reads {self} closes s = async_close-Reads self self.generation (is_connected self) s
step-Reads {self} (reconnects g connector) s = reconnect_end-Reads g connector self s
step-Reads {self} (reads loop arrival now) s =
    read_round-keeps SessionReads route_frame-Reads (λ decoder b i t self' s'. s')
      reader_failed-Reads loop arrival now self s
step-Reads {self} (begins start count t d r now) s = begin_read-Reads start count t d r now self s
step-Reads {self} (finishes id ending lock) s = finish_read-Reads id ending self lock s
step-Reads (delivers subscriptions) s = s

-- In every session that comes about, the pending read waits, was sent under the current connection
-- generation and has a connection; every read that waits is the pending one, so that at most one
-- waits and none waits once the session has lost or closed its connection; and a read that got an
-- observation got the explicit response for exactly the registers that it asked for.
pub Reachable-Reads :
    (config : Config) {self : LuxReadSession} → Reachable config self → SessionReads self
Reachable-Reads config starts = new_session-Reads config
Reachable-Reads config (steps before step) = step-Reads step (Reachable-Reads config before)
