-- ===== src/Session/Reach/Connections.antt =====
-- Closing, losing and opening a connection, and giving up a read, keep what ReadsSound says of reads.
use luxpower_ha_integration.Base.{
  ℕ, ◌+◌, ◌≡◌, refl, is_cancellation, sym, subst, ◌∙◌, inl, inr, Bool, true, false, Option, none,
  some, [], arith, ◌==◌, if◌then◌else◌, Outcome, ok, raised, Bool-cases, Option-cases,
  connection_lost, session_closed,
}
use luxpower_ha_integration.Base.Dict.{nat_eq, lookup}
use luxpower_ha_integration.Session.{
  LuxReadObservation, Counters, Config, PendingRead, LuxReadSession, is_connected,
}
use luxpower_ha_integration.Session.Lifecycle.{
  new_session, retire_decoder, fail_pending, async_close, reader_failed,
}
use luxpower_ha_integration.Session.Connect.{
  Transport, connect_with, connected_session, async_connect, reconnect_end,
}
use luxpower_ha_integration.Session.Request.{
  ReadEnding, deadline, is_cancelled, io_fails, fails_otherwise, reply, count_timeout, await_future,
  future_of, release, abandon, finish_read, reply_with,
}
use luxpower_ha_integration.Session.Reach.Reads.{
  ReadsSound, SessionReads, fail_pending-Reads, release-Reads, idle-ReadsSound,
}

nothing : (id : ℕ) {p : PendingRead} → lookup {V = PendingRead} id [] ≡ some p → ⊥
unfolding lookup
nothing id h = cc

pub new_session-Reads : (config : Config) → SessionReads (new_session config)
new_session-Reads config = record {
  pending_waits = λ id e. cc;
  waiting_pends = λ id p found waits. absurd (nothing id found);
  results_answer = λ id p o found is. absurd (nothing id found);
  numbered = λ id p found. absurd (nothing id found);
}

pub async_close-Reads :
    (self : LuxReadSession) (g : ℕ) (c : Bool)
    → ReadsSound self.pending self.requests self.next_request g c
    → SessionReads (async_close self)
unfolding async_close retire_decoder
async_close-Reads self g c s =
    fail_pending-Reads session_closed
      (record self {
        has_reader_task = false;
        has_writer = false;
        active_connection_generation = none;
        connection_lost = false;
        generation = self.generation + 1;
      })
      g c s

pub reader_failed-Reads :
    (g : ℕ) (self : LuxReadSession) → SessionReads self → SessionReads (reader_failed g self)
unfolding reader_failed retire_decoder
reader_failed-Reads g self s = elim (Bool-cases (g == self.generation)) [
  | inr old ↦ subst SessionReads {x = self} {y = reader_failed g self} (ground arith) s
  | inl current ↦
      let lost : LuxReadSession = record self {
        has_writer = false;
        has_reader_task = false;
        active_connection_generation = none;
        generation = self.generation + 1;
        connection_lost = true;
        counters = record self.counters { connection_losses = self.counters.connection_losses + 1 };
      } in
      subst SessionReads {x = retire_decoder (fail_pending connection_lost lost)}
        {y = reader_failed g self} (ground arith)
        (fail_pending-Reads connection_lost lost self.generation (is_connected self) s)
]

-- With no read pending, a session may take another generation or connection.
other_connection-Reads :
    (self next : LuxReadSession)
    → self.pending ≡ none
    → next.pending ≡ self.pending
    → next.requests ≡ self.requests
    → next.next_request ≡ self.next_request
    → SessionReads self
    → SessionReads next
other_connection-Reads self next e p r n s =
    subst (λ t. ReadsSound t next.requests next.next_request next.generation (is_connected next))
      (sym (p ∙ e))
      (subst (λ t. ReadsSound none t next.next_request next.generation (is_connected next)) (sym r)
        (subst (λ t. ReadsSound none self.requests t next.generation (is_connected next)) (sym n)
          (idle-ReadsSound self.requests self.next_request self.generation next.generation
            (is_connected self) (is_connected next)
            (subst
              (λ t.
                ReadsSound t self.requests self.next_request self.generation (is_connected self))
              e s))))

-- No read but `id` is pending.
abbrev pub HoldsLock : ℕ → LuxReadSession → Type 0
HoldsLock id self = (other : ℕ) → self.pending ≡ some other → other ≡ id

released_is_idle :
    (id : ℕ) (self : LuxReadSession) → HoldsLock id self → (release id self).pending ≡ none
unfolding release
released_is_idle id self lock = elim (Option-cases self.pending) [
  | inl e ↦ ground (arith, e)
  | inr (other, e) ↦ ground (arith, e, lock other e)
]

abandon-Reads :
    (id : ℕ) (count : Counters → Counters) (self : LuxReadSession)
    → HoldsLock id self
    → SessionReads self
    → SessionReads (abandon id count self)
unfolding abandon release
abandon-Reads id count self lock s =
    other_connection-Reads (release id self) (abandon id count self) (released_is_idle id self lock)
      refl refl refl (release-Reads id self s)

unconnected_is_idle :
    (self : LuxReadSession) → is_connected self ≡ false → SessionReads self → self.pending ≡ none
unconnected_is_idle self c s = elim (Option-cases self.pending) [
  | inl e ↦ e
  | inr (id, e) ↦
      let (p, found, waits, of_generation, connected) = s.pending_waits id e in
      absurd (ground arith)
]

pub async_connect-Reads :
    (connector : Outcome Transport) (self : LuxReadSession)
    → SessionReads self
    → SessionReads (async_connect connector self).0
unfolding async_connect connect_with connected_session
async_connect-Reads connector self s = elim (Bool-cases (is_connected self)) [
  | inl c ↦
      subst SessionReads {x = self} {y = (async_connect connector self).0} (ground (arith, c)) s
  | inr c ↦
      other_connection-Reads self (async_connect connector self).0 (unconnected_is_idle self c s)
        (ground (arith, c)) (ground (arith, c)) (ground (arith, c)) s
]

pub reconnect_end-Reads :
    (g : ℕ) (connector : Outcome Transport) (self : LuxReadSession)
    → SessionReads self
    → SessionReads (reconnect_end g connector self).0
unfolding reconnect_end
reconnect_end-Reads g connector self s = elim (Bool-cases (self.generation == g)) [
  | inr old ↦
      subst SessionReads {x = self} {y = (reconnect_end g connector self).0} (ground (arith, old)) s
  | inl current ↦
      subst SessionReads {x = (async_connect connector self).0}
        {y = (reconnect_end g connector self).0} (ground (arith, current))
        (async_connect-Reads connector self s)
]

abandoned_or_same-Reads :
    (outcome : Option (Outcome LuxReadObservation)) (id : ℕ) (self : LuxReadSession)
    → HoldsLock id self
    → SessionReads self
    → SessionReads (reply_with outcome id self).0
abandoned_or_same-Reads none id self lock s = s
abandoned_or_same-Reads (some (ok o)) id self lock s = s
abandoned_or_same-Reads (some (raised e)) id self lock s =
    elim (is_cancellation e) as (λ b. SessionReads (if b then abandon id (λ c. c) self else self)) [
      | true ↦ abandon-Reads id (λ c. c) self lock s
      | false ↦ s
    ]

pub finish_read-Reads :
    (id : ℕ) (ending : ReadEnding) (self : LuxReadSession)
    → HoldsLock id self
    → SessionReads self
    → SessionReads (finish_read id ending self).0
unfolding finish_read
finish_read-Reads id (deadline true) self lock s = abandon-Reads id (count_timeout true) self lock s
finish_read-Reads id (deadline false) self lock s =
    abandon-Reads id (count_timeout false) self lock s
finish_read-Reads id is_cancelled self lock s = abandon-Reads id (λ c. c) self lock s
finish_read-Reads id io_fails self lock s = abandon-Reads id (count_timeout false) self lock s
finish_read-Reads id fails_otherwise self lock s = abandon-Reads id (λ c. c) self lock s
finish_read-Reads id reply self lock s =
    abandoned_or_same-Reads (await_future (future_of (lookup id self.requests))) id self lock s
