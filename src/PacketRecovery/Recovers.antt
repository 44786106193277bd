-- ===== src/PacketRecovery/Recovers.antt =====
-- PacketRecoveryHandler: the result, the counters, and the number of reads.
use luxpower_ha_integration.Base.{
  ℕ, suc, ◌+◌, ◌-◌, ◌≡◌, refl, ap, subst, sym, ◌∙◌, ◌⊎◌, inl, inr, true, false, ◌||◌, some, [], ◌∷◌,
  ◌++◌, arith, length-append, slice-append, List-cases, take, drop, ltb, leb, Outcome, Exception,
  ok, raised, is_cancellation, Bool-cases, Option-cases, Outcome-cases,
}
use luxpower_ha_integration.Packet.Bytes.{Bytes, from_bytes}
use luxpower_ha_integration.Packet.Response.{LxpResponse, parse}
use luxpower_ha_integration.Decoder.{max_packet_size}
use luxpower_ha_integration.Packet.Response.Calced.{parse-calced, parse-calced_header}
use luxpower_ha_integration.Stream.{Script, received, fails, read}
use luxpower_ha_integration.PacketRecovery.{
  PacketRecoveryHandler, Ending, recovered, failed, stopped, lengths_differ, after_read,
  recovery_loop, conclude, async_attempt_recovery,
}

-- A packet that declares a length keeps it whatever bytes are read behind it.
parse-calced-append :
    (buf more : Bytes) (o r : LxpResponse) (n : ℕ)
    → parse buf ≡ ok o
    → o.packet_length_calced ≡ some n
    → parse (buf ++ more) ≡ ok r
    → r.packet_length_calced ≡ some n
parse-calced-append buf more o r n h e h' =
    let (big, starts, n_is) = parse-calced_header buf o n h e in
    let same = slice-append 4 6 buf more (omega arith) (omega arith) in
    parse-calced (buf ++ more) r h' (omega (arith, length-append buf more))
      (slice-append 0 2 buf more (omega arith) (omega arith) ∙ starts)
    ∙ ap (λ b. some (from_bytes b + 6)) same
    ∙ ap some (sym n_is)

-- A recovered response is what the parser makes of the buffer and further bytes.
abbrev Ends : Bytes → Script → LxpResponse → Ending → Type 0
Ends buf script original (recovered r) =
    (r.packet_error ≡ false) × ((more : Bytes) × (parse (buf ++ more) ≡ ok r))
Ends buf script original (failed o) = o ≡ original
Ends buf script original (stopped e) =
    (is_cancellation e ≡ true) × (script ≡ fails e ∷ drop 1 script)

lengths_differ-same : (n : ℕ) → lengths_differ (some n) (some n) ≡ false
lengths_differ-same n = ground arith

module _ (loop : Bytes → ℕ → LxpResponse → Script → Ending × Script) (acc : Bytes)
    (original : LxpResponse) (script : Script) (r : LxpResponse) where
  after_read-good :
      r.packet_error ≡ false → after_read loop acc original script (ok r) ≡ (recovered r, script)
  unfolding after_read
  after_read-good h = ground arith

  after_read-bad :
      r.packet_error ≡ true
      → lengths_differ r.packet_length_calced original.packet_length_calced ≡ false
      → after_read loop acc original script (ok r) ≡ (failed original, script)
  unfolding after_read
  after_read-bad h same = ground arith

after_read-raised :
    (loop : Bytes → ℕ → LxpResponse → Script → Ending × Script) (acc : Bytes)
    (original : LxpResponse) (script : Script) (e : Exception)
    → after_read loop acc original script (raised e) ≡ (failed original, script)
unfolding after_read
after_read-raised loop acc original script e = refl

module _ (buf : Bytes) (original : LxpResponse) (n : ℕ) (parsed : parse buf ≡ ok original)
    (calced : original.packet_length_calced ≡ some n) where
  -- A round ends the loop, whatever it reads.
  after_read-Ends :
      (loop : Bytes → ℕ → LxpResponse → Script → Ending × Script) (more : Bytes)
      (before script : Script)
      → (ending : Ending) × (after_read loop (buf ++ more) original script (parse (buf ++ more))
          ≡ (ending, script))
        × Ends buf before original ending
  after_read-Ends loop more before script =
      let acc = buf ++ more in
      let on = after_read loop acc original script in
      elim (Outcome-cases (parse acc)) [
        | inr (e, q) ↦
            (failed original, ap on q ∙ after_read-raised loop acc original script e, refl)
        | inl (r, q) ↦
            let same = parse-calced-append buf more original r n parsed calced q in
            elim (Bool-cases r.packet_error) [
              | inl bad ↦
                  let eq : lengths_differ r.packet_length_calced original.packet_length_calced
                      ≡ false =
                    ap (λ m. lengths_differ m original.packet_length_calced) same
                    ∙ ap (lengths_differ (some n)) calced
                    ∙ lengths_differ-same n in
                  (
                    failed original,
                    ap on q ∙ after_read-bad loop acc original script r bad eq,
                    refl,
                  )
              | inr good ↦ (
                recovered r,
                ap on q ∙ after_read-good loop acc original script r good,
                (good, (more, q)),
              )
            ]
      ]

  -- The loop reads once.
  recovery_loop-Ends :
      (left missing : ℕ) (script : Script)
      → (ending : Ending) × (recovery_loop (suc left) buf missing original script
          ≡ (ending, drop 1 script))
        × Ends buf script original ending
  unfolding recovery_loop read
  recovery_loop-Ends left missing [] = (failed original, refl, refl)
  recovery_loop-Ends left missing (fails e ∷ script) = elim (Bool-cases (is_cancellation e)) [
    | inl stops ↦ (stopped e, ground (arith, stops), (stops, refl))
    | inr goes_on ↦ (failed original, ground (arith, goes_on), refl)
  ]
  recovery_loop-Ends left missing (received bytes ∷ script) =
      elim (List-cases (take missing bytes)) [
        | inl e ↦ (failed original, ground arith, refl)
        | inr (b, bs, e) ↦
            let (ending, q, p) =
              after_read-Ends (recovery_loop left) (b ∷ bs) (received bytes ∷ script) script in
            (ending, ground (arith, q), p)
      ]

-- What an attempt gives: the response, what is left to read, and the counters.
abbrev pub started : PacketRecoveryHandler → PacketRecoveryHandler
started self = record self { recovery_attempts_total = self.recovery_attempts_total + 1 }

abbrev Concluded :
    PacketRecoveryHandler → Ending × Script → PacketRecoveryHandler × Outcome LxpResponse × Script
Concluded self (ending, script) =
    ((conclude (started self) ending).0, (conclude (started self) ending).1, script)

module _ (self : PacketRecoveryHandler) (script : Script) (buf : Bytes) (expected_length : ℕ)
    (original : LxpResponse) (parsed : parse buf ≡ ok original) where
  -- An attempt returns the original response at once, or goes through the loop.
  attempt-cases :
      (async_attempt_recovery self script buf expected_length ≡ (self, ok original, script))
      ⊎ ((n : ℕ) × (missing : ℕ) × (original.packet_length_calced ≡ some n)
          × (async_attempt_recovery self script buf expected_length
              ≡ Concluded self (recovery_loop 3 buf missing original script)))
  unfolding async_attempt_recovery
  attempt-cases = elim (Bool-cases original.packet_error) [
    | inr good ↦ inl (ground (arith, parsed))
    | inl bad ↦ elim (Option-cases original.packet_length_calced) [
      | inl e ↦ inl (ground (arith, parsed, e))
      | inr (n, e) ↦ elim (Bool-cases (leb n expected_length || ltb max_packet_size n)) [
        | inl short ↦ inl (ground (arith, parsed, e))
        | inr long ↦ inr (n, n - expected_length, e, ground (arith, parsed, e))
      ]
    ]
  ]

-- What an attempt has done.
pub record Attempted (buf : Bytes) (original : LxpResponse) (self : PacketRecoveryHandler)
    (script : Script) (self' : PacketRecoveryHandler) (response : LxpResponse) (script' : Script)
    : Type 0 where
  pub response_is :
      (response ≡ original)
      ⊎ ((response.packet_error ≡ false) × ((more : Bytes) × (parse (buf ++ more) ≡ ok response)))
  pub reads : (script' ≡ script) ⊎ (script' ≡ drop 1 script)
  pub counted :
      self'.recovery_attempts_total + self.recovery_successes + self.recovery_failures
      ≡ self.recovery_attempts_total + self'.recovery_successes + self'.recovery_failures

-- How an attempt ends: with a response, or with the cancellation of its first read, which is then
-- counted as an attempt alone.
pub data AttemptEnds (buf : Bytes) (original : LxpResponse) (self : PacketRecoveryHandler)
    (script : Script) : PacketRecoveryHandler × Outcome LxpResponse × Script → Type 0 where
  responds :
      (self' : PacketRecoveryHandler) (response : LxpResponse) (script' : Script)
      → Attempted buf original self script self' response script'
      → AttemptEnds buf original self script (self', ok response, script')
  is_stopped :
      (e : Exception)
      → is_cancellation e ≡ true
      → script ≡ fails e ∷ drop 1 script
      → AttemptEnds buf original self script (started self, raised e, drop 1 script)

Concluded-AttemptEnds :
    (self : PacketRecoveryHandler) (buf : Bytes) (original : LxpResponse) (script : Script)
    (ending : Ending)
    → Ends buf script original ending
    → AttemptEnds buf original self script (Concluded self (ending, drop 1 script))
unfolding conclude
Concluded-AttemptEnds self buf original script (recovered r) h =
    let counted = record (started self) { recovery_successes = self.recovery_successes + 1 } in
    responds counted r (drop 1 script)
      (record { response_is = inr h; reads = inr refl; counted = omega arith })
Concluded-AttemptEnds self buf original script (failed o) h =
    let counted = record (started self) { recovery_failures = self.recovery_failures + 1 } in
    responds counted o (drop 1 script)
      (record { response_is = inl h; reads = inr refl; counted = omega arith })
Concluded-AttemptEnds self buf original script (stopped e) (cancels, first) =
    is_stopped e cancels first

-- For a buffer that the parser accepts, an attempt raises nothing unless its read is cancelled, and
-- its response is then the original one for the buffer or an error-free one for the buffer and further
-- bytes; it reads once at most, and each attempt that is counted and not cancelled is counted as a
-- success or as a failure.
pub async_attempt_recovery-Attempted :
    (self : PacketRecoveryHandler) (script : Script) (buf : Bytes) (expected_length : ℕ)
    (original : LxpResponse)
    → parse buf ≡ ok original
    → AttemptEnds buf original self script (async_attempt_recovery self script buf expected_length)
async_attempt_recovery-Attempted self script buf expected_length original parsed =
    elim (attempt-cases self script buf expected_length original parsed) [
      | inl e ↦ subst (AttemptEnds buf original self script) (sym e) (
          responds self original script
            (record { response_is = inl refl; reads = inl refl; counted = omega arith }))
      | inr (n, missing, calced, e) ↦
          let (ending, q, p) = recovery_loop-Ends buf original n parsed calced 2 missing script in
          subst (AttemptEnds buf original self script) (sym (e ∙ ap (Concluded self) q))
            (Concluded-AttemptEnds self buf original script ending p)
    ]
