-- ===== src/Client/Poll/Requested.antt =====
-- The requests of a poll for the settings: each register once, in blocks.
use luxpower_ha_integration.Base.{
  ℕ, ◌+◌, ◌-◌, ◌*◌, ◌≤◌, ◌≡◌, refl, sym, ap, subst, ◌∙◌, inl, inr, true, false, List, [], ◌∷◌, ◌++◌,
  append-nil, append_assoc, arith, min, not, ltb, if◌then◌else◌, length, Outcome, ok, raised,
  Outcome-cases,
}
use luxpower_ha_integration.Base.Dict.{Dict}
use luxpower_ha_integration.Base.Exec.{
  Exec, for_each, lift, return, proceed, proceed-ok, proceed-keeps, ◌>>◌,
}
use luxpower_ha_integration.Packet.Bytes.{Bytes}
use luxpower_ha_integration.Packet.Builder.{prepare_packet_for_read}
use luxpower_ha_integration.Packet.Response.{LxpResponse, parse, response_overhead}
use luxpower_ha_integration.Validator.{RequestType, hold}
use luxpower_ha_integration.Client.{Config, Line, total_registers, require_aware_utc}
use luxpower_ha_integration.Client.Request.{
  Block, registers, write, receive, register_count, needs_recovery, recover_if_needed,
  async_safe_packet_recovery, respond, block_of, async_request_registers,
}
use luxpower_ha_integration.Client.Pass.{
  Pass, request, observed_now, accept_hold, register_block, poll_hold_block,
}
use luxpower_ha_integration.Client.Pass.Blocks.{Tiles, range-Tiles}
use luxpower_ha_integration.Client.Poll.{poll_settings, on_cadence}

-- The packets ask for the registers from `start` on to the last of the 750, none twice, in blocks of
-- one register at least and no more than the configured number.
abbrev pub Asks : Config → (function_code start : ℕ) → List Bytes → Type 0
Asks config function_code start [] = start ≡ 750
Asks config function_code start (packet ∷ packets) =
    (count : ℕ) × (1 ≤ count)
    × (count ≤ config.block_size)
    × (prepare_packet_for_read config.dongle_serial config.inverter_serial start count function_code
        ≡ ok packet)
    × Asks config function_code (start + count) packets

proceed-goes_on :
    {S A B : Type 0} (f : A → Exec S B) (r : S × Outcome A) (a : A)
    → r.1 ≡ ok a
    → proceed f r ≡ f a r.0
proceed-goes_on f (s, ok b) a h = let same : b ≡ a = cc in ap (λ x. f x s) same
proceed-goes_on f (s, raised e) a h = cc

module _ (sent : List Bytes) where
  abbrev HasSent : Line → Type 0
  HasSent line = line.sent ≡ sent

  recover-HasSent :
      (buf : Bytes) (n : ℕ) (line : Line)
      → HasSent line
      → HasSent (async_safe_packet_recovery buf n line).0
  unfolding async_safe_packet_recovery
  recover-HasSent buf n line h = h

  recover_if_needed-HasSent :
      (buf : Bytes) (n : ℕ) (first : LxpResponse) (line : Line)
      → HasSent line
      → HasSent (recover_if_needed buf n first line).0
  recover_if_needed-HasSent buf n first line h =
      elim (needs_recovery first n)
        as (λ b. HasSent ((if b then async_safe_packet_recovery buf n else return first) line).0) [
          | true ↦ recover-HasSent buf n line h
          | false ↦ h
        ]

  respond-HasSent :
      (config : Config) (reg : ℕ) (t : RequestType) (function_code n : ℕ) (buf : Bytes)
      (line : Line)
      → HasSent line
      → HasSent (respond config reg t function_code n buf line).0
  respond-HasSent config reg t function_code n buf line h =
      let parsed = proceed (recover_if_needed buf n) (line, parse buf) in
      let last : LxpResponse → Exec Line Block =
        λ r. lift (block_of config reg t function_code r) in
      elim (ltb response_overhead (length buf))
        as (λ b.
          HasSent
            ((if not b then return (registers []) else λ s.
                proceed last (proceed (recover_if_needed buf n) (s, parse buf)))
              line).0) [
                | false ↦ h
                | true ↦
                    proceed-keeps HasSent last parsed
                      (proceed-keeps HasSent (recover_if_needed buf n) (line, parse buf) h
                        (λ first s k. recover_if_needed-HasSent buf n first s k))
                      (λ r s k. k)
              ]

module _ (config : Config) (reg : ℕ) (t : RequestType) (function_code : ℕ) where
  async_request_registers-sent :
      (line : Line) (block : Block)
      → (async_request_registers config reg t function_code line).1 ≡ ok block
      → (packet : Bytes) × (prepare_packet_for_read config.dongle_serial config.inverter_serial reg
            (register_count config reg)
            function_code
          ≡ ok packet)
        × ((async_request_registers config reg t function_code line).0.sent
            ≡ line.sent ++ packet ∷ [])
  unfolding async_request_registers write receive
  async_request_registers-sent line block h =
      let count = register_count config reg in
      let expected_length = response_overhead + count * 2 in
      elim (Outcome-cases (
        prepare_packet_for_read config.dongle_serial config.inverter_serial reg count
          function_code)) [
            | inr (e, q) ↦ absurd (ground (arith, q, h))
            | inl (packet, q) ↦
                let asked : Line = record line { sent = line.sent ++ packet ∷ [] } in
                let got = receive expected_length asked in
                let answered = proceed (respond config reg t function_code expected_length) got in
                let keeps : answered.0.sent ≡ line.sent ++ packet ∷ [] =
                  proceed-keeps (HasSent (line.sent ++ packet ∷ []))
                    (respond config reg t function_code expected_length) got refl
                    (λ buf s k.
                      respond-HasSent (line.sent ++ packet ∷ []) config reg t function_code
                        expected_length buf s k) in
                (packet, q, rw q keeps)
          ]

accept_hold-sent : (d : Dict ℕ ℕ) (self : Pass) → (accept_hold d self).0.line.sent ≡ self.line.sent
unfolding accept_hold observed_now
accept_hold-sent [] self = refl
accept_hold-sent (entry ∷ entries) self =
    elim (Outcome-cases (require_aware_utc (self.world.clock self.world.ticks))) [
      | inl (at, q) ↦ ground (arith, q)
      | inr (e, q) ↦ ground (arith, q)
    ]

module _ (config : Config) where
  poll_hold_block-sent :
      (reg : ℕ) (self : Pass)
      → (poll_hold_block config reg self).1 ≡ ok tt
      → (packet : Bytes) × (prepare_packet_for_read config.dongle_serial config.inverter_serial reg
            (register_count config reg)
            3
          ≡ ok packet)
        × ((poll_hold_block config reg self).0.line.sent ≡ self.line.sent ++ packet ∷ [])
  unfolding poll_hold_block request
  poll_hold_block-sent reg self h =
      let (block, q, last) =
        proceed-ok (λ block. accept_hold (register_block block)) (request config reg hold 3 self) tt
          h in
      let (packet, built, sent) =
        async_request_registers-sent config reg hold 3 self.line block q in
      (packet, built, rest_sent (request config reg hold 3 self) ∙ sent)
    where
      rest_sent :
          (r : Pass × Outcome Block)
          → (proceed (λ block. accept_hold (register_block block)) r).0.line.sent ≡ r.0.line.sent
      rest_sent (s, ok block) = accept_hold-sent (register_block block) s
      rest_sent (s, raised e) = refl

  for_each-Asks :
      (start : ℕ) (regs : List ℕ) (self : Pass)
      → 1 ≤ config.block_size
      → Tiles start 750 config.block_size regs
      → (for_each regs (poll_hold_block config) self).1 ≡ ok tt
      → (packets : List Bytes) × ((for_each regs (poll_hold_block config) self).0.line.sent
          ≡ self.line.sent ++ packets)
        × Asks config 3 (min start 750) packets
  unfolding for_each
  for_each-Asks start [] self pos past h =
      ([], sym (append-nil self.line.sent), omega (arith, past))
  for_each-Asks start (reg ∷ regs) self pos (same, below, later) h =
      let body = poll_hold_block config reg in
      let (t, q, last) =
        proceed-ok (λ _. for_each regs (poll_hold_block config)) (body self) tt h in
      let (packet, built, sent) = poll_hold_block-sent reg self q in
      let (packets, sent', asks) =
        for_each-Asks (start + config.block_size) regs (body self).0 pos later last in
      let count = register_count config reg in
      let here' : reg ≡ min start 750 = omega (arith, same, below) in
      let counted : count ≡ min config.block_size (750 - start) = ground (arith, same, below) in
      (
        packet ∷ packets,
        ap (λ r. r.0.line.sent)
              (proceed-goes_on (λ _. for_each regs (poll_hold_block config)) (body self) t q)
            ∙ sent'
            ∙ ap (λ p. p ++ packets) sent
            ∙ append_assoc self.line.sent (packet ∷ []) packets,
        (
          count,
          omega (arith, counted, below, pos),
          omega (arith, counted),
          subst
              (λ r.
                prepare_packet_for_read config.dongle_serial config.inverter_serial r count 3
                ≡ ok packet)
              here' built,
          subst (λ n. Asks config 3 n packets) (omega (arith, counted, below)) asks,
        ),
      )

-- When a pass over the settings ends without an exception, it has asked, with function 3, for each of
-- the 750 registers once and in order, in blocks of one register at least and of no more registers
-- than configured, for any block size but zero.
pub poll_settings-Asks :
    (config : Config) (self : Pass)
    → 1 ≤ config.block_size
    → (poll_settings config true self).1 ≡ ok tt
    → (packets : List Bytes) × ((poll_settings config true self).0.line.sent
        ≡ self.line.sent ++ packets)
      × Asks config 3 0 packets
unfolding poll_settings
poll_settings-Asks config self pos h =
    let (regs, q, tiles) = range-Tiles 0 total_registers config.block_size pos in
    let count_poll : Unit {0} → Exec Pass (Unit {0}) =
      λ _. on_cadence (λ c. record c { hold_polls = c.hold_polls + 1 }) in
    let run : List ℕ → Exec Pass (Unit {0}) =
      λ regs'. for_each regs' (poll_hold_block config) >> count_poll tt in
    let h' : (run regs self).1 ≡ ok tt = subst (λ m. (proceed run (self, m)).1 ≡ ok tt) q h in
    let polled = for_each regs (poll_hold_block config) self in
    let (t, done, last) = proceed-ok count_poll polled tt h' in
    let (packets, sent, asks) = for_each-Asks config 0 regs self pos tiles done in
    (
      packets,
      ap (λ m. (proceed run (self, m)).0.line.sent) q
          ∙ ap (λ r. r.0.line.sent) (proceed-goes_on count_poll polled t done)
          ∙ sent,
      asks,
    )
