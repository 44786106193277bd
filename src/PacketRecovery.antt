-- ===== src/PacketRecovery.antt =====
-- classes/packet_recovery.py: reading on after a packet that is cut short. The `except` clauses
-- of the loop end it on every exception of a read or of the parser but a cancellation, which passes.
pub mod Recovers
use luxpower_ha_integration.Base.{
  ℕ, zero, suc, ◌+◌, ◌-◌, Bool, true, false, not, ◌&&◌, ◌||◌, Option, none, some, List, [], ◌∷◌,
  ◌++◌, ltb, leb, ◌==◌, if◌then◌else◌, length, Outcome, Exception, ok, raised, is_cancellation,
  out_of_fuel,
}
use luxpower_ha_integration.Packet.Bytes.{Bytes}
use luxpower_ha_integration.Packet.Response
use luxpower_ha_integration.Packet.Response.{LxpResponse, parse}
use luxpower_ha_integration.Decoder.{max_packet_size}
use luxpower_ha_integration.Stream.{Script, read}

-- MAX_PACKET_RECOVERY_ATTEMPTS of const.py.
abbrev pub max_packet_recovery_attempts : ℕ
max_packet_recovery_attempts = 3

pub record PacketRecoveryHandler : Type 0 where
  pub recovery_attempts_total : ℕ
  pub recovery_successes : ℕ
  pub recovery_failures : ℕ

abbrev pub fresh_handler : PacketRecoveryHandler
fresh_handler = record {
  recovery_attempts_total = 0;
  recovery_successes = 0;
  recovery_failures = 0;
}

-- `packet_length_calced <= n`, where `none` is -1.
abbrev pub length_le : Option ℕ → ℕ → Bool
length_le none n = true
length_le (some m) n = leb m n

-- `a != b` of two packet lengths.
abbrev pub lengths_differ : Option ℕ → Option ℕ → Bool
lengths_differ none none = false
lengths_differ (some m) (some n) = not (m == n)
lengths_differ _ _ = true

-- A packet length as a number, used only behind tests that -1 does not pass.
abbrev pub length_value : Option ℕ → ℕ
length_value none = 0
length_value (some m) = m

-- What the loop ends with.
pub data Ending : Type 0 where
  recovered failed : LxpResponse → Ending
  stopped : Exception → Ending

-- new_missing > 0 and new_missing <= MAX_PACKET_SIZE - len(accumulated), for the integer
-- new_missing = calced - len(accumulated).
abbrev pub can_go_on : Option ℕ → ℕ → Bool
can_go_on none n = false
can_go_on (some m) n = ltb n m && leb m max_packet_size

-- The part of a round behind a read that gave bytes, over the rest of the loop.
pub after_read :
    (Bytes → ℕ → LxpResponse → Script → Ending × Script)
    → (accumulated : Bytes) → (original : LxpResponse) → Script
    → Outcome LxpResponse
    → Ending × Script
after_read loop accumulated original script (raised e) = (failed original, script)
after_read loop accumulated original script (ok response) =
    let missing = length_value response.packet_length_calced - length accumulated in
    let rest = loop accumulated missing response script in
    if not response.packet_error
    then (recovered response, script)
    else if lengths_differ response.packet_length_calced original.packet_length_calced
        && can_go_on response.packet_length_calced (length accumulated)
    then rest
    else (failed original, script)

-- `except asyncio.TimeoutError` and `except Exception`, of a read
abbrev pub ended_by : Exception → LxpResponse → Ending
ended_by e original = if is_cancellation e then stopped e else failed original

-- The loop, with the number of attempts that are left.
pub recovery_loop : (left : ℕ) → Bytes → ℕ → LxpResponse → Script → Ending × Script
recovery_loop zero accumulated missing original script = (failed original, script)
recovery_loop (suc left) accumulated missing original script =
    let (outcome, script') = read missing script in
    elim outcome [
      | raised e ↦ (ended_by e original, script')
      | ok new_data ↦ elim new_data [
        | [] ↦ (failed original, script')
        | b ∷ bs ↦
            after_read (recovery_loop left) (accumulated ++ b ∷ bs) original script'
              (parse (accumulated ++ b ∷ bs))
      ]
    ]

-- The counters and the result at the end of the loop.
pub conclude : PacketRecoveryHandler → Ending → PacketRecoveryHandler × Outcome LxpResponse
conclude self (recovered response) =
    (record self { recovery_successes = self.recovery_successes + 1 }, ok response)
conclude self (failed original) =
    (record self { recovery_failures = self.recovery_failures + 1 }, ok original)
conclude self (stopped e) = (self, raised e)

-- async_attempt_recovery. `missing_bytes <= 0` cannot hold where the source tests it, behind
-- `packet_length_calced <= expected_length`; it is written out all the same.
pub async_attempt_recovery :
    PacketRecoveryHandler
    → Script
    → (response_buf : Bytes) (expected_length : ℕ)
    → PacketRecoveryHandler × Outcome LxpResponse × Script
async_attempt_recovery self script response_buf expected_length = elim (parse response_buf) [
  | raised e ↦ (self, raised e, script)
  | ok original ↦
      if not original.packet_error || length_le original.packet_length_calced expected_length
      then (self, ok original, script)
      else let calced = length_value original.packet_length_calced in
        let missing = calced - expected_length in
        if leb missing 0
        then (self, ok original, script)
        else if ltb max_packet_size calced
        then (self, ok original, script)
        else if ltb max_packet_size (missing + expected_length)
        then (self, ok original, script)
        else let started = record self {
          recovery_attempts_total = self.recovery_attempts_total + 1;
        } in
          let (ending, script') =
            recovery_loop max_packet_recovery_attempts response_buf missing original script in
          let (self', outcome) = conclude started ending in (self', outcome, script')
]

-- Named on the `unfolding` line of a test, this opens the handler and the parser.
unfoldable pub program : Unit {0}
unfolding Response.program read after_read recovery_loop conclude async_attempt_recovery
program = tt
