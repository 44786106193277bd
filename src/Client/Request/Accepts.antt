-- ===== src/Client/Request/Accepts.antt =====
-- What a request returns comes from an accepted response.
use luxpower_ha_integration.Base.{
  Outcome, ℕ, ◌+◌, ◌*◌, ◌≡◌, ap, sym, subst, ◌∙◌, ◌⊎◌, inl, inr, true, false, not, Option, none,
  some, [], ◌∷◌, ◌++◌, append-nil, arith, ltb, leb, ==_iff, if◌then◌else◌, Bool-cases,
  Outcome-cases, All, In, here, take, length, ok,
}
use luxpower_ha_integration.Base.Dict.{Dict}
use luxpower_ha_integration.Base.Exec.{Exec, lift, proceed-ok, ◌>>=◌, ◌>>◌}
use luxpower_ha_integration.Packet.Bytes.{Bytes, bytes_beq_iff}
use luxpower_ha_integration.Packet.Builder.{prepare_packet_for_read}
use luxpower_ha_integration.Packet.Response.{
  LxpResponse, parse, parsed_values_dictionary, response_overhead,
}
use luxpower_ha_integration.PacketRecovery.{length_value}
use luxpower_ha_integration.PacketRecovery.{PacketRecoveryHandler, async_attempt_recovery}
use luxpower_ha_integration.PacketRecovery.Recovers.{
  AttemptEnds, responds, is_stopped, async_attempt_recovery-Attempted,
}
use luxpower_ha_integration.Validator.{RequestType, time_registers}
use luxpower_ha_integration.Validator.Sane.{Allowed, is_data_sane_iff}
use luxpower_ha_integration.Batteries.{Battery, get_battery_info}
use luxpower_ha_integration.Stream.{Script, received, fails, read}
use luxpower_ha_integration.Client.{Config, Line}
use luxpower_ha_integration.Client.Request.{
  Block, registers, batteries, write, receive, equals, is_serial, accepts, block_of, needs_recovery,
  register_count, recover_if_needed, async_safe_packet_recovery, respond, async_request_registers,
}

-- A response that answers a request, and the block that it gives.
pub record Accepted (config : Config) (reg : ℕ) (request_type : RequestType) (function_code : ℕ)
    (response : LxpResponse) (block : Block) : Type 0 where
  pub error_free : response.packet_error ≡ false
  pub from_inverter : response.serial_number ≡ some config.inverter_serial
  pub same_function : response.device_function ≡ some function_code
  pub same_register : response.register ≡ some reg
  pub sane : All (Allowed (time_registers request_type)) (parsed_values_dictionary response)
  pub block_is :
      (block ≡ registers (parsed_values_dictionary response))
      ⊎ ((d : Dict Bytes Battery) × (get_battery_info response ≡ ok d) × (block ≡ batteries d))

equals-some : (m : ℕ) (o : Option ℕ) → equals m o ≡ true → o ≡ some m
equals-some m none h = cc
equals-some m (some n) h = ap some (sym ((==_iff m n).0 h))

is_serial-some : (o : Option Bytes) (s : Bytes) → is_serial o s ≡ true → o ≡ some s
is_serial-some none s h = cc
is_serial-some (some b) s h = ap some ((bytes_beq_iff b s).0 h)

block_of-Accepted :
    (config : Config) (reg : ℕ) (t : RequestType) (function_code : ℕ) (r : LxpResponse)
    (block : Block)
    → block_of config reg t function_code r ≡ ok block
    → (block ≡ registers []) ⊎ Accepted config reg t function_code r block
block_of-Accepted config reg t function_code r block h =
    elim (Bool-cases (accepts config reg t function_code r)) [
      | inr no' ↦ inl (ground (arith, no'))
      | inl yes' ↦ inr (record {
        error_free = ground arith;
        from_inverter = is_serial-some r.serial_number config.inverter_serial (ground arith);
        same_function = equals-some function_code r.device_function (ground arith);
        same_register = equals-some reg r.register (ground arith);
        sane = (is_data_sane_iff (parsed_values_dictionary r) t).0 (ground arith);
        block_is = elim (Bool-cases (leb 5000 (length_value r.register))) [
          | inr low ↦ inl (ground arith)
          | inl high ↦ elim (Outcome-cases (get_battery_info r)) [
            | inl (d, q) ↦ inr (d, q, ground (arith, q))
            | inr (e, q) ↦ absurd (ground (arith, q))
          ]
        ];
      })
    ]

-- Where a response comes from: what a read has given, and further bytes.
pub record Parsed (stream : Script) (expected_length : ℕ) (response : LxpResponse) : Type 0 where
  pub bytes : Bytes
  pub more : Bytes
  pub answer : In (received bytes) stream
  pub parsed : parse (take expected_length bytes ++ more) ≡ ok response

response_parsed :
    (buf : Bytes) (first response : LxpResponse) (handler : PacketRecoveryHandler) (script : Script)
    (r : PacketRecoveryHandler × Outcome LxpResponse × Script)
    → AttemptEnds buf first handler script r
    → parse buf ≡ ok first
    → r.1 ≡ ok response
    → (more : Bytes) × (parse (buf ++ more) ≡ ok response)
response_parsed buf first response handler script r (responds self' given later attempt) p h =
    let same : given ≡ response = cc in
    elim attempt.response_is [
      | inl e ↦ ([], ap parse (append-nil buf) ∙ p ∙ ap ok (sym e ∙ same))
      | inr (good, (more, e)) ↦ (more, e ∙ ap ok same)
    ]
response_parsed buf first response handler script r (is_stopped e cancels starts) p h = cc

recover-parsed :
    (buf : Bytes) (n : ℕ) (first response : LxpResponse) (line : Line)
    → parse buf ≡ ok first
    → (recover_if_needed buf n first line).1 ≡ ok response
    → (more : Bytes) × (parse (buf ++ more) ≡ ok response)
unfolding async_safe_packet_recovery
recover-parsed buf n first response line p h = elim (Bool-cases (needs_recovery first n)) [
  | inr no' ↦
      let same : first ≡ response = ground (arith, no') in
      ([], ap parse (append-nil buf) ∙ p ∙ ap ok same)
  | inl yes' ↦
      let attempt = async_attempt_recovery line.packet_recovery line.stream buf n in
      response_parsed buf first response line.packet_recovery line.stream attempt
        (async_attempt_recovery-Attempted line.packet_recovery line.stream buf n first p) p
        (ground (arith, h, yes'))
]

respond-cases :
    (config : Config) (reg : ℕ) (t : RequestType) (function_code n : ℕ) (buf : Bytes) (line : Line)
    (block : Block)
    → (respond config reg t function_code n buf line).1 ≡ ok block
    → (block ≡ registers [])
      ⊎ ((response : LxpResponse) × ((more : Bytes) × (parse (buf ++ more) ≡ ok response))
          × Accepted config reg t function_code response block)
respond-cases config reg t function_code n buf line block h =
    elim (Bool-cases (ltb response_overhead (length buf))) [
      | inr short ↦ inl (ground (arith, short))
      | inl long ↦
          let run : Exec Line Block =
            (lift (parse buf) >>= recover_if_needed buf n >>= λ response.
            lift (block_of config reg t function_code response)) in
          let h' : (run line).1 ≡ ok block =
            subst (λ b. ((if not b then (λ s. (s, ok (registers []))) else run) line).1 ≡ ok block)
              long h in
          let (response, q, last) =
            proceed-ok (λ r. lift (block_of config reg t function_code r))
              ((lift (parse buf) >>= recover_if_needed buf n) line) block h' in
          let (first, p, recovered') =
            proceed-ok (recover_if_needed buf n) (line, parse buf) response q in
          elim (block_of-Accepted config reg t function_code response block last) [
            | inl e ↦ inl e
            | inr a ↦ inr (response, recover-parsed buf n first response line p recovered', a)
          ]
    ]

pub read-received :
    (n : ℕ) (stream : Script) (buf : Bytes)
    → (read n stream).0 ≡ ok buf
    → (bytes : Bytes) × In (received bytes) stream × (take n bytes ≡ buf)
unfolding read
read-received n [] buf h = cc
read-received n (fails e ∷ stream) buf h = cc
read-received n (received bytes ∷ stream) buf h = (bytes, here, cc)

-- A request that ends with a value returns nothing, or what an accepted response gives: a packet,
-- of what a read on the connection has given and at most further bytes behind it, that parses without
-- error, comes from the inverter, has the function and the register of the request, and has only
-- values that the sanity check allows.
pub async_request_registers-Accepted :
    (config : Config) (reg : ℕ) (t : RequestType) (function_code : ℕ) (line : Line) (block : Block)
    → (async_request_registers config reg t function_code line).1 ≡ ok block
    → (block ≡ registers [])
      ⊎ ((response : LxpResponse) × Parsed line.stream (37 + register_count config reg * 2) response
          × Accepted config reg t function_code response block)
unfolding async_request_registers write receive
async_request_registers-Accepted config reg t function_code line block h =
    let count = register_count config reg in
    let n = 37 + count * 2 in
    let packet =
      prepare_packet_for_read config.dongle_serial config.inverter_serial reg count function_code in
    let answer = respond config reg t function_code n in
    let (req, p, sent_) =
      proceed-ok (λ req. write req >> receive n >>= answer) (line, packet) block h in
    let (buf, q, last) = proceed-ok answer ((write req >> receive n) line) block sent_ in
    let (bytes, i, e) = read-received n line.stream buf q in
    elim (respond-cases config reg t function_code n buf (((write req >> receive n) line).0) block
      last) [
        | inl nothing ↦ inl nothing
        | inr (response, (more, parsed), a) ↦ inr (
          response,
          record {
            bytes = bytes;
            more = more;
            answer = i;
            parsed = ap (λ b. parse (b ++ more)) e ∙ parsed;
          },
          a,
        )
      ]
