-- ===== src/Discovery/Model.antt =====
-- A discovered model comes from an error-free packet.
use luxpower_ha_integration.Base.{
  ℕ, ◌≡◌, refl, ap, ◌∙◌, false, List, [], ◌∷◌, arith, is_empty, take, In, inl, inr, Bool-cases,
  Outcome, Exception, ok, raised,
}
use luxpower_ha_integration.Packet.Bytes.{Bytes}
use luxpower_ha_integration.Packet.Builder.{prepare_packet_for_read}
use luxpower_ha_integration.Packet.Response.{LxpResponse, parse, parsed_values_dictionary}
use luxpower_ha_integration.Stream.{Script, received, read}
use luxpower_ha_integration.Client.Request.Accepts.{read-received}
use luxpower_ha_integration.Utils.Texts.{decode_model_from_registers}
use luxpower_ha_integration.Discovery.{
  model, connection_failed, model_of, judge_response, judge_answer, ask,
  get_inverter_model_from_device,
}

-- Where a model comes from.
pub record Reported (stream : Script) (text : List ℕ) : Type 0 where
  pub bytes : Bytes
  pub response : LxpResponse
  pub answer : In (received bytes) stream
  pub parsed : parse (take 512 bytes) ≡ ok response
  pub error_free : response.packet_error ≡ false
  pub text_is : decode_model_from_registers (parsed_values_dictionary response) ≡ text
  pub not_empty : is_empty text ≡ false

model_of-model :
    (cs text : List ℕ) → model_of cs ≡ model text → (cs ≡ text) × (is_empty text ≡ false)
model_of-model [] text h = cc
model_of-model (c ∷ cs) text h = (cc, ground arith)

judge_response-model :
    (o : Outcome LxpResponse) (text : List ℕ)
    → judge_response o ≡ model text
    → (r : LxpResponse) × (o ≡ ok r)
      × (r.packet_error ≡ false)
      × (model_of (decode_model_from_registers (parsed_values_dictionary r)) ≡ model text)
judge_response-model (raised e) text h = cc
judge_response-model (ok r) text h = elim (Bool-cases r.packet_error) [
  | inl bad ↦ absurd (ground (arith, bad))
  | inr good ↦ (r, refl, good, ground (arith, good))
]

failed-no_model : (e : Exception) (text : List ℕ) → connection_failed e ≡ model text → ⊥
failed-no_model e text h = ground arith

judge_answer-model :
    (o : Outcome Bytes) (text : List ℕ)
    → judge_answer o ≡ model text
    → (buf : Bytes) × (o ≡ ok buf) × (judge_response (parse buf) ≡ model text)
judge_answer-model (raised e) text h = absurd (failed-no_model e text h)
judge_answer-model (ok []) text h = cc
judge_answer-model (ok (b ∷ bs)) text h = (b ∷ bs, refl, h)

ask-model :
    (packet : Outcome Bytes) (stream : Script) (text : List ℕ)
    → ask packet stream ≡ model text
    → judge_answer (read 512 stream).0 ≡ model text
ask-model (raised e) stream text h = absurd (failed-no_model e text h)
ask-model (ok req) stream text h = h

-- A discovered model is not empty, and it is the text of registers 7 and 8 of an error-free packet
-- that a read of 512 bytes on the connection has given.
pub get_inverter_model_from_device-Reported :
    (stream : Script) (dongle_serial inverter_serial : Bytes) (text : List ℕ)
    → get_inverter_model_from_device (ok stream) dongle_serial inverter_serial ≡ model text
    → Reported stream text
unfolding get_inverter_model_from_device
get_inverter_model_from_device-Reported stream dongle_serial inverter_serial text h =
    let asked =
      ask-model (prepare_packet_for_read dongle_serial inverter_serial 7 2 3) stream text h in
    let (buf, q, judged) = judge_answer-model (read 512 stream).0 text asked in
    let (bytes, i, e) = read-received 512 stream buf q in
    let (r, p, good, m) = judge_response-model (parse buf) text judged in
    let (same, filled) =
      model_of-model (decode_model_from_registers (parsed_values_dictionary r)) text m in
    record {
      bytes = bytes;
      response = r;
      answer = i;
      parsed = ap parse e ∙ p;
      error_free = good;
      text_is = same;
      not_empty = filled;
    }
