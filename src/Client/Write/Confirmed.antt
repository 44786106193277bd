-- ===== src/Client/Write/Confirmed.antt =====
-- A write that is reported as done was echoed by the inverter, on a connection of this call.
use luxpower_ha_integration.Base.{
  ℕ, ◌≡◌, refl, ap, sym, subst, ◌∙◌, ◌⊎◌, inl, inr, true, false, Option, none, some, List, [], ◌∷◌,
  arith, ==_iff, if◌then◌else◌, take, drop, In, here, In-drop_one, List-cases, Outcome-cases,
  Outcome, ok, raised, timeout_error,
}
use luxpower_ha_integration.Base.Dict.{nat_eq, lookup}
use luxpower_ha_integration.Base.Exec.{lift, proceed-ok, ◌>>=◌, ◌>>◌}
use luxpower_ha_integration.Packet.Bytes.{Bytes}
use luxpower_ha_integration.Packet.Builder.{prepare_packet_for_write}
use luxpower_ha_integration.Packet.Response.{LxpResponse, parse, parsed_values_dictionary}
use luxpower_ha_integration.Stream.{received, fails, Script, read}
use luxpower_ha_integration.Client.{Cache, Client, Config, Line, World, async_connect}
use luxpower_ha_integration.Client.Request.{write, receive}
use luxpower_ha_integration.Client.Poll.{discard, async_discard_initial_data}
use luxpower_ha_integration.Client.Write.{
  Verdict, confirmed, failed, rejected, judge, echoes, evaluate_write_response, Writing,
  skip_initial_data, exchange, evaluate, reread_if_confirmed, after_exchange, on_line,
  write_connected,
}

-- An acknowledgement of a write: an error-free packet that is no refusal and has the value at the
-- register.
pub record Echoes (buf : Bytes) (register value : ℕ) : Type 0 where
  pub response : LxpResponse
  pub parsed : parse buf ≡ ok response
  pub error_free : response.packet_error ≡ false
  pub no_exception : response.exception ≡ 0
  pub echo : lookup register (parsed_values_dictionary response) ≡ some value

echoes-some : (o : Option ℕ) (v : ℕ) → echoes o v ≡ true → o ≡ some v
echoes-some none v h = cc
echoes-some (some w) v h = ap some ((==_iff w v).0 h)

judge-confirmed :
    (r : LxpResponse) (register value : ℕ)
    → judge r register value ≡ confirmed
    → (r.packet_error ≡ false)
      × (r.exception ≡ 0)
      × (echoes (lookup register (parsed_values_dictionary r)) value ≡ true)
judge-confirmed r register value h = (ground arith, ground arith, ground arith)

evaluate_write_response-confirmed :
    (buf : Bytes) (register value : ℕ) (cache : Cache)
    → (evaluate_write_response buf register value cache).1 ≡ ok confirmed
    → Echoes buf register value
unfolding evaluate_write_response
evaluate_write_response-confirmed [] register value cache h = cc
evaluate_write_response-confirmed (b ∷ bs) register value cache h =
    elim (Outcome-cases (parse (b ∷ bs))) [
      | inr (e, q) ↦ absurd (ground (arith, q))
      | inl (r, q) ↦
          let (good, fine, echo) = judge-confirmed r register value (ground (arith, q)) in
          record {
            response = r;
            parsed = q;
            error_free = good;
            no_exception = fine;
            echo = echoes-some (lookup register (parsed_values_dictionary r)) value echo;
          }
    ]

-- What a stream has given to a read of 76 bytes.
pub Answers : Script → Bytes → Type 0
Answers stream buf = (bytes : Bytes) × In (received bytes) stream × (buf ≡ take 76 bytes)

read-Answers : (stream : Script) (buf : Bytes) → (read 76 stream).0 ≡ ok buf → Answers stream buf
unfolding read Answers
read-Answers [] buf h = cc
read-Answers (fails e ∷ stream) buf h = cc
read-Answers (received bytes ∷ stream) buf h = (bytes, here, cc)

discard-stream : (r : Script × Outcome Bytes) → (discard r).0 ≡ r.0
discard-stream (s, raised timeout_error) = refl
discard-stream (s, raised _) = refl
discard-stream (s, ok []) = refl
discard-stream (s, ok (b ∷ bs)) = refl

read-drop : (n : ℕ) (stream : Script) → (read n stream).1 ≡ drop 1 stream
unfolding read
read-drop n [] = refl
read-drop n (received bytes ∷ stream) = refl
read-drop n (fails e ∷ stream) = refl

async_discard_initial_data-stream :
    (config : Config) (stream : Script)
    → ((async_discard_initial_data config stream).0 ≡ stream)
      ⊎ ((async_discard_initial_data config stream).0 ≡ drop 1 stream)
unfolding async_discard_initial_data
async_discard_initial_data-stream config stream =
    elim config.skip_initial_data
      as (λ b.
        ((if b then discard ((read 300 stream).1, (read 300 stream).0) else (stream, ok tt)).0
          ≡ stream)
        ⊎ ((if b then discard ((read 300 stream).1, (read 300 stream).0) else (stream, ok tt)).0
            ≡ drop 1 stream)) [
              | true ↦
                  inr (
                    discard-stream ((read 300 stream).1, (read 300 stream).0)
                    ∙ read-drop 300 stream)
              | false ↦ inl refl
            ]

Answers-skipped :
    (config : Config) (line : Line) (buf : Bytes)
    → Answers (skip_initial_data config line).0.stream buf
    → Answers line.stream buf
unfolding skip_initial_data Answers
Answers-skipped config line buf (bytes, i, e) =
    elim (async_discard_initial_data-stream config line.stream) [
      | inl same ↦ (bytes, subst (In (received bytes)) same i, e)
      | inr dropped ↦ (bytes, In-drop_one line.stream (subst (In (received bytes)) dropped i), e)
    ]

exchange-Answers :
    (config : Config) (register value : ℕ) (line : Line) (buf : Bytes)
    → (exchange config register value line).1 ≡ ok buf
    → Answers line.stream buf
unfolding exchange write receive
exchange-Answers config register value line buf h =
    let packet =
      prepare_packet_for_write config.dongle_serial config.inverter_serial register value in
    let skipped = skip_initial_data config line in
    let (u, q, later) =
      proceed-ok (λ _. lift packet >>= λ req. write req >> receive 76) skipped buf h in
    let (req, p, last) =
      proceed-ok (λ req. write req >> receive 76) (skipped.0, packet) buf later in
    Answers-skipped config line buf (read-Answers skipped.0.stream buf last)

reread-confirmed :
    (config : Config) (register : ℕ) (verdict : Verdict) (s : Writing)
    → (reread_if_confirmed config register verdict s).1 ≡ ok confirmed
    → verdict ≡ confirmed
reread-confirmed config register confirmed s h = refl
reread-confirmed config register failed s h = cc
reread-confirmed config register rejected s h = cc

after_exchange-confirmed :
    (config : Config) (register value : ℕ) (r : Writing × Outcome Bytes)
    → (after_exchange config register value r).1 ≡ ok confirmed
    → (buf : Bytes) × (r.1 ≡ ok buf) × Echoes buf register value
after_exchange-confirmed config register value (s, raised timeout_error) h = cc
after_exchange-confirmed config register value (s, raised _) h = cc
after_exchange-confirmed config register value (s, ok buf) h =
    let (verdict, q, later) =
      proceed-ok (reread_if_confirmed config register) (evaluate register value buf s) confirmed
        h in
    let is_confirmed =
      reread-confirmed config register verdict (evaluate register value buf s).0 later in
    (
      buf,
      refl,
      evaluate_write_response-confirmed buf register value s.client.cache (q ∙ ap ok is_confirmed),
    )

-- The inverter has echoed a write of a value to a register, on a connection that the world gives.
pub record Echoed (connections : List (Outcome Script)) (register value : ℕ) : Type 0 where
  pub stream : Script
  pub connected : In (ok stream) connections
  pub buf : Bytes
  pub answer : Answers stream buf
  pub echoes_it : Echoes buf register value

pub async_connect-stream :
    (world : World) (stream : Script)
    → (async_connect world).1 ≡ ok stream
    → In (ok stream) world.connections
unfolding async_connect
async_connect-stream world stream h = elim (List-cases world.connections) [
  | inl e ↦ absurd (ground (arith, e))
  | inr (c, cs, e) ↦
      let same : c ≡ ok stream = ground (arith, e) in
      subst (In (ok stream)) (sym e) (subst (λ d. In (ok stream) (d ∷ cs)) (sym same) here)
]

pub write_connected-confirmed :
    (config : Config) (register value : ℕ) (self : Client) (c : World × Outcome Script)
    → (write_connected config register value self c).1 ≡ ok confirmed
    → (stream : Script) × (c.1 ≡ ok stream)
      × (buf : Bytes) × Answers stream buf
      × Echoes buf register value
write_connected-confirmed config register value self (world, raised e) h = absurd (ground arith)
write_connected-confirmed config register value self (world, ok stream) h =
    let line : Line = record {
      packet_recovery = self.packet_recovery;
      stream = stream;
      sent = [];
    } in
    let (buf, q, echoes_it) =
      after_exchange-confirmed config register value
        (on_line (exchange config register value)
          (record { client = self; world = world; line = line }))
        h in
    (stream, refl, buf, exchange-Answers config register value line buf q, echoes_it)
