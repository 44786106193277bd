-- ===== src/Client/Write/Register.antt =====
-- async_write_register over its attempts.
use luxpower_ha_integration.Base.{
  is_cancellation, Bool-cases, if◌then◌else◌, false, ℕ, zero, suc, ◌+◌, ◌≡◌, ◌≤◌, refl, ap, subst,
  ◌∙◌, Bool, true, List, arith, length, length-drop, drop, In-drop_one, List-cases, Outcome, ok,
  raised, inl, inr,
}
use luxpower_ha_integration.Stream.{Script}
use luxpower_ha_integration.Client.{Client, Config, World, async_connect}
use luxpower_ha_integration.Client.Poll.Coherent.{Coherent}
use luxpower_ha_integration.Client.Write.{
  Verdict, confirmed, failed, rejected, async_write_once, after_write, write_attempts,
  async_write_register,
}
use luxpower_ha_integration.Client.Write.Confirmed.{
  Echoed, async_connect-stream, write_connected-confirmed,
}
use luxpower_ha_integration.Client.Write.Effects.{write_connected-Kept}

async_connect-connections :
    (world : World) → (async_connect world).0.connections ≡ drop 1 world.connections
unfolding async_connect
async_connect-connections world = elim (List-cases world.connections) [
  | inl e ↦ ground (arith, e)
  | inr (c, cs, e) ↦ ground (arith, e)
]

module _ (config : Config) (register value : ℕ) where
  after_write-Echoed :
      (rest : Client × World → (Client × World) × Outcome Bool) (before : List (Outcome Script))
      (r : (Client × World) × Outcome Verdict)
      → (after_write rest r).1 ≡ ok true
      → (r.1 ≡ ok confirmed → Echoed before register value)
      → ((rest r.0).1 ≡ ok true → Echoed before register value)
      → Echoed before register value
  after_write-Echoed rest before (state, ok confirmed) h now later = now refl
  after_write-Echoed rest before (state, ok rejected) h now later = cc
  after_write-Echoed rest before (state, ok failed) h now later = later h
  after_write-Echoed rest before (state, raised e) h now later =
      elim (Bool-cases (is_cancellation e)) [
        | inl stops ↦ absurd (ground (arith, stops, h))
        | inr fails ↦
            later (subst (λ b. (if b then (state, raised e) else rest state).1 ≡ ok true) fails h)
      ]

  Echoed-drop :
      (cs : List (Outcome Script)) → Echoed (drop 1 cs) register value → Echoed cs register value
  Echoed-drop cs e = record {
    stream = e.stream;
    connected = In-drop_one cs e.connected;
    buf = e.buf;
    answer = e.answer;
    echoes_it = e.echoes_it;
  }

  attempt-Echoed :
      (self : Client) (world : World)
      → (async_write_once config register value (self, world)).1 ≡ ok confirmed
      → Echoed world.connections register value
  unfolding async_write_once
  attempt-Echoed self world h =
      let (stream, c, buf, answer, echoes_it) =
        write_connected-confirmed config register value self (async_connect world) h in
      record {
        stream = stream;
        connected = async_connect-stream world stream c;
        buf = buf;
        answer = answer;
        echoes_it = echoes_it;
      }

  attempt-connections :
      (self : Client) (world : World)
      → Coherent self.cache
      → Coherent (async_write_once config register value (self, world)).0.0.cache
        × ((async_write_once config register value (self, world)).0.1.connections
            ≡ drop 1 world.connections)
  unfolding async_write_once
  attempt-connections self world h =
      let (coherent, same) =
        write_connected-Kept config register value self (async_connect world) h in
      (coherent, same ∙ async_connect-connections world)

  write_attempts-Echoed :
      (left : ℕ) (self : Client) (world : World)
      → Coherent self.cache
      → (write_attempts config register value left (self, world)).1 ≡ ok true
      → Echoed world.connections register value
  unfolding write_attempts
  write_attempts-Echoed zero self world coherent h = cc
  write_attempts-Echoed (suc left) self world coherent h =
      let tried = async_write_once config register value (self, world) in
      let (kept, dropped) = attempt-connections self world coherent in
      after_write-Echoed (write_attempts config register value left) world.connections tried h
        (attempt-Echoed self world)
        λ later. Echoed-drop world.connections (
          subst (λ cs. Echoed cs register value) dropped
            (write_attempts-Echoed left tried.0.0 tried.0.1 kept later))

  -- The state that attempts leave.
  abbrev Bounded : (n left : ℕ) → (Client × World) × Outcome Bool → Type 0
  Bounded n left r = Coherent r.0.0.cache × (n ≤ length r.0.1.connections + left)

  after_write-Bounded :
      (rest : Client × World → (Client × World) × Outcome Bool) (n left : ℕ)
      (r : (Client × World) × Outcome Verdict)
      → Coherent r.0.0.cache
      → n ≤ length r.0.1.connections + suc left
      → Bounded n (suc left) (rest r.0)
      → Bounded n (suc left) (after_write rest r)
  after_write-Bounded rest n left (state, ok confirmed) c h later = (c, h)
  after_write-Bounded rest n left (state, ok rejected) c h later = (c, h)
  after_write-Bounded rest n left (state, ok failed) c h later = later
  after_write-Bounded rest n left (state, raised e) c h later =
      elim (is_cancellation e)
        as (λ b. Bounded n (suc left) (if b then (state, raised e) else rest state)) [
          | true ↦ (c, h)
          | false ↦ later
        ]

  write_attempts-Bounded :
      (left : ℕ) (self : Client) (world : World)
      → Coherent self.cache
      → Bounded
          (length world.connections)
          left
          (write_attempts config register value left (self, world))
  unfolding write_attempts
  write_attempts-Bounded zero self world coherent = (coherent, omega arith)
  write_attempts-Bounded (suc left) self world coherent =
      let tried = async_write_once config register value (self, world) in
      let (kept, dropped) = attempt-connections self world coherent in
      let (coherent', few) = write_attempts-Bounded left tried.0.0 tried.0.1 kept in
      let n = length-drop 1 world.connections in
      let one_less = ap length dropped in
      after_write-Bounded (write_attempts config register value left) (length world.connections)
        left tried kept (omega arith) (coherent', omega arith)

-- When the cache is coherent and a write of a value to a register is reported as done, one of the
-- connections that the call was given has sent a packet to the read of 76 bytes that parses without error, is no refusal, and has
-- the value at the register.
pub async_write_register-Echoed :
    (config : Config) (register value : ℕ) (self : Client) (world : World)
    → Coherent self.cache
    → (async_write_register config register value (self, world)).1 ≡ ok true
    → Echoed world.connections register value
unfolding async_write_register
async_write_register-Echoed config register value self world coherent h =
    write_attempts-Echoed config register value config.connection_retries self world coherent h

-- A write keeps the cache coherent, and opens `connection_retries` connections at most.
pub async_write_register-Coherent :
    (config : Config) (register value : ℕ) (self : Client) (world : World)
    → Coherent self.cache
    → Coherent (async_write_register config register value (self, world)).0.0.cache
      × (length world.connections
          ≤ length (async_write_register config register value (self, world)).0.1.connections
            + config.connection_retries)
unfolding async_write_register
async_write_register-Coherent config register value self world coherent =
    write_attempts-Bounded config register value config.connection_retries self world coherent
