-- ===== src/Entity/Siblings.antt =====
-- A control that owns some bits of a register writes them and keeps the others.
use luxpower_ha_integration.Base.{
  ℕ, ◌/◌, ◌%◌, ◌^◌, ◌≡◌, refl, ap, sym, ◌∙◌, Bool, true, false, Outcome, ok, raised,
}
use luxpower_ha_integration.Utils.{get_bits, set_bits}
use luxpower_ha_integration.Utils.Fields.{get_bits-set_bits}
use luxpower_ha_integration.Client.{Client, Config, World}
use luxpower_ha_integration.Client.Poll.Coherent.{Coherent}
use luxpower_ha_integration.Client.Fetch.{Data, snapshot}
use luxpower_ha_integration.Client.Write.{async_write_register}
use luxpower_ha_integration.Client.Write.Confirmed.{Echoed}
use luxpower_ha_integration.Client.Write.Register.{async_write_register-Echoed}
use luxpower_ha_integration.Entity.{Bridge, publish, current_value, write_composed}

-- A value that has the new bits in a field and the bits of the old value around it.
pub record Siblings (old start_bit bit_count new_bits value : ℕ) : Type 0 where
  pub field : get_bits value start_bit bit_count ≡ new_bits % 2 ^ bit_count
  pub below : value % 2 ^ start_bit ≡ old % 2 ^ start_bit
  pub above : value / 2 ^ start_bit / 2 ^ bit_count ≡ old / 2 ^ start_bit / 2 ^ bit_count

publish-done :
    (shown : Data) (r : (Client × World) × Outcome Bool)
    → (publish shown r).1 ≡ ok true
    → (r.1 ≡ ok true)
      × ((publish shown r).0.shown ≡ snapshot r.0.0.cache)
      × ((publish shown r).0.client ≡ r.0.0)
publish-done shown ((client, world), ok true) h = (refl, refl, refl)
publish-done shown ((client, world), ok false) h = cc
publish-done shown ((client, world), raised e) h = cc

-- When the write of a bit field through an entity is reported as done, the inverter has echoed a
-- value that has the new bits in the field and the bits of the shown value around it, and the data
-- shown from then on are the client's.
pub write_composed-Siblings :
    (config : Config) (register start_bit bit_count new_bits : ℕ) (self : Bridge)
    → Coherent self.client.cache
    → (write_composed config register
        (λ current. set_bits current start_bit bit_count new_bits)
        self).1
      ≡ ok true
    → (value : ℕ) × Siblings (current_value register self) start_bit bit_count new_bits value
      × Echoed self.world.connections register value
      × ((write_composed config register
            (λ current. set_bits current start_bit bit_count new_bits)
            self).0.shown
          ≡ snapshot
              (write_composed config register
                (λ current. set_bits current start_bit bit_count new_bits)
                self).0.client.cache)
unfolding write_composed
write_composed-Siblings config register start_bit bit_count new_bits self coherent h =
    let old = current_value register self in
    let value = set_bits old start_bit bit_count new_bits in
    let written = async_write_register config register value (self.client, self.world) in
    let (done, shown, client) = publish-done self.shown written h in
    let (field, below, above) = get_bits-set_bits old start_bit bit_count new_bits in
    (
      value,
      record { field = field; below = below; above = above },
      async_write_register-Echoed config register value self.client self.world coherent done,
      shown ∙ ap (λ c. snapshot c.cache) (sym client),
    )
