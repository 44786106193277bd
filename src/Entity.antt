-- ===== src/Entity.antt =====
-- entity.py: the write of an entity's holding register from its current value, and the role of the
-- inverter. The value that the entity shows between the client's confirmation and the publication
-- of the client's data is left out, since the publication replaces it at once.
pub mod Siblings
use luxpower_ha_integration.Base.{
  ℕ, ◌%◌, Bool, true, false, not, Option, none, some, ◌==◌, if◌then◌else◌, Outcome, ok, raised,
}
use luxpower_ha_integration.Base.Dict.{nat_eq, lookup}
use luxpower_ha_integration.Utils.{value_or_zero}
use luxpower_ha_integration.Client.{Client, Config, World}
use luxpower_ha_integration.Client.Fetch.{Data, snapshot}
use luxpower_ha_integration.Client.Write.{async_write_register}

-- The coordinator's data, and the client that an entity writes through.
pub record Bridge : Type 0 where
  pub shown : Data
  pub client : Client
  pub world : World

-- The end of a write: the client's data are published if it is done.
abbrev pub publish : Data → (Client × World) × Outcome Bool → Bridge × Outcome Bool
publish shown ((client, world), ok true) =
    (record { shown = snapshot client.cache; client = client; world = world }, ok true)
publish shown ((client, world), ok false) =
    (record { shown = shown; client = client; world = world }, ok false)
publish shown ((client, world), raised e) =
    (record { shown = shown; client = client; world = world }, raised e)

-- registers.get(self._register, 0)
abbrev pub current_value : (register : ℕ) → Bridge → ℕ
current_value register self = value_or_zero (lookup register self.shown.hold)

-- _async_write_register of an entity whose register type is 'hold'
unfoldable pub write_composed :
    Config → (register : ℕ) → (compose_value : ℕ → ℕ) → Bridge → Bridge × Outcome Bool
write_composed config register compose_value self =
    let value_to_write = compose_value (current_value register self) in
    publish self.shown
      (async_write_register config register value_to_write (self.client, self.world))

-- is_master, of the register of the parallel status
unfoldable pub is_master : Option ℕ → Bool
is_master none = true
is_master (some parallel_status) = not (parallel_status % 4 == 2)
