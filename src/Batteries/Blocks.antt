-- ===== src/Batteries/Blocks.antt =====
-- The battery blocks: which register of a response stands at which offset of a battery.
use luxpower_ha_integration.Base.{
  ℕ, ◌+◌, ◌*◌, Bool, ◌&&◌, Option, none, some, [], ◌∷◌, ltb, leb, slice, Outcome, ok, ◌>>=◌,
}
use luxpower_ha_integration.Base.Dict.{Dict, nat_eq}
use luxpower_ha_integration.Packet.Bytes.{Bytes, bytes_eq}
use luxpower_ha_integration.Packet.Response.{LxpResponse, parsed_values_dictionary}
use luxpower_ha_integration.Batteries.{
  serial, BatteryValue, text, number, Battery, key_eq, pop_registers, keep_registers, decode,
  until_zero,
}

-- A register's value in a battery.
abbrev pub as_number : Option ℕ → Option BatteryValue
as_number none = none
as_number (some v) = some (number v)

-- `first` where there is a value, `second` where there is none
abbrev pub or_else {ℓ} : {A : Type ℓ} → Option A → Option A → Option A
or_else none second = second
or_else (some a) second = some a

-- The offsets of the serial, which are no numbers.
abbrev pub is_serial_offset : ℕ → Bool
is_serial_offset k = leb 19 k && ltb k 27

-- A block's parse, over the bounds of its serial.
abbrev block_from : LxpResponse → (block i j : ℕ) → Outcome Battery
block_from response block i j = decode (until_zero (slice i j response.value)) >>= λ t. ok (
    keep_registers 30 0 (5000 + block * 30)
      (pop_registers 8 (5000 + block * 30 + 19) (parsed_values_dictionary response))
      ((serial, text t) ∷ []))
