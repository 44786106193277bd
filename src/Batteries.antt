-- ===== src/Batteries.antt =====
-- classes/lxp_batteries.py: the battery blocks of a response for register 5000. A text is its
-- UTF-8 bytes, and `decode("utf-8")` of other bytes raises UnicodeDecodeError.
pub mod Blocks
use luxpower_ha_integration.Base.{
  ℕ, zero, suc, ◌+◌, ◌-◌, ◌*◌, ◌≡◌, ◌↔◌, refl, ap, Bool, true, false, not, ◌&&◌, Option, none, some,
  List, [], ◌∷◌, arith, ltb, leb, ◌==◌, ==_iff, if◌then◌else◌, slice, length, Outcome, ok, raised,
  unicode_error, ◌>>=◌,
}
use luxpower_ha_integration.Base.Dict.{Dict, Eq, nat_eq, lookup, put, remove}
use luxpower_ha_integration.Packet.Bytes.{Bytes, bytes_eq}
use luxpower_ha_integration.Packet.Response
use luxpower_ha_integration.Packet.Response.{LxpResponse, parsed_values_dictionary}

-- The keys of a battery's dictionary: 'serial', or the offset of a register.
pub data BatteryKey : Type 0 where
  serial : BatteryKey
  offset : ℕ → BatteryKey

pub data BatteryValue : Type 0 where
  text : Bytes → BatteryValue
  number : ℕ → BatteryValue

abbrev pub key_beq : BatteryKey → BatteryKey → Bool
key_beq serial serial = true
key_beq (offset m) (offset n) = m == n
key_beq _ _ = false

pub key_beq_iff : (a b : BatteryKey) → (key_beq a b ≡ true) ↔ (a ≡ b)
key_beq_iff serial serial = ground arith
key_beq_iff serial (offset n) = ground arith
key_beq_iff (offset m) serial = ground arith
key_beq_iff (offset m) (offset n) = ground arith

instance abbrev pub key_eq : Eq BatteryKey
key_eq = record { beq = key_beq; beq_iff = key_beq_iff }

abbrev pub Battery : Type 0
Battery = Dict BatteryKey BatteryValue

abbrev pub b_serial_start : ℕ
b_serial_start = 19

abbrev pub b_serial_len : ℕ
b_serial_len = 14

abbrev pub battery_info_start_register : ℕ
battery_info_start_register = 5000

-- What a first byte of a character asks of the bytes behind it: their number, and the range of
-- the first of them.
abbrev pub first_byte : ℕ → Option (ℕ × ℕ × ℕ)
first_byte b =
    if ltb b 0x80
    then some (0, 0, 0)
    else if ltb b 0xC2
    then none
    else if ltb b 0xE0
    then some (1, 0x80, 0xBF)
    else if b == 0xE0
    then some (2, 0xA0, 0xBF)
    else if b == 0xED
    then some (2, 0x80, 0x9F)
    else if ltb b 0xF0
    then some (2, 0x80, 0xBF)
    else if b == 0xF0
    then some (3, 0x90, 0xBF)
    else if ltb b 0xF4
    then some (3, 0x80, 0xBF)
    else if b == 0xF4
    then some (3, 0x80, 0x8F)
    else none

-- Well-formed UTF-8, with `pending` bytes of a character to come.
unfoldable pub is_utf8 : (pending low high : ℕ) → Bytes → Bool
is_utf8 zero low high [] = true
is_utf8 (suc pending) low high [] = false
is_utf8 zero low high (b ∷ bs) = elim (first_byte b) [
  | none ↦ false
  | some (pending, low', high') ↦ is_utf8 pending low' high' bs
]
is_utf8 (suc pending) low high (b ∷ bs) =
    let rest = is_utf8 pending 0x80 0xBF bs in leb low b && leb b high && rest

-- The bytes before the first zero byte; all of them when there is none.
unfoldable pub until_zero : Bytes → Bytes
until_zero [] = []
until_zero (b ∷ bs) = let rest = until_zero bs in if b == 0 then [] else b ∷ rest

abbrev pub decode : Bytes → Outcome Bytes
decode bs = if is_utf8 0 0 0 bs then ok bs else raised unicode_error

-- for n in range(...): parsed.pop(start + n, None), over `count` registers
unfoldable pub pop_registers : (count register : ℕ) → Dict ℕ ℕ → Dict ℕ ℕ
pop_registers zero register parsed = parsed
pop_registers (suc count) register parsed =
    pop_registers count (register + 1) (remove register parsed)

-- if reg in parsed: data[reg - start_reg] = parsed[reg]
abbrev pub keep_register : ℕ → Option ℕ → Battery → Battery
keep_register k none d = d
keep_register k (some v) d = put (offset k) (number v) d

-- The loop over the registers of a block, `count` of them from the offset `k` on.
unfoldable pub keep_registers : (count k start_reg : ℕ) → Dict ℕ ℕ → Battery → Battery
keep_registers zero k start_reg parsed d = d
keep_registers (suc count) k start_reg parsed d =
    keep_registers count (k + 1) start_reg parsed
      (keep_register k (lookup (start_reg + k) parsed) d)

-- response.register != BATTERY_INFO_START_REGISTER
abbrev pub is_battery_response : Option ℕ → Bool
is_battery_response none = false
is_battery_response (some r) = r == battery_info_start_register

unfoldable pub parse_bat_info_block : LxpResponse → (block : ℕ) → Outcome Battery
parse_bat_info_block response block =
    if not (is_battery_response response.register)
    then ok []
    else let start_reg = battery_info_start_register + block * 30 in
      let start = (start_reg - battery_info_start_register) * 2 in
      let serial_bytes =
        slice (start + b_serial_start * 2) (start + b_serial_start * 2 + b_serial_len + 1)
          response.value in
      decode (until_zero serial_bytes) >>= λ serial_text.
      let parsed =
        pop_registers (27 - b_serial_start) (start_reg + b_serial_start)
          (parsed_values_dictionary response) in
      ok (keep_registers 30 0 start_reg parsed ((serial, text serial_text) ∷ []))

-- if serial: result[serial] = bat_data
abbrev pub add_battery : Dict Bytes Battery → Battery → Dict Bytes Battery
add_battery result bat_data = elim (lookup serial bat_data) [
  | some (text (b ∷ bs)) ↦ put (b ∷ bs) bat_data result
  | _ ↦ result
]

-- The loop over the blocks, `count` of them from `block` on.
unfoldable pub battery_blocks :
    (count block : ℕ) → LxpResponse → Dict Bytes Battery → Outcome (Dict Bytes Battery)
battery_blocks zero block response result = ok result
battery_blocks (suc count) block response result =
    parse_bat_info_block response block >>= λ bat_data.
    battery_blocks count (block + 1) response (add_battery result bat_data)

unfoldable pub get_battery_info : LxpResponse → Outcome (Dict Bytes Battery)
get_battery_info response = battery_blocks 4 0 response []

-- Named on the `unfolding` line of a test, this opens the battery parser.
unfoldable pub program : Unit {0}
unfolding Response.program get_battery_info battery_blocks parse_bat_info_block keep_registers
    pop_registers until_zero is_utf8 lookup put remove
program = tt
