-- ===== src/Session/Classify.antt =====
-- read_session.py: the tests of _route_frame, and which of its branches a frame takes.
use luxpower_ha_integration.Base.{
  ℕ, ◌+◌, ◌*◌, Bool, true, false, not, ◌&&◌, ◌||◌, Option, none, some, [], ◌∷◌, ltb, leb, ◌==◌,
  if◌then◌else◌, is_empty, length, get_elem?,
}
use luxpower_ha_integration.Base.Dict.{Dict, nat_eq}
use luxpower_ha_integration.Packet.Bytes.{Bytes, bytes_beq}
use luxpower_ha_integration.Packet.Builder.{translated_data}
use luxpower_ha_integration.Packet.Response.{LxpResponse, parsed_values_dictionary}
use luxpower_ha_integration.Validator.{is_data_sane, input}
use luxpower_ha_integration.Session.{PendingRead, Config}

-- READ_INPUT_FUNCTION_CODE, `READ_INPUT_FUNCTION_CODE | 0x80`, and the 750 registers there are
abbrev pub read_input_function_code : ℕ
read_input_function_code = 4

abbrev pub rejected_function_code : ℕ
rejected_function_code = 132

abbrev pub register_limit : ℕ
register_limit = 750

-- An attribute that is set, compared with a value; -1 equals none.
abbrev pub equals : Option ℕ → ℕ → Bool
equals none n = false
equals (some m) n = m == n

abbrev pub equals_bytes : Option Bytes → Bytes → Bool
equals_bytes none b = false
equals_bytes (some a) b = bytes_beq a b

abbrev pub is_193 : LxpResponse → Bool
is_193 response = not response.packet_error && equals response.tcp_function 193

abbrev pub is_targeted : Config → LxpResponse → Bool
is_targeted config response =
    ((not response.packet_error && equals response.tcp_function translated_data)
      && equals_bytes response.dongle_serial config.dongle_serial)
    && equals_bytes response.serial_number config.inverter_serial

-- response.value_length, from the attributes that the parser sets it by
abbrev pub has_length_byte : LxpResponse → Bool
has_length_byte response =
    (equals response.protocol_number 2 || equals response.protocol_number 5)
    && (not (equals response.device_function 6)
        && elim response.device_function [ none ↦ false | some function ↦ ltb function 0x80 ])

abbrev pub or_zero : Option ℕ → ℕ
or_zero none = 0
or_zero (some n) = n

abbrev pub value_length : LxpResponse → ℕ
value_length response =
    if has_length_byte response
    then or_zero (get_elem? response.data_frame 14)
    else if elim response.device_function [ none ↦ false | some function ↦ leb 0x80 function ]
    then 0
    else 2

-- response.data_length == response.frame_length - 14, of attributes that are set
abbrev pub lengths_agree : Option ℕ → Option ℕ → Bool
lengths_agree (some d) (some f) = d + 14 == f
lengths_agree _ _ = false

-- tuple(values) == tuple(range(start, start + count)), of `count` values
unfoldable pub are_from : ℕ → Dict ℕ ℕ → Bool
are_from start [] = true
are_from start ((register, value) ∷ values) =
    let rest = are_from (start + 1) values in (register == start) && rest

abbrev pub is_contiguous : Option ℕ → Dict ℕ ℕ → Bool
is_contiguous none values = false
is_contiguous (some start) values = not (is_empty values) && are_from start values

-- response.register >= 0 and response.register + count <= 750
abbrev pub in_range : Option ℕ → ℕ → Bool
in_range none count = false
in_range (some start) count = leb (start + count) register_limit

-- The long test of _route_frame, in the order of its terms.
abbrev pub is_acceptable : Config → LxpResponse → Dict ℕ ℕ → Bool
is_acceptable config response values =
    is_targeted config response
    && (equals response.device_function read_input_function_code
        && ((response.exception == 0)
            && (not (is_empty values)
                && (equals response.address_action 1
                    && (lengths_agree response.data_length response.frame_length
                        && ((value_length response == length values * 2)
                            && ((length response.value == value_length response)
                                && (is_contiguous response.register values
                                    && (in_range response.register (length values)
                                        && is_data_sane values input)))))))))

-- LuxInvalidFrameReason, of timeout_diagnostics.py
pub data LuxInvalidFrameReason : Type 0 where
  packet_integrity tcp_function dongle_target_mismatch inverter_target_mismatch :
      LuxInvalidFrameReason
  device_function modbus_exception empty_values address_action data_length : LuxInvalidFrameReason
  value_length_mismatch noncontiguous_registers register_range data_sanity : LuxInvalidFrameReason
  malformed_length partial_frame_timeout : LuxInvalidFrameReason

-- _invalid_frame_reason
unfoldable pub invalid_frame_reason :
    Config → LxpResponse → (values : Dict ℕ ℕ) → (contiguous : Bool) → LuxInvalidFrameReason
invalid_frame_reason config response values contiguous =
    if response.packet_error
    then packet_integrity
    else if not (equals response.tcp_function translated_data)
    then tcp_function
    else if not (equals_bytes response.dongle_serial config.dongle_serial)
    then dongle_target_mismatch
    else if not (equals_bytes response.serial_number config.inverter_serial)
    then inverter_target_mismatch
    else if not (equals response.device_function read_input_function_code)
    then device_function
    else if not (response.exception == 0)
    then modbus_exception
    else if is_empty values
    then empty_values
    else if not (equals response.address_action 1)
    then address_action
    else if not (lengths_agree response.data_length response.frame_length)
    then data_length
    else if not (value_length response == length values * 2)
        || not (length response.value == value_length response)
    then value_length_mismatch
    else if not contiguous
    then noncontiguous_registers
    else if not (in_range response.register (length values))
    then register_range
    else data_sanity

-- The branches of _route_frame. A read that a frame answers comes with its number.
pub data Route : Type 0 where
  counts_193 : Route
  rejects : (id : ℕ) → (code : ℕ) → Route
  refuses : LuxInvalidFrameReason → Route
  accepts : (start : ℕ) → (values : Dict ℕ ℕ) → (answered : Option (ℕ × PendingRead)) → Route

-- response.register == pending.start
abbrev pub starts_at : Option ℕ → Option (ℕ × PendingRead) → Bool
starts_at register none = false
starts_at register (some (id, p)) = equals register p.start

abbrev pub is_rejection : Config → LxpResponse → Option (ℕ × PendingRead) → Bool
is_rejection config response pending =
    is_targeted config response
    && (equals response.device_function rejected_function_code
        && starts_at response.register pending)

-- `explicit`: the pending read, if the block is exactly what it asked for
abbrev pub answered_by : (start count : ℕ) → Option (ℕ × PendingRead) → Option (ℕ × PendingRead)
answered_by start count none = none
answered_by start count (some (id, p)) =
    if (start == p.start) && (count == p.count) then some (id, p) else none

abbrev pub rejection_of : ℕ → Option (ℕ × PendingRead) → Route → Route
rejection_of code none other = other
rejection_of code (some (id, p)) other = rejects id code

abbrev pub acceptance_of :
    Option ℕ → Dict ℕ ℕ → Option (ℕ × PendingRead) → (otherwise : Route) → Route
acceptance_of none values pending otherwise = otherwise
acceptance_of (some start) values pending otherwise =
    accepts start values (answered_by start (length values) pending)

unfoldable pub classify : Config → Option (ℕ × PendingRead) → LxpResponse → Route
classify config pending response =
    let values = parsed_values_dictionary response in
    let refused =
      refuses
        (invalid_frame_reason config response values (is_contiguous response.register values)) in
    if is_193 response
    then counts_193
    else if is_rejection config response pending
    then rejection_of response.exception pending refused
    else if not (is_acceptable config response values)
    then refused
    else acceptance_of response.register values pending refused

-- {register: x for register in values}
unfoldable pub fill {ℓ} : {V : Type ℓ} → V → Dict ℕ ℕ → Dict ℕ V
fill x [] = []
fill x ((register, value) ∷ values) = (register, x) ∷ fill x values
