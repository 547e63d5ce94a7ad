-- ===== src/Runtime/Modbus.antt =====
-- src/runtime/modbus/model.rs: function codes, targets, read requests and payloads, with the errors of
-- mod.rs. Words and bytes are numbers below 2^16 and 2^8.
use verdant.Base.{
  ℕ, ◌+◌, ◌*◌, ◌/◌, ◌%◌, ◌-◌, Bool, true, false, not, ◌&&◌, ◌||◌, Option, none, some, List, [], ◌∷◌,
  ◌++◌, String, len, ltb, leb, nat_eq, ◌==◌, string_partial_eq, if◌then◌else◌, length, any, map,
  Result, ok, err, ◌>>=◌, ◌>>◌, ensure, refuse_if,
}
use verdant.Base.Int.{ℤ, pos, negsuc, pos_part, neg_part, sub_ℕ, ◌+ℤ◌}
use verdant.Domain.Ids.{codes}
pub mod Reads

pub data ModbusError : Type 0 where
  denied_service broadcast_read_not_allowed invalid_unit denied_destination quantity address
        map_refused :
      ModbusError

pub data Function : Type 0 where
  coils discrete_inputs holding_registers input_registers : Function

unfoldable pub parse : ℕ → Result ModbusError Function
parse code =
    if nat_eq code 1
    then ok coils
    else if nat_eq code 2
    then ok discrete_inputs
    else if nat_eq code 3
    then ok holding_registers
    else if nat_eq code 4
    then ok input_registers
    else err denied_service

unfoldable pub code : Function → ℕ
code coils = 1
code discrete_inputs = 2
code holding_registers = 3
code input_registers = 4

unfoldable pub is_bits : Function → Bool
is_bits coils = true
is_bits discrete_inputs = true
is_bits holding_registers = false
is_bits input_registers = false

pub record Read : Type 0 where
  pub function : Function
  pub address : ℕ
  pub quantity : ℕ

unfoldable pub limit : Function → ℕ
unfolding is_bits
limit f = if is_bits f then 2000 else 125

-- `Read::new`; the sum is taken in `u32`, so it does not wrap.
unfoldable pub new_read : Function → ℕ → ℕ → Result ModbusError Read
new_read f start count = do
  refuse_if (nat_eq count 0 || ltb (limit f) count) quantity
  refuse_if (ltb 65536 (start + count)) address
  ok (record { function = f; address = start; quantity = count })

unfoldable pub bytes : Read → ℕ
unfolding is_bits
bytes r = if is_bits r.function then (r.quantity + 7) / 8 else r.quantity * 2

pub data Payload : Type 0 where
  bits : List Bool → Payload
  words : List ℕ → Payload
  register_bytes : List ℕ → Payload

-- `Target`: an IPv4 socket address, as octets and a port, and a unit.
pub record Target : Type 0 where
  pub ip : List ℕ
  pub port : ℕ
  pub unit : ℕ

abbrev pub is_localhost : List ℕ → Bool
is_localhost (w ∷ x ∷ y ∷ z ∷ []) = nat_eq w 127 && nat_eq x 0 && nat_eq y 0 && nat_eq z 1
is_localhost _ = false

abbrev pub is_reserved_port : ℕ → Bool
is_reserved_port port = nat_eq port 502 || nat_eq port 802 || nat_eq port 8080 || nat_eq port 47808

-- `Target::loopback`.
unfoldable pub loopback : List ℕ → ℕ → ℕ → Result ModbusError Target
loopback ip port unit = do
  refuse_if (nat_eq unit 0) broadcast_read_not_allowed
  ensure ((leb 1 unit && leb unit 247) || nat_eq unit 255) invalid_unit
  refuse_if (not (is_localhost ip) || ltb port 1024 || is_reserved_port port) denied_destination
  ok (record { ip = ip; port = port; unit = unit })
