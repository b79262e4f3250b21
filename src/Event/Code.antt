-- ===== src/Event/Code.antt =====
-- The function codes of src/event.rs against their byte values.
use modbus_bridge_rs.Base.{ℕ, ◌≡◌, arith}
use modbus_bridge_rs.Event.{
  FunctionCode, read_coils, read_discrete_inputs, read_holding_registers, read_input_registers,
  write_single_coil, write_single_register, write_multiple_coils, write_multiple_registers, other,
  from_u8,
}

-- The byte that the Modbus specification gives to each code.
pub code_byte : FunctionCode → ℕ
code_byte read_coils = 0x01
code_byte read_discrete_inputs = 0x02
code_byte read_holding_registers = 0x03
code_byte read_input_registers = 0x04
code_byte write_single_coil = 0x05
code_byte write_single_register = 0x06
code_byte write_multiple_coils = 0x0F
code_byte write_multiple_registers = 0x10
code_byte (other n) = n

-- A function code keeps its byte, so two bytes never read as the same code, unknown codes included.
pub code_byte-from_u8 : (v : ℕ) → code_byte (from_u8 v) ≡ v
unfolding code_byte from_u8
code_byte-from_u8 v = ground arith
