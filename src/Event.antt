-- ===== src/Event.antt =====
-- src/event.rs: the events and errors of the public interface.
pub mod Code
pub mod Display
pub mod Readable
use modbus_bridge_rs.Base.{ℕ, ◌==◌, if◌then◌else◌}

pub data FunctionCode : Type 0 where
  read_coils read_discrete_inputs read_holding_registers read_input_registers : FunctionCode
  write_single_coil write_single_register : FunctionCode
  write_multiple_coils write_multiple_registers : FunctionCode
  other : ℕ → FunctionCode

-- `FunctionCode::from(u8)`
unfoldable pub from_u8 : ℕ → FunctionCode
from_u8 v =
    if v == 0x01
    then read_coils
    else if v == 0x02
    then read_discrete_inputs
    else if v == 0x03
    then read_holding_registers
    else if v == 0x04
    then read_input_registers
    else if v == 0x05
    then write_single_coil
    else if v == 0x06
    then write_single_register
    else if v == 0x0F
    then write_multiple_coils
    else if v == 0x10
    then write_multiple_registers
    else other v

pub record Transaction : Type 0 where
  pub unit_id : ℕ
  pub function_code : FunctionCode
  pub start_address : ℕ
  pub register_count : ℕ

pub data Warning : Type 0 where
  -- The id that was expected, and the one that was got.
  transaction_id_mismatch : ℕ → ℕ → Warning

pub data BridgeEvent : Type 0 where
  transaction : Transaction → BridgeEvent
  warning : Warning → BridgeEvent

pub data BridgeError (SE TE : Type 0) : Type 0 where
  tcp_closed rtu_closed : BridgeError SE TE
  tcp_io : TE → BridgeError SE TE
  rtu_io : SE → BridgeError SE TE
  rtu_crc_mismatch buffer_overflow timeout : BridgeError SE TE
