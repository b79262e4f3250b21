-- ===== src/Error.antt =====
-- src/error.rs: the framing and transport error, its text, and its widening conversions.
use modbus_bridge_rs.Base.{ℕ, List, ◌++◌}
use modbus_bridge_rs.Base.Text.{codes}

-- `core::convert::Infallible`
abbrev pub Infallible : Type 0
Infallible = ⊥

pub data ModbusError (SE TE : Type 0) : Type 0 where
  serial : SE → ModbusError SE TE
  tcp : TE → ModbusError SE TE
  crc push payload_too_short invalid_transaction_id : ModbusError SE TE
  conversion_slice rtu_illegal : ModbusError SE TE

module _ {SE TE : Type 0} where
  pub into_serial : ModbusError SE Infallible → ModbusError SE TE
  into_serial (ModbusError.serial se) = ModbusError.serial se
  into_serial (ModbusError.tcp i) = absurd i
  into_serial ModbusError.crc = ModbusError.crc
  into_serial ModbusError.push = ModbusError.push
  into_serial ModbusError.payload_too_short = ModbusError.payload_too_short
  into_serial ModbusError.invalid_transaction_id = ModbusError.invalid_transaction_id
  into_serial ModbusError.conversion_slice = ModbusError.conversion_slice
  into_serial ModbusError.rtu_illegal = ModbusError.rtu_illegal

  pub into_tcp : ModbusError Infallible TE → ModbusError SE TE
  into_tcp (ModbusError.tcp te) = ModbusError.tcp te
  into_tcp (ModbusError.serial i) = absurd i
  into_tcp ModbusError.crc = ModbusError.crc
  into_tcp ModbusError.push = ModbusError.push
  into_tcp ModbusError.payload_too_short = ModbusError.payload_too_short
  into_tcp ModbusError.invalid_transaction_id = ModbusError.invalid_transaction_id
  into_tcp ModbusError.conversion_slice = ModbusError.conversion_slice
  into_tcp ModbusError.rtu_illegal = ModbusError.rtu_illegal

  unfoldable pub into_combined : ModbusError Infallible Infallible → ModbusError SE TE
  into_combined (ModbusError.serial i) = absurd i
  into_combined (ModbusError.tcp i) = absurd i
  into_combined ModbusError.crc = ModbusError.crc
  into_combined ModbusError.push = ModbusError.push
  into_combined ModbusError.payload_too_short = ModbusError.payload_too_short
  into_combined ModbusError.invalid_transaction_id = ModbusError.invalid_transaction_id
  into_combined ModbusError.conversion_slice = ModbusError.conversion_slice
  into_combined ModbusError.rtu_illegal = ModbusError.rtu_illegal

-- The `Display` implementation; `{:?}` of the errors of the transports is given with them.
module _ {SE TE : Type 0} (debug_serial : SE → List ℕ) (debug_tcp : TE → List ℕ) where
  unfoldable pub display_error : ModbusError SE TE → List ℕ
  display_error (ModbusError.serial e) = codes "serial error: " ++ debug_serial e
  display_error (ModbusError.tcp e) = codes "TCP error: " ++ debug_tcp e
  display_error ModbusError.crc = codes "CRC mismatch"
  display_error ModbusError.push = codes "buffer push error"
  display_error ModbusError.payload_too_short = codes "payload too short"
  display_error ModbusError.invalid_transaction_id = codes "transaction ID mismatch"
  display_error ModbusError.conversion_slice = codes "frame conversion slice error"
  display_error ModbusError.rtu_illegal = codes "illegal RTU operation"
