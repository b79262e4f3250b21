-- ===== src/Event/Display.antt =====
-- The `Display` implementations of src/event.rs: the text that each writes.
use modbus_bridge_rs.Base.{ℕ, List, ◌++◌}
use modbus_bridge_rs.Base.Text.{codes, decimal, hex_byte}
use modbus_bridge_rs.Event.{
  FunctionCode, read_coils, read_discrete_inputs, read_holding_registers, read_input_registers,
  write_single_coil, write_single_register, write_multiple_coils, write_multiple_registers, other,
  Transaction, Warning, transaction_id_mismatch, BridgeEvent, BridgeError, tcp_closed, rtu_closed,
  tcp_io, rtu_io, rtu_crc_mismatch, buffer_overflow, timeout,
}

unfoldable pub display_code : FunctionCode → List ℕ
display_code read_coils = codes "ReadCoils"
display_code read_discrete_inputs = codes "ReadDiscreteInputs"
display_code read_holding_registers = codes "ReadHoldingRegisters"
display_code read_input_registers = codes "ReadInputRegisters"
display_code write_single_coil = codes "WriteSingleCoil"
display_code write_single_register = codes "WriteSingleRegister"
display_code write_multiple_coils = codes "WriteMultipleCoils"
display_code write_multiple_registers = codes "WriteMultipleRegisters"
display_code (other n) = codes "FC(" ++ (hex_byte n ++ codes ")")

unfoldable pub display_transaction : Transaction → List ℕ
display_transaction t =
    codes "unit="
    ++ (decimal t.unit_id
        ++ (codes " fc="
            ++ (display_code t.function_code
                ++ (codes " addr="
                    ++ (decimal t.start_address
                        ++ (codes " count=" ++ decimal t.register_count))))))

unfoldable pub display_warning : Warning → List ℕ
display_warning (transaction_id_mismatch expected got) =
    codes "transaction ID mismatch: expected "
    ++ (decimal expected ++ (codes ", got " ++ decimal got))

unfoldable pub display_event : BridgeEvent → List ℕ
display_event (BridgeEvent.transaction t) = display_transaction t
display_event (BridgeEvent.warning w) = display_warning w

-- `{:?}` of the errors of the serial port and the stream is given with them.
module _ {SE TE : Type 0} (debug_serial : SE → List ℕ) (debug_tcp : TE → List ℕ) where
  unfoldable pub display_error : BridgeError SE TE → List ℕ
  display_error tcp_closed = codes "TCP connection closed"
  display_error rtu_closed = codes "RTU connection closed"
  display_error (tcp_io e) = codes "TCP I/O error: " ++ debug_tcp e
  display_error (rtu_io e) = codes "RTU I/O error: " ++ debug_serial e
  display_error rtu_crc_mismatch = codes "RTU response CRC mismatch"
  display_error buffer_overflow = codes "frame buffer overflow — increase BUF capacity"
  display_error timeout = codes "I/O timeout"
