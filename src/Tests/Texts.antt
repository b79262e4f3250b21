-- ===== src/Tests/Texts.antt =====
-- The texts of src/event.rs and src/error.rs.
use modbus_bridge_rs.Base.{◌≡◌, refl, []}
use modbus_bridge_rs.Base.Text.{codes, decimal, digits}
use modbus_bridge_rs.Error
use modbus_bridge_rs.Error.{ModbusError, Infallible}
use modbus_bridge_rs.Event.{
  BridgeEvent, other, write_multiple_registers, transaction_id_mismatch, from_u8, tcp_io,
  buffer_overflow,
}
use modbus_bridge_rs.Event.Display.{
  display_code, display_transaction, display_warning, display_event, display_error,
}
use modbus_bridge_rs.Event.Readable.{display_event_injective}

abbrev write_event : BridgeEvent
write_event = BridgeEvent.transaction (record {
  unit_id = 17;
  function_code = write_multiple_registers;
  start_address = 0;
  register_count = 65535;
})

abbrev vendor_event : BridgeEvent
vendor_event =
    BridgeEvent.transaction
      (record { unit_id = 1; function_code = other 0x2b; start_address = 10; register_count = 2 })

display_event-write_event :
    display_event write_event ≡ codes "unit=17 fc=WriteMultipleRegisters addr=0 count=65535"
unfolding display_event display_transaction display_code decimal digits
display_event-write_event = refl

display_event-vendor_event : display_event vendor_event ≡ codes "unit=1 fc=FC(0x2b) addr=10 count=2"
unfolding display_event display_transaction display_code decimal digits
display_event-vendor_event = refl

display_event-warning :
    display_event (BridgeEvent.warning (transaction_id_mismatch 1 258))
    ≡ codes "transaction ID mismatch: expected 1, got 258"
unfolding display_event display_warning decimal digits
display_event-warning = refl

-- The event of a request with the byte 0x10 reads as the one above.
abbrev built_event : BridgeEvent
built_event = BridgeEvent.transaction (record {
  unit_id = 17;
  function_code = from_u8 0x10;
  start_address = 0;
  register_count = 65535;
})

display_event_injective_example : write_event ≡ built_event
unfolding from_u8
display_event_injective_example = display_event_injective write_event built_event tt tt refl

display_error-tcp_io :
    display_error {SE = Unit {0}} {TE = Unit {0}} (λ _. []) (λ _. codes "Reset") (tcp_io tt)
    ≡ codes "TCP I/O error: Reset"
unfolding display_error
display_error-tcp_io = refl

display_error-buffer_overflow :
    display_error {SE = Unit {0}} {TE = Unit {0}} (λ _. []) (λ _. []) buffer_overflow
    ≡ codes "frame buffer overflow — increase BUF capacity"
unfolding display_error
display_error-buffer_overflow = refl

display_error-crc :
    Error.display_error {SE = Unit {0}} {TE = Unit {0}} (λ _. []) (λ _. []) ModbusError.crc
    ≡ codes "CRC mismatch"
unfolding Error.display_error
display_error-crc = refl
