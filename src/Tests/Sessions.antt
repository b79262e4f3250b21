-- ===== src/Tests/Sessions.antt =====
-- Runs of the cycles of src/connection.rs and src/client_session.rs on concrete ports.
use modbus_bridge_rs.Base.{
  ℕ, ◌≡◌, refl, List, [], ◌++◌, some, none, Bool, arith, length, drop, ltb, if◌then◌else◌,
}
use modbus_bridge_rs.Base.Outcome.{ok, err, done}
use modbus_bridge_rs.Frame.{
  crc, crc_bit, crc_byte, check_crc, rtu_response_remaining, tcp_to_rtu, rtu_resp_to_tcp,
  parse_tcp_request, rtu_to_tcp, tcp_resp_to_rtu, parse_rtu_request,
}
use modbus_bridge_rs.Frame.Check.{body}
use modbus_bridge_rs.Frame.Convert.{mbap_frame}
use modbus_bridge_rs.Io.{write_all}
use modbus_bridge_rs.Rtu
use modbus_bridge_rs.Rtu.{ModbusRtu}
use modbus_bridge_rs.Tcp
use modbus_bridge_rs.Event.{
  BridgeEvent, from_u8, read_holding_registers, buffer_overflow, transaction_id_mismatch,
}
use modbus_bridge_rs.Bridge.{Bridge, NoDelay, no_delay}
use modbus_bridge_rs.Connection
use modbus_bridge_rs.Connection.{Connection}
use modbus_bridge_rs.Client.{Client}
use modbus_bridge_rs.ClientSession
use modbus_bridge_rs.ClientSession.{ClientSession}
use modbus_bridge_rs.ClientSession.Relay.{tid_warning, relay_response_lem}
use modbus_bridge_rs.Base.{◌≢◌}
use modbus_bridge_rs.Base.Outcome.{stalled}
use modbus_bridge_rs.Connection.Finish.{next-completes}
use modbus_bridge_rs.ClientSession.Finish.{session_next-completes}
use modbus_bridge_rs.Tests.Devices.{port-IsPrompt}
use modbus_bridge_rs.Tests.Devices.{Port, vector, vector-IsHeapless, fresh, ports, ports-IsPorts}
use modbus_bridge_rs.Tests.Frames.{read_pdu, read_frame, read_tcp}
use modbus_bridge_rs.Tests.Transport.{response_frame}

abbrev pub bridge : Bridge Port (List Bool) NoDelay
bridge = record {
  rtu = record { serial = fresh response_frame; tx_en = [] };
  rtu_timeout_ms = none;
  tcp_timeout_ms = none;
  delay = no_delay;
}

abbrev connection : Connection Port (List Bool) Port NoDelay
connection = record {
  bridge = bridge;
  tcp = record { stream = fresh read_tcp; transaction_id = 0 };
}

-- The reply carries the request's transaction id and the five bytes of data.
next-connection :
    let (r, c) = Connection.next ports connection in
    (r
      ≡ done (
          BridgeEvent.transaction (record {
            unit_id = 1;
            function_code = read_holding_registers;
            start_address = 0;
            register_count = 10;
          })))
    × (c.tcp.stream.outgoing ≡ mbap_frame 0x0102 (body response_frame))
    × (c.bridge.rtu.serial.outgoing ≡ read_frame)
unfolding Connection.next Connection.read_request Connection.answer Connection.exchange
    Connection.relay_response Connection.relay_result tcp_to_rtu rtu_resp_to_tcp parse_tcp_request
    from_u8 Tcp.listen Tcp.send Tcp.read_exact Tcp.read_exact_loop Tcp.read_bytes
    Rtu.send_and_receive Rtu.send Rtu.receive Rtu.read_exact Rtu.read_bytes write_all check_crc crc
    crc_byte crc_bit rtu_response_remaining
next-connection = (refl, refl, refl)

abbrev pub client : Client Port (List Bool) ℕ
client = record {
  rtu = record { serial = fresh read_frame; tx_en = [] };
  rtu_timeout_ms = some 20;
  tcp_timeout_ms = some 30;
  delay = 0;
}

-- The server answers another transaction: 0x0102, not 1.
abbrev pub session : ClientSession Port (List Bool) Port ℕ
session = record {
  client = client;
  tcp = record { stream = fresh (mbap_frame 0x0102 (body response_frame)); transaction_id = 0 };
}

-- The response goes on to the master all the same, with a warning.
next-session :
    let (r, c) = ClientSession.next ports session in
    (r ≡ done (BridgeEvent.warning (transaction_id_mismatch 1 0x0102)))
    × (c.tcp.stream.outgoing ≡ mbap_frame 1 read_pdu)
    × (c.client.rtu.serial.outgoing ≡ response_frame)
unfolding ClientSession.next ClientSession.read_request ClientSession.answer ClientSession.exchange
    ClientSession.relay_response ClientSession.relay_result rtu_to_tcp tcp_resp_to_rtu
    parse_rtu_request Tcp.next_transaction_id Tcp.listen Tcp.send Tcp.read_exact Tcp.read_exact_loop
    Tcp.read_bytes Rtu.send Rtu.listen Rtu.read_exact Rtu.read_bytes write_all check_crc crc
    crc_byte crc_bit
next-session = (refl, refl, refl)

abbrev response : List ℕ
response = mbap_frame 0x0102 (body response_frame)

relay_response_lem_example :
    ClientSession.relay_response {SE = Unit {0}} {TE = Unit {0}} vector response 1 ≡ (
      if ltb (length response) 7
      then err buffer_overflow
      else ok (drop 6 response ++ crc (drop 6 response), tid_warning 1 response))
relay_response_lem_example =
    relay_response_lem vector-IsHeapless {SE = Unit {0}} {TE = Unit {0}} response 1
      (refl, omega arith)

next-completes_example : (Connection.next ports connection).0 ≢ stalled
next-completes_example = next-completes ports-IsPorts port-IsPrompt port-IsPrompt connection

session_next-completes_example : (ClientSession.next ports session).0 ≢ stalled
session_next-completes_example =
    session_next-completes ports-IsPorts port-IsPrompt port-IsPrompt session
