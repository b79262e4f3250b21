-- ===== src/Tests/Transport.antt =====
-- Runs of src/rtu.rs, src/tcp.rs and src/capacity.rs on concrete ports.
use modbus_bridge_rs.Base.{
  ℕ, ◌+◌, ◌%◌, ◌^◌, ◌≡◌, ◌≢◌, ◌≤◌, refl, List, [], ◌∷◌, ◌++◌, Bool, true, false, arith, length,
}
use modbus_bridge_rs.Base.Runs.{Runs}
use modbus_bridge_rs.Rtu.Tolerance.{Stands, read_exact-tolerates}
use modbus_bridge_rs.Tests.Peers.{quiet_peer}
use modbus_bridge_rs.Tests.Flaky.{flaky, flaky-IsIo, flaky-IsFaulty}
use modbus_bridge_rs.Base.Outcome.{done, fail}
use modbus_bridge_rs.Base.Ensures.{Ensures}
use modbus_bridge_rs.Error.{ModbusError}
use modbus_bridge_rs.Frame.{crc, crc_bit, crc_byte, check_crc, rtu_response_remaining}
use modbus_bridge_rs.Io.{Io, write_all}
use modbus_bridge_rs.Io.WriteAll.{WroteSome, write_all-wrote}
use modbus_bridge_rs.Rtu
use modbus_bridge_rs.Rtu.{ModbusRtu, send, receive, send_and_receive}
use modbus_bridge_rs.Rtu.Read.{Filled, Quiet, read_exact-Filled}
use modbus_bridge_rs.Rtu.Frames.{IsResponse, receive-IsResponse}
use modbus_bridge_rs.Rtu.Listen.{IsRequest, listen-IsRequest}
use modbus_bridge_rs.Rtu.Send.{Transmitted, Broken, send-Transmitted, send_broken_high}
use modbus_bridge_rs.Tcp
use modbus_bridge_rs.Tcp.Listen.{IsTcpFrame, listen-IsTcpFrame}
use modbus_bridge_rs.Io.{At}
use modbus_bridge_rs.Rtu.{rtu_buf}
use modbus_bridge_rs.Rtu.Retry.{read_exact-broken}
use modbus_bridge_rs.Tcp.{ModbusTcp, tcp_buf, next_transaction_id}
use modbus_bridge_rs.Tcp.Ids.{advance, next_transaction_id-distinct}
use modbus_bridge_rs.Frame.{repeat}
use modbus_bridge_rs.Frame.Check.{body}
use modbus_bridge_rs.Frame.Convert.{mbap_frame}
use modbus_bridge_rs.Capacity.{
  rtu_capacity, tcp_capacity, reg_bytes_16, rtu_constants, tcp_constants,
}
use modbus_bridge_rs.Capacity.Frames.{write_multiple-capacity}
use modbus_bridge_rs.Tests.Devices.{
  Port, port, traffic, port-IsIo, vector, vector-IsHeapless, pin, fresh, mute,
}
use modbus_bridge_rs.Tests.Frames.{read_frame, read_tcp}

-- Two registers of unit 1.
abbrev pub response_frame : List ℕ
response_frame = 0x01 ∷ 0x03 ∷ 0x04 ∷ 0x00 ∷ 0x06 ∷ 0x00 ∷ 0x05 ∷ 0xDA ∷ 0x31 ∷ []

-- A response, then one byte more.
abbrev bus : Port
bus = fresh (response_frame ++ (0x55 ∷ []))

abbrev driver : ModbusRtu Port (List Bool)
driver = record { serial = bus; tx_en = [] }

-- The request is sent between two edges of the pin, and the response is read up to its end.
send_and_receive-bus : send_and_receive vector port pin read_frame driver ≡ (
  done response_frame,
  record {
    serial = record { incoming = 0x55 ∷ []; outgoing = read_frame; taken = response_frame };
    tx_en = false ∷ true ∷ [];
  },
)
unfolding send_and_receive Rtu.send Rtu.receive Rtu.read_exact Rtu.read_bytes write_all check_crc
    crc crc_byte crc_bit rtu_response_remaining
send_and_receive-bus = refl

-- The request is read off the bus up to its end.
listen-bus : (Rtu.listen vector port (fresh (read_frame ++ (0x55 ∷ [])))).0 ≡ done read_frame
unfolding Rtu.listen Rtu.read_exact check_crc crc crc_byte crc_bit
listen-bus = refl

listen-net : (Tcp.listen vector port (fresh (read_tcp ++ (0x55 ∷ [])))).0 ≡ done read_tcp
unfolding Tcp.listen Tcp.read_exact Tcp.read_exact_loop Tcp.read_bytes
listen-net = refl

listen-net_closed :
    (Tcp.listen vector port (fresh (0x00 ∷ []))).0 ≡ fail ModbusError.payload_too_short
unfolding Tcp.listen Tcp.read_exact Tcp.read_exact_loop
listen-net_closed = refl

write_all-wrote_example :
    Ensures
      (λ _ s. At traffic read_frame [] s)
      (WroteSome port-IsIo [] [] read_frame)
      (write_all port read_frame (fresh [])).0
      (write_all port read_frame (fresh [])).1
write_all-wrote_example = write_all-wrote port-IsIo [] [] read_frame (fresh []) (refl, refl)

read_exact-Filled_example :
    Ensures
      (Filled port-IsIo 3 [] [])
      (Quiet port-IsIo [])
      (Rtu.read_exact port 3 bus).0
      (Rtu.read_exact port 3 bus).1
read_exact-Filled_example = read_exact-Filled port-IsIo 3 [] [] bus (refl, refl)

receive-IsResponse_example :
    Ensures
      (IsResponse port-IsIo [] [])
      (Quiet port-IsIo [])
      (receive vector port bus).0
      (receive vector port bus).1
receive-IsResponse_example = receive-IsResponse port-IsIo vector-IsHeapless [] [] bus (refl, refl)

listen-IsRequest_example :
    Ensures
      (IsRequest port-IsIo vector-IsHeapless [] [])
      (Quiet port-IsIo [])
      (Rtu.listen vector port (fresh read_frame)).0
      (Rtu.listen vector port (fresh read_frame)).1
listen-IsRequest_example =
    listen-IsRequest port-IsIo vector-IsHeapless [] [] (fresh read_frame) (refl, refl)

send-Transmitted_example :
    Ensures
      (λ _ r. Transmitted pin port-IsIo [] [] read_frame [] r)
      (Broken pin port-IsIo [] [] read_frame [])
      (send port pin read_frame driver).0
      (send port pin read_frame driver).1
send-Transmitted_example =
    send-Transmitted pin port-IsIo [] [] read_frame [] driver (refl, refl) refl

send-mute : (send mute pin read_frame driver).0 ≢ done tt
unfolding send write_all
send-mute = λ e. cc

send_broken_high_example : (send mute pin read_frame driver).1.tx_en ≡ true ∷ []
send_broken_high_example = send_broken_high mute pin read_frame driver refl send-mute

listen-IsTcpFrame_example :
    Ensures
      (IsTcpFrame port-IsIo vector-IsHeapless [] [])
      (Tcp.Listen.Quiet port-IsIo [])
      (Tcp.listen vector port (fresh read_tcp)).0
      (Tcp.listen vector port (fresh read_tcp)).1
listen-IsTcpFrame_example =
    listen-IsTcpFrame port-IsIo vector-IsHeapless [] [] (fresh read_tcp) (refl, refl)

-- A port that counts the reads, all of which fail.
abbrev broken : Io ℕ (Unit {0})
broken = record {
  read = λ n s. (fail tt, s + 1);
  write = λ bytes s. (done (length bytes), s);
  flush = λ s. (done tt, s);
}

read_exact-broken_example : Rtu.read_exact broken 3 0 ≡ (fail (ModbusError.serial tt), 11)
read_exact-broken_example = read_exact-broken broken tt (λ s. s + 1) (λ n s. refl) 3 0 (omega arith)

-- The id before the wrap, and the one after it.
abbrev last_id : ModbusTcp (Unit {0})
last_id = record { stream = tt; transaction_id = 65534 }

next_transaction_id-distinct_example :
    ((next_transaction_id (repeat 0 advance last_id)).0 ≡ (65534 + 0 + 1) % 2 ^ 16)
    × ((next_transaction_id (repeat (0 + 1) advance last_id)).0
        ≢ (next_transaction_id (repeat 0 advance last_id)).0)
next_transaction_id-distinct_example =
    next_transaction_id-distinct 0 1 last_id (omega arith) (omega arith) (omega arith)

-- Write two registers of unit 1.
abbrev write_frame : List ℕ
write_frame = 1 ∷ 0x10 ∷ 0 ∷ 0 ∷ 0 ∷ 2 ∷ 4 ∷ 0 ∷ 7 ∷ 0 ∷ 8 ∷ 0 ∷ 0 ∷ []

write_multiple-capacity_example :
    (length write_frame ≡ rtu_capacity 2 reg_bytes_16)
    × (length write_frame ≤ rtu_buf)
    × (length (mbap_frame 9 (body write_frame)) + 2 ≡ tcp_capacity 2 reg_bytes_16)
    × (length (mbap_frame 9 (body write_frame)) ≤ tcp_buf)
write_multiple-capacity_example =
    write_multiple-capacity write_frame 2 9 refl refl refl (omega arith)

rtu_constants-values :
    rtu_constants ≡ 11 ∷ 17 ∷ 25 ∷ 29 ∷ 41 ∷ 73 ∷ 137 ∷ 255 ∷ 13 ∷ 25 ∷ 41 ∷ 49 ∷ 137 ∷ 253 ∷ []
unfolding rtu_constants rtu_capacity
rtu_constants-values = refl

tcp_constants-values : tcp_constants ≡ 17 ∷ 23 ∷ 31 ∷ 35 ∷ 47 ∷ 79 ∷ 143 ∷ 261 ∷ 55 ∷ 259 ∷ []
unfolding tcp_constants tcp_capacity
tcp_constants-values = refl

-- Ten reads fail before the port gives anything, and the bytes are there all the same.
read_exact-tolerates_example :
    Runs
      (Rtu.read_exact flaky 9)
      (quiet_peer (λ _. response_frame ++ (0x55 ∷ [])), 10)
      response_frame
      (Stands flaky-IsIo flaky-IsFaulty (λ _. response_frame ++ (0x55 ∷ [])) 10 [] response_frame)
read_exact-tolerates_example =
    read_exact-tolerates flaky-IsIo flaky-IsFaulty (λ _. response_frame ++ (0x55 ∷ [])) 9 10 [] []
      response_frame (0x55 ∷ []) (quiet_peer (λ _. response_frame ++ (0x55 ∷ [])), 10) refl
      (omega arith) ((refl, refl), λ _. refl, omega arith) refl
