-- ===== src/Tests/Timing.antt =====
-- Runs of the polling loops, and of the cycles with timeouts, on concrete ports.
use modbus_bridge_rs.Base.{◌⊎◌}
use modbus_bridge_rs.Connection
use modbus_bridge_rs.ClientSession
use modbus_bridge_rs.Connection.Cutoff.{Beside, raced_next-next}
use modbus_bridge_rs.ClientSession.Cutoff as SessionCutoff
use modbus_bridge_rs.ClientSession.Cutoff.{raced_session_next-next}
use modbus_bridge_rs.Base.{◌+◌}
use modbus_bridge_rs.Base.{ℕ, ◌^◌, ◌<◌, ◌≡◌, ◌≢◌, refl, List, [], some, Option, Bool, arith}
use modbus_bridge_rs.Base.Outcome.{fail, stalled}
use modbus_bridge_rs.Base.Ensures.{Ensures}
use modbus_bridge_rs.Frame.{repeat}
use modbus_bridge_rs.Event.{BridgeError, BridgeEvent, rtu_io, timeout}
use modbus_bridge_rs.Timing.{wait_ready}
use modbus_bridge_rs.Timing.Poll.{wait_ready-silent, wait_ready-completes}
use modbus_bridge_rs.Connection.{Connection, answer}
use modbus_bridge_rs.Connection.Timed as ConnectionTimed
use modbus_bridge_rs.Connection.Silent.{timed_next-silent}
use modbus_bridge_rs.Timing.Race.{AsyncDelay}
use modbus_bridge_rs.Connection.Raced as ConnectionRaced
use modbus_bridge_rs.ClientSession.Raced as SessionRaced
use modbus_bridge_rs.Frame.{crc, crc_byte, crc_bit, tcp_to_rtu, rtu_response_remaining}
use modbus_bridge_rs.Io.{write_all}
use modbus_bridge_rs.Rtu
use modbus_bridge_rs.Tcp
use modbus_bridge_rs.Tests.Devices.{Port, fresh, ports, ready, ready_if_asked, counter}
use modbus_bridge_rs.Tests.Frames.{read_frame, read_tcp}
use modbus_bridge_rs.Tests.Transport.{response_frame}
use modbus_bridge_rs.Tests.Sessions.{session}

abbrev error : Unit {0} → BridgeError (Unit {0}) (Unit {0})
error = rtu_io

wait_ready-silent_example :
    wait_ready ready counter error (some 3) (fresh [], 100)
    ≡ (fail timeout, (fresh [], repeat 3 (counter.delay_ms 1) 100))
wait_ready-silent_example =
    wait_ready-silent ready counter error (fresh []) refl 3 (omega arith) 100

ready-prompt : (s : Port) → (ready.read_ready s).0 ≢ stalled
ready-prompt s = λ e. cc

three-small : (n : ℕ) → ◌≡◌ {A = Option ℕ} (some 3) (some n) → n < 2 ^ 32
three-small n e = ground arith

wait_ready-completes_example : (wait_ready ready counter error (some 3) (fresh [], 0)).0 ≢ stalled
wait_ready-completes_example =
    wait_ready-completes ready counter error ready-prompt (some 3) three-small (fresh [], 0)

abbrev connection : Connection Port (List Bool) Port ℕ
connection = record {
  bridge = record {
    rtu = record { serial = fresh response_frame; tx_en = [] };
    rtu_timeout_ms = some 20;
    tcp_timeout_ms = some 30;
    delay = 0;
  };
  tcp = record { stream = fresh read_tcp; transaction_id = 0 };
}

timed_next-silent_example :
    Ensures {A = BridgeEvent}
      (λ _ _. ⊥)
      (λ _ c'. (c'.bridge.rtu ≡ connection.bridge.rtu) × (c'.bridge.rtu_timeout_ms ≡ some 20))
      (ConnectionTimed.next ports ready_if_asked ready counter connection).0
      (ConnectionTimed.next ports ready_if_asked ready counter connection).1
timed_next-silent_example =
    timed_next-silent ports ready_if_asked ready counter connection 20 (omega arith) refl refl

-- A delay that fires in the middle of the device's response.
abbrev early : AsyncDelay ℕ
early = record { delay_ms = λ ms d. (9, d + ms) }

raced_next-early :
    let (r, c) = ConnectionRaced.next ports early connection in
    (r ≡ fail timeout) × (c.bridge.rtu.serial.outgoing ≡ read_frame) × (c.tcp.stream.outgoing ≡ [])
unfolding ConnectionRaced.next ConnectionRaced.listen_before ConnectionRaced.exchange_before answer
    tcp_to_rtu crc crc_byte crc_bit Tcp.listen Tcp.read_exact Tcp.read_exact_loop Tcp.read_bytes
    Rtu.send_and_receive Rtu.send Rtu.receive Rtu.read_exact Rtu.read_bytes write_all
    rtu_response_remaining
raced_next-early = (refl, refl, refl)

raced_next-next_example :
    ((ConnectionRaced.next ports early connection).0 ≡ fail timeout)
    ⊎ (((ConnectionRaced.next ports early connection).0 ≡ (Connection.next ports connection).0)
        × Beside ports early
            (ConnectionRaced.next ports early connection).1
            (Connection.next ports connection).1)
raced_next-next_example = raced_next-next ports early connection

raced_session_next-next_example :
    ((SessionRaced.next ports early session).0 ≡ fail timeout)
    ⊎ (((SessionRaced.next ports early session).0 ≡ (ClientSession.next ports session).0)
        × SessionCutoff.Beside ports early
            (SessionRaced.next ports early session).1
            (ClientSession.next ports session).1)
raced_session_next-next_example = raced_session_next-next ports early session
