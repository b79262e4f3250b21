-- ===== src/Connection/Timed.antt =====
-- `next` of src/connection.rs in its blocking half, with timeouts.
use modbus_bridge_rs.Base.Outcome.{Exec, ◌>>=◌, ◌>>◌}
use modbus_bridge_rs.Io.{ReadReady, DelayNs}
use modbus_bridge_rs.Ports.{Ports}
use modbus_bridge_rs.Event.{BridgeError, BridgeEvent, tcp_io, rtu_io}
use modbus_bridge_rs.Timing.{wait_ready}
use modbus_bridge_rs.Connection.{Cycle, read_request, answer, exchange}

-- `next` of the blocking half, with timeouts.
module _ {S TX TS D SE TE : Type 0} (p : Ports S TX TS SE TE) (serial_ready : ReadReady S SE)
    (stream_ready : ReadReady TS TE) (clock : DelayNs D) where
  abbrev pub on_tcp_delay :
      Exec (TS × D) (BridgeError SE TE) (Unit {0}) → Cycle S TX TS D SE TE (Unit {0})
  on_tcp_delay m c =
      let (r, (stream, delay)) = m (c.tcp.stream, c.bridge.delay) in
      (
        r,
        record c {
          bridge = record c.bridge { delay = delay };
          tcp = record c.tcp { stream = stream };
        },
      )

  abbrev pub on_rtu_delay :
      Exec (S × D) (BridgeError SE TE) (Unit {0}) → Cycle S TX TS D SE TE (Unit {0})
  on_rtu_delay m c =
      let (r, (serial, delay)) = m (c.bridge.rtu.serial, c.bridge.delay) in
      (
        r,
        record c {
          bridge = record c.bridge { rtu = record c.bridge.rtu { serial = serial }; delay = delay };
        },
      )

  unfoldable pub wait_stream : Cycle S TX TS D SE TE (Unit {0})
  wait_stream c = on_tcp_delay (wait_ready stream_ready clock tcp_io c.bridge.tcp_timeout_ms) c

  unfoldable pub wait_serial : Cycle S TX TS D SE TE (Unit {0})
  wait_serial c = on_rtu_delay (wait_ready serial_ready clock rtu_io c.bridge.rtu_timeout_ms) c

  unfoldable pub next : Cycle S TX TS D SE TE BridgeEvent
  next = do
    wait_stream
    tcp_req ← read_request p
    answer p (λ rtu_req. wait_serial >> exchange p rtu_req) tcp_req
