-- ===== src/ClientSession/Timed.antt =====
-- `next` of src/client_session.rs in its blocking half, with timeouts.
use modbus_bridge_rs.Base.{ℕ, List}
use modbus_bridge_rs.Base.Outcome.{◌>>=◌, ◌>>◌, map_fail, zoom}
use modbus_bridge_rs.Io.{ReadReady, DelayNs}
use modbus_bridge_rs.Ports.{Ports}
use modbus_bridge_rs.Tcp
use modbus_bridge_rs.Event.{BridgeEvent, tcp_io, rtu_io}
use modbus_bridge_rs.Timing.{wait_ready}
use modbus_bridge_rs.Connection.{listen_error}
use modbus_bridge_rs.ClientSession.{Cycle, on_tcp, read_request, answer}

module _ {S TX TS D SE TE : Type 0} (p : Ports S TX TS SE TE) (serial_ready : ReadReady S SE)
    (stream_ready : ReadReady TS TE) (clock : DelayNs D) where
  unfoldable pub wait_serial : Cycle S TX TS D SE TE (Unit {0})
  wait_serial c =
      zoom (λ c'. (c'.client.rtu.serial, c'.client.delay))
        (λ sd c'. record c' {
          client = record c'.client { rtu = record c'.client.rtu { serial = sd.0 }; delay = sd.1 };
        })
        (wait_ready serial_ready clock rtu_io c.client.rtu_timeout_ms) c

  unfoldable pub wait_stream : Cycle S TX TS D SE TE (Unit {0})
  wait_stream c =
      zoom (λ c'. (c'.tcp.stream, c'.client.delay))
        (λ sd c'. record c' {
          client = record c'.client { delay = sd.1 };
          tcp = record c'.tcp { stream = sd.0 };
        })
        (wait_ready stream_ready clock tcp_io c.client.tcp_timeout_ms) c

  -- The wait stands between sending the request and reading the response.
  unfoldable pub timed_exchange : List ℕ → Cycle S TX TS D SE TE (List ℕ)
  timed_exchange tcp_req = do
    map_fail tcp_io (on_tcp (Tcp.send p.stream tcp_req))
    wait_stream
    map_fail listen_error (on_tcp (Tcp.listen p.vec p.stream))

  unfoldable pub next : Cycle S TX TS D SE TE BridgeEvent
  next = do wait_serial; rtu_req ← read_request p; answer p timed_exchange rtu_req
