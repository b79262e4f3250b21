-- ===== src/ClientSession/Raced.antt =====
-- `next` of src/client_session.rs in its async half, with timeouts.
use modbus_bridge_rs.Base.{ℕ, List, Option, none, some}
use modbus_bridge_rs.Base.Outcome.{◌>>=◌, ◌>>◌, map_fail}
use modbus_bridge_rs.Ports.{Ports}
use modbus_bridge_rs.Rtu
use modbus_bridge_rs.Tcp
use modbus_bridge_rs.Event.{BridgeEvent, tcp_io}
use modbus_bridge_rs.Timing.Race.{AsyncDelay, deadlined, raced}
use modbus_bridge_rs.Connection.{listen_error}
use modbus_bridge_rs.ClientSession.{Cycle, on_tcp, request_error, read_request, answer}

module _ {S TX TS D SE TE : Type 0} (p : Ports S TX TS SE TE) (clock : AsyncDelay D) where
  -- `select(rtu.listen(), delay.delay_ms(ms))`
  unfoldable pub request_before : ℕ → Cycle S TX TS D SE TE (List ℕ)
  request_before ms c =
      let (budget, delay) = clock.delay_ms ms c.client.delay in
      let (r, (serial, left)) =
        Rtu.listen p.vec (deadlined p.serial) (c.client.rtu.serial, budget) in
      (
        raced request_error r,
        record c {
          client = record c.client { rtu = record c.client.rtu { serial = serial }; delay = delay };
        },
      )

  abbrev pub request_within : Option ℕ → Cycle S TX TS D SE TE (List ℕ)
  request_within none = read_request p
  request_within (some ms) = request_before ms

  -- `select(tcp.listen(), delay.delay_ms(ms))`
  unfoldable pub response_before : ℕ → Cycle S TX TS D SE TE (List ℕ)
  response_before ms c =
      let (budget, delay) = clock.delay_ms ms c.client.delay in
      let (r, (stream, left)) = Tcp.listen p.vec (deadlined p.stream) (c.tcp.stream, budget) in
      (
        raced listen_error r,
        record c {
          client = record c.client { delay = delay };
          tcp = record c.tcp { stream = stream };
        },
      )

  abbrev pub response_within : Option ℕ → Cycle S TX TS D SE TE (List ℕ)
  response_within none = map_fail listen_error (on_tcp (Tcp.listen p.vec p.stream))
  response_within (some ms) = response_before ms

  -- Sending the request has no deadline.
  unfoldable pub raced_exchange : List ℕ → Cycle S TX TS D SE TE (List ℕ)
  raced_exchange tcp_req = map_fail tcp_io (on_tcp (Tcp.send p.stream tcp_req)) >> λ c.
      response_within c.client.tcp_timeout_ms c

  unfoldable pub next : Cycle S TX TS D SE TE BridgeEvent
  next c = (request_within c.client.rtu_timeout_ms >>= answer p raced_exchange) c
