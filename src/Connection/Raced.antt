-- ===== src/Connection/Raced.antt =====
-- `next` of src/connection.rs in its async half, with timeouts.
use modbus_bridge_rs.Base.{ℕ, List, Option, none, some}
use modbus_bridge_rs.Base.Outcome.{◌>>=◌}
use modbus_bridge_rs.Ports.{Ports}
use modbus_bridge_rs.Rtu.{send_and_receive}
use modbus_bridge_rs.Tcp
use modbus_bridge_rs.Tcp.{TcpError}
use modbus_bridge_rs.Event.{BridgeEvent}
use modbus_bridge_rs.Timing.Race.{AsyncDelay, deadlined, raced}
use modbus_bridge_rs.Connection.{
  Cycle, listen_error, exchange_error, read_request, answer, exchange,
}

module _ {S TX TS D SE TE : Type 0} (p : Ports S TX TS SE TE) (clock : AsyncDelay D) where
  -- `select(tcp.listen(), delay.delay_ms(ms))`
  unfoldable pub listen_before : ℕ → Cycle S TX TS D SE TE (List ℕ)
  listen_before ms c =
      let (budget, delay) = clock.delay_ms ms c.bridge.delay in
      let (r, (stream, left)) = Tcp.listen p.vec (deadlined p.stream) (c.tcp.stream, budget) in
      (
        raced listen_error r,
        record c {
          bridge = record c.bridge { delay = delay };
          tcp = record c.tcp { stream = stream };
        },
      )

  abbrev pub listen_within : Option ℕ → Cycle S TX TS D SE TE (List ℕ)
  listen_within none = read_request p
  listen_within (some ms) = listen_before ms

  -- `select(rtu.send_and_receive(&rtu_req), delay.delay_ms(ms))`
  unfoldable pub exchange_before : ℕ → List ℕ → Cycle S TX TS D SE TE (List ℕ)
  exchange_before ms rtu_req c =
      let (budget, delay) = clock.delay_ms ms c.bridge.delay in
      let (r, rtu) =
        send_and_receive p.vec (deadlined p.serial) p.pin rtu_req
          (record { serial = (c.bridge.rtu.serial, budget); tx_en = c.bridge.rtu.tx_en }) in
      (
        raced exchange_error r,
        record c {
          bridge = record c.bridge {
            rtu = record { serial = rtu.serial.0; tx_en = rtu.tx_en };
            delay = delay;
          };
        },
      )

  abbrev pub exchange_within : Option ℕ → List ℕ → Cycle S TX TS D SE TE (List ℕ)
  exchange_within none = exchange p
  exchange_within (some ms) = exchange_before ms

  unfoldable pub next : Cycle S TX TS D SE TE BridgeEvent
  next c =
      (listen_within c.bridge.tcp_timeout_ms
          >>= answer p (λ rtu_req c'. exchange_within c'.bridge.rtu_timeout_ms rtu_req c'))
        c
