-- ===== src/Connection/Finish.antt =====
-- The cycle of src/connection.rs ends.
use modbus_bridge_rs.Base.{List, ℕ, ◌≢◌}
use modbus_bridge_rs.Base.Outcome.{stalled, lift, map_err, map_fail, pure}
use modbus_bridge_rs.Base.Completes.{Completes, lift-Completes, bind-Completes, map_fail-Completes}
use modbus_bridge_rs.Frame.{tcp_to_rtu}
use modbus_bridge_rs.Io.{IsPrompt, Traffic}
use modbus_bridge_rs.Io.WriteAll.{write_all-completes}
use modbus_bridge_rs.Ports.{Ports, IsPorts}
use modbus_bridge_rs.Rtu.{send_and_receive}
use modbus_bridge_rs.Rtu.Finish.{send_and_receive-Completes}
use modbus_bridge_rs.Tcp
use modbus_bridge_rs.Tcp.Finish.{listen-completes}
use modbus_bridge_rs.Event.{BridgeEvent, tcp_io}
use modbus_bridge_rs.Connection.{
  Connection, on_rtu, on_tcp, listen_error, exchange_error, overflow, relay_response, reply, relay,
  answer, read_request, exchange, next,
}

module _ {S TX TS D SE TE : Type 0} {p : Ports S TX TS SE TE} {bus : Traffic S} {net : Traffic TS}
    (lawful : IsPorts p bus net) (serial_prompt : IsPrompt p.serial)
    (stream_prompt : IsPrompt p.stream) where
  reply-Completes : (frame : List ℕ) (event : BridgeEvent) → Completes (reply {D = D} p frame event)
  unfolding Tcp.send
  reply-Completes frame event =
      bind-Completes (map_fail tcp_io (on_tcp (Tcp.send p.stream frame))) (λ _. pure event)
        (map_fail-Completes tcp_io (on_tcp (Tcp.send p.stream frame))
          (λ c. write_all-completes lawful.stream_lawful stream_prompt frame c.tcp.stream))
        (λ _ c x. cc)

  relay-Completes :
      (req : List ℕ) (tid : ℕ) (resp : List ℕ) → Completes (relay {D = D} p req tid resp)
  relay-Completes req tid resp =
      bind-Completes (lift (relay_response p.vec resp tid)) _
        (lift-Completes (relay_response p.vec resp tid)) (λ (frame, w). reply-Completes frame _)

  exchange-Completes : (rtu_req : List ℕ) → Completes (exchange {D = D} p rtu_req)
  unfolding exchange
  exchange-Completes rtu_req =
      map_fail-Completes exchange_error (on_rtu (send_and_receive p.vec p.serial p.pin rtu_req))
        (λ c.
          send_and_receive-Completes lawful.serial_lawful serial_prompt p.vec p.pin rtu_req
            c.bridge.rtu)

  answer-Completes : (req : List ℕ) → Completes (answer {D = D} p (exchange p) req)
  unfolding answer
  answer-Completes req =
      bind-Completes (lift (map_err overflow (tcp_to_rtu p.vec req))) _
        (lift-Completes (map_err overflow (tcp_to_rtu p.vec req)))
        (λ (rtu_req, tid).
          bind-Completes (exchange p rtu_req) (relay p req tid) (exchange-Completes rtu_req)
            (relay-Completes req tid))

  -- On ports that keep their contracts and whose calls complete, `next` without timeouts ends with
  -- an event or an error from every state, whatever comes in on the two lines.
  pub next-completes : (c : Connection S TX TS D) → (next p c).0 ≢ stalled
  unfolding next read_request
  next-completes =
      bind-Completes (read_request p) (answer p (exchange p))
        (map_fail-Completes listen_error (on_tcp (Tcp.listen p.vec p.stream))
          (λ c. listen-completes lawful.stream_lawful stream_prompt p.vec c.tcp.stream))
        answer-Completes
