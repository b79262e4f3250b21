-- ===== src/ClientSession/Finish.antt =====
-- The cycle of src/client_session.rs ends.
use modbus_bridge_rs.Base.{List, ℕ, ◌≢◌, get_or}
use modbus_bridge_rs.Base.Outcome.{stalled, ◌>>=◌, lift, map_err, map_fail, pure}
use modbus_bridge_rs.Base.Completes.{Completes, lift-Completes, bind-Completes, map_fail-Completes}
use modbus_bridge_rs.Frame.{rtu_to_tcp, from_be_bytes}
use modbus_bridge_rs.Io.{IsPrompt, Traffic}
use modbus_bridge_rs.Io.WriteAll.{write_all-completes}
use modbus_bridge_rs.Ports.{Ports, IsPorts}
use modbus_bridge_rs.Rtu
use modbus_bridge_rs.Rtu.{on_serial}
use modbus_bridge_rs.Rtu.Finish.{listen-Completes, send-Completes}
use modbus_bridge_rs.Tcp
use modbus_bridge_rs.Tcp.Finish.{listen-completes}
use modbus_bridge_rs.Event.{BridgeEvent, tcp_io, rtu_io}
use modbus_bridge_rs.Connection.{listen_error, overflow}
use modbus_bridge_rs.ClientSession.{
  ClientSession, Cycle, on_rtu, on_tcp, request_error, relay_response, reply, relay, fresh_tid,
  answer, read_request, exchange, next,
}

module _ {S TX TS D SE TE : Type 0} {p : Ports S TX TS SE TE} {bus : Traffic S} {net : Traffic TS}
    (lawful : IsPorts p bus net) (serial_prompt : IsPrompt p.serial)
    (stream_prompt : IsPrompt p.stream) where
  reply-Completes :
      (frame : List ℕ) (event : BridgeEvent) → Completes (reply {TS = TS} {D = D} p frame event)
  reply-Completes frame event =
      bind-Completes (map_fail rtu_io (on_rtu (Rtu.send p.serial p.pin frame))) (λ _. pure event)
        (map_fail-Completes rtu_io (on_rtu (Rtu.send p.serial p.pin frame))
          (λ c. send-Completes lawful.serial_lawful serial_prompt p.vec p.pin frame c.client.rtu))
        (λ _ c x. cc)

  relay-Completes :
      (req : List ℕ) (tid : ℕ) (resp : List ℕ) → Completes (relay {D = D} p req tid resp)
  relay-Completes req tid resp =
      bind-Completes (lift (relay_response p.vec resp tid)) _
        (lift-Completes (relay_response p.vec resp tid)) (λ (frame, w). reply-Completes frame _)

  exchange-Completes : (tcp_req : List ℕ) → Completes (exchange {D = D} p tcp_req)
  unfolding exchange Tcp.send
  exchange-Completes tcp_req =
      bind-Completes (map_fail tcp_io (on_tcp (Tcp.send p.stream tcp_req))) _
        (map_fail-Completes tcp_io (on_tcp (Tcp.send p.stream tcp_req))
          (λ c. write_all-completes lawful.stream_lawful stream_prompt tcp_req c.tcp.stream))
        (λ _.
          map_fail-Completes listen_error (on_tcp (Tcp.listen p.vec p.stream))
            (λ c. listen-completes lawful.stream_lawful stream_prompt p.vec c.tcp.stream))

  answer-Completes : (req : List ℕ) → Completes (answer {D = D} p (exchange p) req)
  unfolding answer
  answer-Completes req =
      let answering : List ℕ → Cycle S TX TS D SE TE BridgeEvent = λ tcp_req.
        exchange p tcp_req
        >>= relay p req (from_be_bytes (get_or tcp_req 0 0) (get_or tcp_req 1 0)) in
      let sending : ℕ → Cycle S TX TS D SE TE BridgeEvent =
        λ id. lift (map_err overflow (rtu_to_tcp p.vec req id)) >>= answering in
      bind-Completes (fresh_tid p) sending (λ c x. cc)
        (λ id.
          bind-Completes (lift (map_err overflow (rtu_to_tcp p.vec req id))) answering
            (lift-Completes (map_err overflow (rtu_to_tcp p.vec req id)))
            (λ tcp_req.
              bind-Completes (exchange p tcp_req)
                (relay p req (from_be_bytes (get_or tcp_req 0 0) (get_or tcp_req 1 0)))
                (exchange-Completes tcp_req)
                (relay-Completes req (from_be_bytes (get_or tcp_req 0 0) (get_or tcp_req 1 0)))))

  -- On ports that keep their contracts and whose calls complete, `next` without timeouts ends with
  -- an event or an error from every state, whatever comes in on the two lines.
  pub session_next-completes : (c : ClientSession S TX TS D) → (next p c).0 ≢ stalled
  unfolding next read_request
  session_next-completes =
      bind-Completes (read_request p) (answer p (exchange p))
        (map_fail-Completes request_error (on_rtu (on_serial (Rtu.listen p.vec p.serial)))
          (λ c. listen-Completes lawful.serial_lawful serial_prompt p.vec c.client.rtu.serial))
        answer-Completes
