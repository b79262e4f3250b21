-- ===== src/Connection/Race.antt =====
-- The async cycle of src/connection.rs with timeouts keeps to the contract of the cycle without
-- them, wherever the delays fire.
use modbus_bridge_rs.Base.{ℕ, ◌≡◌, refl, ap, inl, List, Option, none, some}
use modbus_bridge_rs.Base.Outcome.{Outcome}
use modbus_bridge_rs.Base.Ensures.{Ensures, Ensures-bind, Ensures-weaken}
use modbus_bridge_rs.Io.{Traffic, At}
use modbus_bridge_rs.Ports.{Ports, IsBusLogged}
use modbus_bridge_rs.Rtu.{ModbusRtu, RtuError, send_and_receive}
use modbus_bridge_rs.Rtu.Order.{Answered, Interrupted, send_and_receive-Answered}
use modbus_bridge_rs.Io.Order.{Move}
use modbus_bridge_rs.Tcp
use modbus_bridge_rs.Tcp.{TcpError}
use modbus_bridge_rs.Tcp.Listen.{IsTcpFrame, Quiet, listen-IsTcpFrame}
use modbus_bridge_rs.Timing.Race.{
  AsyncDelay, deadlined, Ensures-raced, deadlined-IsIo, deadlined-IsLogged,
}
use modbus_bridge_rs.Connection.{
  Connection, Cycle, listen_error, exchange_error, answer, read_request,
}
use modbus_bridge_rs.Connection.Raced
use modbus_bridge_rs.Connection.Raced.{
  listen_before, listen_within, exchange_before, exchange_within,
}
use modbus_bridge_rs.Connection.Cycles.{
  Lines, Forwarded, Unanswered, Heard, Responded, Exchanges, exchange-post, read_request-post,
  answer-post,
}

module _ {S TX TS D SE TE : Type 0} {p : Ports S TX TS SE TE} {log : S → List Move}
    {net : Traffic TS} (lawful : IsBusLogged p log net) (clock : AsyncDelay D) where
  -- A request has been read, and the bus is as it was.
  abbrev Read : List ℕ → List ℕ → Connection S TX TS D → List ℕ → Connection S TX TS D → Type 0
  Read net_out net_in c req c' =
      IsTcpFrame lawful.stream_lawful lawful.vec_lawful net_out net_in req c'.tcp.stream
      × (c'.bridge.rtu ≡ c.bridge.rtu)

  listen_within-post :
      (timeout_ms : Option ℕ) (l : List Move) (net_out net_in : List ℕ) (c : Connection S TX TS D)
      → At net net_out net_in c.tcp.stream
      → Ensures
          (Read net_out net_in c)
          (Unanswered lawful l net_out net_in)
          (listen_within p clock timeout_ms c).0
          (listen_within p clock timeout_ms c).1
  unfolding listen_before
  listen_within-post none l net_out net_in c an =
      Ensures-weaken (Heard lawful net_out net_in c.bridge) (Read net_out net_in c)
        (Unanswered lawful l net_out net_in) (Unanswered lawful l net_out net_in)
        (read_request p c).0 (read_request p c).1 (read_request-post lawful l net_out net_in c an)
        (λ _ _ q. (q.0, ap (λ b. b.rtu) q.1)) (λ _ _ q. q)
  listen_within-post (some ms) l net_out net_in c an =
      let budget : ℕ = (clock.delay_ms ms c.bridge.delay).0 in
      let run : Outcome (TcpError TE) (List ℕ) × (TS × ℕ) =
        Tcp.listen p.vec (deadlined p.stream) (c.tcp.stream, budget) in
      Ensures-raced listen_error
        (IsTcpFrame (deadlined-IsIo lawful.stream_lawful) lawful.vec_lawful net_out net_in)
        (Quiet (deadlined-IsIo lawful.stream_lawful) net_out) (Read net_out net_in c)
        (Unanswered lawful l net_out net_in) run.0 run.1 (listen_within p clock (some ms) c).1
        (listen-IsTcpFrame (deadlined-IsIo lawful.stream_lawful) lawful.vec_lawful net_out net_in
          (c.tcp.stream, budget) an)
        (λ _ q. (q, refl)) (λ _ _ q. inl q)

  exchange_within-post :
      (timeout_ms : Option ℕ) → Exchanges lawful (exchange_within p clock timeout_ms)
  unfolding exchange_before
  exchange_within-post none l rtu_req c ab = exchange-post lawful l rtu_req c ab
  exchange_within-post (some ms) l rtu_req c ab =
      let start : ModbusRtu (S × ℕ) TX = record {
        serial = (c.bridge.rtu.serial, (clock.delay_ms ms c.bridge.delay).0);
        tx_en = c.bridge.rtu.tx_en;
      } in
      let run : Outcome (RtuError SE) (List ℕ) × ModbusRtu (S × ℕ) TX =
        send_and_receive p.vec (deadlined p.serial) p.pin rtu_req start in
      let kept = deadlined-IsIo lawful.serial_lawful in
      let logs = deadlined-IsLogged lawful.serial_logged in
      Ensures-raced exchange_error
        (Answered p.pin logs kept lawful.vec_lawful l rtu_req c.bridge.rtu.tx_en)
        (Interrupted p.pin logs kept lawful.vec_lawful l rtu_req) (Responded lawful l rtu_req c.tcp)
        (λ _ c'. c'.tcp ≡ c.tcp) run.0 run.1 (exchange_within p clock (some ms) rtu_req c).1
        (send_and_receive-Answered p.pin logs kept lawful.vec_lawful l rtu_req start ab)
        (λ _ (valid, _, fits, _, a). (valid, fits, a, refl)) (λ _ _ q. refl)

  -- One call of the async `next` with any timeouts, on ports that keep their contracts, from any
  -- point of the traffic and wherever the delays fire, forwards one request and one response like
  -- the call without timeouts when it returns an event; after an error or a stall, `Timeout`
  -- included, nothing has been sent to the client, or the call was cut off in its answer, by a
  -- stall or an error of the TCP stream.
  pub raced_next-Forwarded :
      (l : List Move) (net_out net_in : List ℕ) (c : Connection S TX TS D)
      → Lines lawful l net_out net_in c
      → Ensures
          (Forwarded lawful l net_out net_in)
          (Unanswered lawful l net_out net_in)
          (Raced.next p clock c).0
          (Raced.next p clock c).1
  unfolding Raced.next
  raced_next-Forwarded l net_out net_in c (ab, an) =
      let exchanging : List ℕ → Cycle S TX TS D SE TE (List ℕ) =
        λ rtu_req c'. exchange_within p clock c'.bridge.rtu_timeout_ms rtu_req c' in
      Ensures-bind (Read net_out net_in c) (Forwarded lawful l net_out net_in)
        (Unanswered lawful l net_out net_in) (listen_within p clock c.bridge.tcp_timeout_ms)
        (answer p exchanging) c (listen_within-post c.bridge.tcp_timeout_ms l net_out net_in c an)
        (λ req c' ((size, room, _, an'), kept).
          answer-post lawful exchanging
            (λ l' rtu_req c'' a. exchange_within-post c''.bridge.rtu_timeout_ms l' rtu_req c'' a) l
            net_out net_in req c' size room (rw kept ab, an'))
