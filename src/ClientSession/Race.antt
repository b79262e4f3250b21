-- ===== src/ClientSession/Race.antt =====
-- The async cycle of src/client_session.rs with timeouts keeps to the contract of the cycle without
-- them, wherever the delays fire.
use modbus_bridge_rs.Base.{ℕ, refl, ◌∙◌, inl, List, ◌++◌, Option, none, some}
use modbus_bridge_rs.Base.Outcome.{Outcome, map_fail}
use modbus_bridge_rs.Base.Ensures.{Ensures, Ensures-bind, Ensures-weaken}
use modbus_bridge_rs.Io.{Traffic, At}
use modbus_bridge_rs.Base.{map, ◌≡◌}
use modbus_bridge_rs.Io.Order.{Move, sends}
use modbus_bridge_rs.Tcp.Order.{Read, listen-Logged}
use modbus_bridge_rs.Ports.{Ports, IsNetLogged}
use modbus_bridge_rs.Rtu
use modbus_bridge_rs.Rtu.{RtuError}
use modbus_bridge_rs.Rtu.Read
use modbus_bridge_rs.Rtu.Listen.{IsRequest, listen-IsRequest}
use modbus_bridge_rs.Tcp
use modbus_bridge_rs.Tcp.{TcpError}
use modbus_bridge_rs.Event.{tcp_io}
use modbus_bridge_rs.Timing.Race.{
  AsyncDelay, deadlined, Ensures-raced, deadlined-IsIo, deadlined-IsLogged,
}
use modbus_bridge_rs.Connection.{listen_error}
use modbus_bridge_rs.ClientSession.{ClientSession, on_tcp, request_error, answer}
use modbus_bridge_rs.ClientSession.Raced
use modbus_bridge_rs.ClientSession.Raced.{
  request_before, request_within, response_before, response_within, raced_exchange,
}
use modbus_bridge_rs.ClientSession.Parts.{
  Lines, Unanswered, Heard, Kept, Responded, responded, Exchanges, read_request-post, send-post,
  listen-post,
}
use modbus_bridge_rs.ClientSession.Cycles.{Forwarded, next_tid, answer-post}

module _ {S TX TS D SE TE : Type 0} {p : Ports S TX TS SE TE} {bus : Traffic S}
    {log : TS → List Move} (lawful : IsNetLogged p bus log) (clock : AsyncDelay D) where
  request_within-post :
      (timeout_ms : Option ℕ) (bus_out bus_in : List ℕ) (l : List Move)
      (c : ClientSession S TX TS D)
      → At bus bus_out bus_in c.client.rtu.serial
      → Ensures
          (Heard lawful bus_out bus_in c)
          (Unanswered lawful bus_out bus_in l)
          (request_within p clock timeout_ms c).0
          (request_within p clock timeout_ms c).1
  unfolding request_before
  request_within-post none bus_out bus_in l c ab = read_request-post lawful bus_out bus_in l c ab
  request_within-post (some ms) bus_out bus_in l c ab =
      let budget : ℕ = (clock.delay_ms ms c.client.delay).0 in
      let run : Outcome (RtuError SE) (List ℕ) × (S × ℕ) =
        Rtu.listen p.vec (deadlined p.serial) (c.client.rtu.serial, budget) in
      let kept = deadlined-IsIo lawful.serial_lawful in
      Ensures-raced request_error (IsRequest kept lawful.vec_lawful bus_out bus_in)
        (Rtu.Read.Quiet kept bus_out) (Heard lawful bus_out bus_in c)
        (Unanswered lawful bus_out bus_in l) run.0 run.1 (request_within p clock (some ms) c).1
        (listen-IsRequest kept lawful.vec_lawful bus_out bus_in (c.client.rtu.serial, budget) ab)
        (λ _ q. (q, refl)) (λ _ _ q. inl q)

  -- A response has been read, with nothing done to the other line.
  abbrev Replied : List Move → ClientSession S TX TS D → List ℕ → ClientSession S TX TS D → Type 0
  Replied l c resp c' =
      Read lawful.stream_logged lawful.stream_lawful lawful.vec_lawful l resp c'.tcp.stream
      × Kept lawful c c'

  response_within-post :
      (timeout_ms : Option ℕ) (l : List Move) (c : ClientSession S TX TS D)
      → (log c.tcp.stream ≡ l)
      → Ensures
          (Replied l c)
          (λ _ c'. Kept lawful c c')
          (response_within p clock timeout_ms c).0
          (response_within p clock timeout_ms c).1
  unfolding response_before
  response_within-post none l c an = listen-post lawful l c an
  response_within-post (some ms) l c an =
      let budget : ℕ = (clock.delay_ms ms c.client.delay).0 in
      let run : Outcome (TcpError TE) (List ℕ) × (TS × ℕ) =
        Tcp.listen p.vec (deadlined p.stream) (c.tcp.stream, budget) in
      let kept = deadlined-IsIo lawful.stream_lawful in
      let logs = deadlined-IsLogged lawful.stream_logged in
      Ensures-raced listen_error (Read logs kept lawful.vec_lawful l) (λ _ _. Unit {0})
        (Replied l c) (λ _ c'. Kept lawful c c') run.0 run.1 (response_within p clock (some ms) c).1
        (listen-Logged logs kept lawful.vec_lawful l (c.tcp.stream, budget) an)
        (λ _ q. (q, (refl, refl))) (λ _ _ q. (refl, refl))

  raced_exchange-post : Exchanges lawful (raced_exchange p clock)
  unfolding raced_exchange
  raced_exchange-post l tcp_req c an =
      Ensures-bind (λ _ c'. (log c'.tcp.stream ≡ l ++ map sends tcp_req) × Kept lawful c c')
        (Responded lawful l tcp_req c) (λ _ c'. Kept lawful c c')
        (map_fail tcp_io (on_tcp (Tcp.send p.stream tcp_req))) _ c (send-post lawful l tcp_req c an)
        (λ _ c' (an', k).
          Ensures-weaken (Replied (l ++ map sends tcp_req) c') (Responded lawful l tcp_req c)
            (λ _ c''. Kept lawful c' c'') (λ _ c''. Kept lawful c c'') _ _
            (response_within-post c'.client.tcp_timeout_ms (l ++ map sends tcp_req) c' an')
            (λ resp c'' q. responded lawful l tcp_req resp c c' c'' k q.0 q.1)
            (λ _ _ q. (q.0 ∙ k.0, q.1 ∙ k.1)))

  -- One call of the async `next` with any timeouts, on ports that keep their contracts, from any
  -- point of the traffic and wherever the delays fire, forwards one request and one response like
  -- the call without timeouts when it returns an event; after an error or a stall, `Timeout`
  -- included, nothing has been sent to the master, or the call was cut off in its answer, by a
  -- stall or an error of the serial port.
  pub raced_session_next-Forwarded :
      (bus_out bus_in : List ℕ) (l : List Move) (c : ClientSession S TX TS D)
      → Lines lawful bus_out bus_in l c
      → Ensures
          (Forwarded lawful bus_out bus_in l (next_tid lawful c))
          (Unanswered lawful bus_out bus_in l)
          (Raced.next p clock c).0
          (Raced.next p clock c).1
  unfolding Raced.next
  raced_session_next-Forwarded bus_out bus_in l c (ab, an) =
      Ensures-bind (Heard lawful bus_out bus_in c)
        (Forwarded lawful bus_out bus_in l (next_tid lawful c)) (Unanswered lawful bus_out bus_in l)
        (request_within p clock c.client.rtu_timeout_ms) (answer p (raced_exchange p clock)) c
        (request_within-post c.client.rtu_timeout_ms bus_out bus_in l c ab)
        (λ req c' ((valid, size, room, _, ab'), kept). rw (← kept) (
          answer-post lawful (raced_exchange p clock) raced_exchange-post bus_out bus_in l req c'
            valid size room (ab', rw kept an)))
