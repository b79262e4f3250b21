-- ===== src/ClientSession/Deadlines.antt =====
-- The cycle of src/client_session.rs with timeouts keeps to the contract of the cycle without them.
use modbus_bridge_rs.Base.{ℕ, ◌≡◌, refl, ◌∙◌, inl, List, ◌++◌}
use modbus_bridge_rs.Base.Outcome.{map_fail}
use modbus_bridge_rs.Base.Ensures.{Ensures, Ensures-bind, Ensures-weaken, Ensures-always}
use modbus_bridge_rs.Io.{ReadReady, DelayNs, Traffic, At}
use modbus_bridge_rs.Base.{map}
use modbus_bridge_rs.Io.Order.{Move, sends}
use modbus_bridge_rs.Tcp.Order.{Read}
use modbus_bridge_rs.Ports.{Ports, IsNetLogged}
use modbus_bridge_rs.Tcp
use modbus_bridge_rs.Event.{tcp_io, rtu_io}
use modbus_bridge_rs.Timing.Poll.{IsReadReady, IsUnlogged, unlogged, ready-At, wait_ready-keeps}
use modbus_bridge_rs.ClientSession.{ClientSession, on_tcp}
use modbus_bridge_rs.ClientSession.Timed
use modbus_bridge_rs.ClientSession.Timed.{wait_stream, wait_serial, timed_exchange}
use modbus_bridge_rs.ClientSession.Parts.{
  Lines, Unanswered, Kept, Responded, responded, Exchanges, send-post, listen-post,
}
use modbus_bridge_rs.ClientSession.Cycles.{Forwarded, next_tid, cycle-post}

module _ {S TX TS D SE TE : Type 0} {p : Ports S TX TS SE TE} {bus : Traffic S}
    {log : TS → List Move} (lawful : IsNetLogged p bus log) {serial_ready : ReadReady S SE}
    {stream_ready : ReadReady TS TE} (clock : DelayNs D)
    (serial_quiet : IsReadReady serial_ready bus) (stream_quiet : IsUnlogged stream_ready log) where
  abbrev Stands : List ℕ → List ℕ → List Move → ℕ → ClientSession S TX TS D → Type 0
  Stands bus_out bus_in l tid c = Lines lawful bus_out bus_in l c × (c.tcp.transaction_id ≡ tid)

  wait_serial-keeps :
      (bus_out bus_in : List ℕ) (l : List Move) (c : ClientSession S TX TS D)
      → Lines lawful bus_out bus_in l c
      → Ensures
          (λ _ c'. Stands bus_out bus_in l c.tcp.transaction_id c')
          (Unanswered lawful bus_out bus_in l)
          (wait_serial p serial_ready stream_ready clock c).0
          (wait_serial p serial_ready stream_ready clock c).1
  unfolding wait_serial
  wait_serial-keeps bus_out bus_in l c (ab, an) =
      let L : ClientSession S TX TS D → Type 0 = Stands bus_out bus_in l c.tcp.transaction_id in
      let run = wait_serial p serial_ready stream_ready clock c in
      Ensures-weaken (λ _ c'. L c') (λ _ c'. L c') (λ _ c'. L c')
        (Unanswered lawful bus_out bus_in l) run.0 run.1
        (Ensures-always L run.0 run.1 (
          (
            wait_ready-keeps serial_ready clock rtu_io (At bus bus_out bus_in)
                (ready-At serial_quiet bus_out bus_in) c.client.rtu_timeout_ms c.client.rtu.serial
                c.client.delay ab,
            an,
          ),
          refl,
        ))
        (λ _ _ q. q) (λ _ _ q. inl q.0.0.0)

  abbrev Waited : List Move → ClientSession S TX TS D → ClientSession S TX TS D → Type 0
  Waited l c c' = (log c'.tcp.stream ≡ l) × Kept lawful c c'

  wait_stream-keeps :
      (l : List Move) (c c' : ClientSession S TX TS D)
      → Waited l c c'
      → Ensures
          (λ _ c''. Waited l c c'')
          (λ _ c''. Kept lawful c c'')
          (wait_stream p serial_ready stream_ready clock c').0
          (wait_stream p serial_ready stream_ready clock c').1
  unfolding wait_stream
  wait_stream-keeps l c c' (an, k) =
      let L : ClientSession S TX TS D → Type 0 = Waited l c in
      let run = wait_stream p serial_ready stream_ready clock c' in
      Ensures-weaken (λ _ c''. L c'') (λ _ c''. L c'') (λ _ c''. L c'') (λ _ c''. Kept lawful c c'')
        run.0 run.1
        (Ensures-always L run.0 run.1 (
          wait_ready-keeps stream_ready clock tcp_io (λ s. log s ≡ l) (unlogged stream_quiet l)
              c'.client.tcp_timeout_ms c'.tcp.stream c'.client.delay an,
          k,
        ))
        (λ _ _ q. q) (λ _ _ q. q.1)

  timed_exchange-post : Exchanges lawful (timed_exchange p serial_ready stream_ready clock)
  unfolding timed_exchange
  timed_exchange-post l tcp_req c an =
      Ensures-bind (λ _ c'. Waited (l ++ map sends tcp_req) c c') (Responded lawful l tcp_req c)
        (λ _ c'. Kept lawful c c') (map_fail tcp_io (on_tcp (Tcp.send p.stream tcp_req))) _ c
        (send-post lawful l tcp_req c an)
        (λ _ c' w.
          Ensures-bind (λ _ c''. Waited (l ++ map sends tcp_req) c c'')
            (Responded lawful l tcp_req c) (λ _ c''. Kept lawful c c'')
            (wait_stream p serial_ready stream_ready clock) _ c'
            (wait_stream-keeps (l ++ map sends tcp_req) c c' w)
            (λ _ c'' (an', k).
              Ensures-weaken
                (λ resp t.
                  Read lawful.stream_logged lawful.stream_lawful lawful.vec_lawful
                    (l ++ map sends tcp_req) resp t.tcp.stream
                  × Kept lawful c'' t)
                (Responded lawful l tcp_req c) (λ _ t. Kept lawful c'' t) (λ _ t. Kept lawful c t) _
                _ (listen-post lawful (l ++ map sends tcp_req) c'' an')
                (λ resp t q. responded lawful l tcp_req resp c c'' t k q.0 q.1)
                (λ _ _ q. (q.0 ∙ k.0, q.1 ∙ k.1))))

  -- One call of the blocking `next` with any timeouts, on ports that keep their contracts and from
  -- any point of the traffic, forwards one request and one response like the call without
  -- timeouts when it returns an event; after an error or a stall, `Timeout`
  -- included, nothing has been sent to the master, or the call was cut off in its answer, by a
  -- stall or an error of the serial port.
  pub timed_session_next-Forwarded :
      (bus_out bus_in : List ℕ) (l : List Move) (c : ClientSession S TX TS D)
      → Lines lawful bus_out bus_in l c
      → Ensures
          (Forwarded lawful bus_out bus_in l (next_tid lawful c))
          (Unanswered lawful bus_out bus_in l)
          (Timed.next p serial_ready stream_ready clock c).0
          (Timed.next p serial_ready stream_ready clock c).1
  unfolding Timed.next
  timed_session_next-Forwarded bus_out bus_in l c lines =
      Ensures-bind (λ _ c'. Stands bus_out bus_in l c.tcp.transaction_id c')
        (Forwarded lawful bus_out bus_in l (next_tid lawful c)) (Unanswered lawful bus_out bus_in l)
        (wait_serial p serial_ready stream_ready clock) _ c
        (wait_serial-keeps bus_out bus_in l c lines)
        (λ _ c' (lines', same). rw (← same) (
          cycle-post lawful (timed_exchange p serial_ready stream_ready clock) timed_exchange-post
            bus_out bus_in l c' lines'))
