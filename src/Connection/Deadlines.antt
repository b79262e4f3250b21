-- ===== src/Connection/Deadlines.antt =====
-- The cycle of src/connection.rs with timeouts keeps to the contract of the cycle without them.
use modbus_bridge_rs.Base.{ℕ, ◌≡◌, refl, ◌∙◌, inl, List}
use modbus_bridge_rs.Base.Outcome.{◌>>◌}
use modbus_bridge_rs.Base.Ensures.{Ensures, Ensures-bind, Ensures-weaken, Ensures-always}
use modbus_bridge_rs.Io.{ReadReady, DelayNs, Traffic, At}
use modbus_bridge_rs.Ports.{Ports, IsBusLogged}
use modbus_bridge_rs.Event.{tcp_io, rtu_io}
use modbus_bridge_rs.Timing.Poll.{IsReadReady, IsUnlogged, unlogged, ready-At, wait_ready-keeps}
use modbus_bridge_rs.Io.Order.{Move}
use modbus_bridge_rs.Connection.{Connection, Cycle, exchange}
use modbus_bridge_rs.Connection.Timed
use modbus_bridge_rs.Connection.Timed.{wait_stream, wait_serial}
use modbus_bridge_rs.Connection.Cycles.{
  Lines, Forwarded, Unanswered, Responded, Exchanges, exchange-post, cycle-post,
}

module _ {S TX TS D SE TE : Type 0} {p : Ports S TX TS SE TE} {log : S → List Move}
    {net : Traffic TS} (lawful : IsBusLogged p log net) {serial_ready : ReadReady S SE}
    {stream_ready : ReadReady TS TE} (clock : DelayNs D)
    (serial_quiet : IsUnlogged serial_ready log) (stream_quiet : IsReadReady stream_ready net) where
  wait_stream-keeps :
      (l : List Move) (net_out net_in : List ℕ) (c : Connection S TX TS D)
      → Lines lawful l net_out net_in c
      → Ensures
          (λ _ c'. Lines lawful l net_out net_in c')
          (Unanswered lawful l net_out net_in)
          (wait_stream p serial_ready stream_ready clock c).0
          (wait_stream p serial_ready stream_ready clock c).1
  unfolding wait_stream
  wait_stream-keeps l net_out net_in c (ab, an) =
      let L : Connection S TX TS D → Type 0 = Lines lawful l net_out net_in in
      let run = wait_stream p serial_ready stream_ready clock c in
      Ensures-weaken (λ _ c'. L c') (λ _ c'. L c') (λ _ c'. L c')
        (Unanswered lawful l net_out net_in) run.0 run.1
        (Ensures-always L run.0 run.1 (
          ab,
          wait_ready-keeps stream_ready clock tcp_io (At net net_out net_in)
              (ready-At stream_quiet net_out net_in) c.bridge.tcp_timeout_ms c.tcp.stream
              c.bridge.delay an,
        ))
        (λ _ _ q. q) (λ _ _ q. inl q.1.0)

  wait_serial-keeps :
      (l : List Move) (c : Connection S TX TS D)
      → (log c.bridge.rtu.serial ≡ l)
      → Ensures
          (λ _ c'. (log c'.bridge.rtu.serial ≡ l) × (c'.tcp ≡ c.tcp))
          (λ _ c'. c'.tcp ≡ c.tcp)
          (wait_serial p serial_ready stream_ready clock c).0
          (wait_serial p serial_ready stream_ready clock c).1
  unfolding wait_serial
  wait_serial-keeps l c ab =
      let L : Connection S TX TS D → Type 0 =
        λ c'. (log c'.bridge.rtu.serial ≡ l) × (c'.tcp ≡ c.tcp) in
      let run = wait_serial p serial_ready stream_ready clock c in
      Ensures-weaken (λ _ c'. L c') (λ _ c'. L c') (λ _ c'. L c') (λ _ c'. c'.tcp ≡ c.tcp) run.0
        run.1
        (Ensures-always L run.0 run.1 (
          wait_ready-keeps serial_ready clock rtu_io (λ s. log s ≡ l) (unlogged serial_quiet l)
              c.bridge.rtu_timeout_ms c.bridge.rtu.serial c.bridge.delay ab,
          refl,
        ))
        (λ _ _ q. q) (λ _ _ q. q.1)

  abbrev timed_exchange : List ℕ → Cycle S TX TS D SE TE (List ℕ)
  timed_exchange rtu_req = wait_serial p serial_ready stream_ready clock >> exchange p rtu_req

  timed_exchange-post : Exchanges lawful timed_exchange
  timed_exchange-post l rtu_req c ab =
      Ensures-bind (λ _ c'. (log c'.bridge.rtu.serial ≡ l) × (c'.tcp ≡ c.tcp))
        (Responded lawful l rtu_req c.tcp) (λ _ c'. c'.tcp ≡ c.tcp)
        (wait_serial p serial_ready stream_ready clock) (λ _. exchange p rtu_req) c
        (wait_serial-keeps l c ab)
        (λ _ c' (ab', kept).
          Ensures-weaken (Responded lawful l rtu_req c'.tcp) (Responded lawful l rtu_req c.tcp)
            (λ _ c''. c''.tcp ≡ c'.tcp) (λ _ c''. c''.tcp ≡ c.tcp) (exchange p rtu_req c').0
            (exchange p rtu_req c').1 (exchange-post lawful l rtu_req c' ab')
            (λ _ _ (valid, fits, a, q). (valid, fits, a, q ∙ kept)) (λ _ _ q. q ∙ kept))

  -- One call of the blocking `next` with any timeouts, on ports that keep their contracts and from
  -- any point of the traffic, forwards one request and one response like the call without
  -- timeouts when it returns an event; after an error or a stall, `Timeout`
  -- included, nothing has been sent to the client, or the call was cut off in its answer, by a
  -- stall or an error of the TCP stream.
  pub timed_next-Forwarded :
      (l : List Move) (net_out net_in : List ℕ) (c : Connection S TX TS D)
      → Lines lawful l net_out net_in c
      → Ensures
          (Forwarded lawful l net_out net_in)
          (Unanswered lawful l net_out net_in)
          (Timed.next p serial_ready stream_ready clock c).0
          (Timed.next p serial_ready stream_ready clock c).1
  unfolding Timed.next
  timed_next-Forwarded l net_out net_in c lines =
      Ensures-bind (λ _ c'. Lines lawful l net_out net_in c') (Forwarded lawful l net_out net_in)
        (Unanswered lawful l net_out net_in) (wait_stream p serial_ready stream_ready clock) _ c
        (wait_stream-keeps l net_out net_in c lines)
        (λ _ c' lines'.
          cycle-post lawful timed_exchange timed_exchange-post l net_out net_in c' lines')
