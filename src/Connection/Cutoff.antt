-- ===== src/Connection/Cutoff.antt =====
-- The async `next` of src/connection.rs with timeouts against `next` without them.
use modbus_bridge_rs.Base.{ℕ, ◌≡◌, refl, ap, ◌⊎◌, inl, inr, Option, none, some, List}
use modbus_bridge_rs.Base.Outcome.{fail, Exec, pure, lift, map_err, map_fail, map_fail_outcome}
use modbus_bridge_rs.Base.Tracks.{Tracks, bind-Tracks, pure-Tracks, lift-Tracks}
use modbus_bridge_rs.Frame.{tcp_to_rtu, parse_tcp_request}
use modbus_bridge_rs.Ports.{Ports}
use modbus_bridge_rs.Rtu.{ModbusRtu, send_and_receive}
use modbus_bridge_rs.Rtu.Tracking.{Alike, send_and_receive-Tracks}
use modbus_bridge_rs.Tcp
use modbus_bridge_rs.Tcp.{ModbusTcp}
use modbus_bridge_rs.Tcp.Tracking.{listen-Tracks}
use modbus_bridge_rs.Event.{BridgeError, BridgeEvent, timeout, tcp_io}
use modbus_bridge_rs.Timing.Race.{AsyncDelay, deadlined}
use modbus_bridge_rs.Timing.Cutoff.{
  InState, deadlined-IsFollower, raced-Matches, driver_eq, stream_eq,
}
use modbus_bridge_rs.Connection.{
  Connection, Cycle, on_rtu, on_tcp, listen_error, exchange_error, overflow, relay_response,
  or_zero, completed, reply, relay, read_request, answer, exchange, next,
}
use modbus_bridge_rs.Connection.Raced
use modbus_bridge_rs.Connection.Raced.{
  listen_before, listen_within, exchange_before, exchange_within,
}

module _ {S TX TS D SE TE : Type 0} (p : Ports S TX TS SE TE) (clock : AsyncDelay D) where
  -- The two lines are in the same state; the delay provider may not be.
  abbrev pub Beside : Connection S TX TS D → Connection S TX TS D → Type 0
  Beside c' c = (c'.bridge.rtu ≡ c.bridge.rtu) × (c'.tcp ≡ c.tcp)

  -- The first of two cycles times out, or it ends like the second.
  abbrev pub Follows : {A : Type 0} → Cycle S TX TS D SE TE A → Cycle S TX TS D SE TE A → Type 0
  Follows m' m = Tracks Beside (some timeout) m' m

  module _ {A E : Type 0} (f : E → BridgeError SE TE) where
    on_tcp-Follows : (m : Exec TS E A) → Follows (map_fail f (on_tcp m)) (map_fail f (on_tcp m))
    on_tcp-Follows m c' c (b, t) = inr (
      ap (λ x. map_fail_outcome f (m x.stream).0) t,
      (b, ap {A = ModbusTcp TS} (λ x. record x { stream = (m x.stream).1 }) t),
    )

    on_rtu-Follows :
        (m : Exec (ModbusRtu S TX) E A) → Follows (map_fail f (on_rtu m)) (map_fail f (on_rtu m))
    on_rtu-Follows m c' c (b, t) =
        inr (ap (λ x. map_fail_outcome f (m x).0) b, (ap (λ x. (m x).1) b, t))

  listen_within-Follows : (t : Option ℕ) → Follows (listen_within p clock t) (read_request p)
  unfolding listen_before read_request
  listen_within-Follows none c' c r = on_tcp-Follows listen_error (Tcp.listen p.vec p.stream) c' c r
  listen_within-Follows (some ms) c' c (b, t) =
      let budget : ℕ = (clock.delay_ms ms c'.bridge.delay).0 in
      elim (raced-Matches listen_error InState
        (Tcp.listen p.vec (deadlined p.stream) (c'.tcp.stream, budget))
        (Tcp.listen p.vec p.stream c.tcp.stream)
        (listen-Tracks (deadlined-IsFollower p.stream) p.vec (c'.tcp.stream, budget) c.tcp.stream
          (ap (λ x. x.stream) t))) [
            | inl late ↦ inl late
            | inr (same, s) ↦ inr (same, (b, stream_eq t s))
          ]

  exchange_within-Follows :
      (t : Option ℕ) (rtu_req : List ℕ)
      → Follows (exchange_within p clock t rtu_req) (exchange p rtu_req)
  unfolding exchange_before exchange
  exchange_within-Follows none rtu_req c' c r =
      on_rtu-Follows exchange_error (send_and_receive p.vec p.serial p.pin rtu_req) c' c r
  exchange_within-Follows (some ms) rtu_req c' c (b, t) =
      let budget : ℕ = (clock.delay_ms ms c'.bridge.delay).0 in
      let start : ModbusRtu (S × ℕ) TX = record {
        serial = (c'.bridge.rtu.serial, budget);
        tx_en = c'.bridge.rtu.tx_en;
      } in
      elim (raced-Matches exchange_error (Alike (deadlined-IsFollower p.serial) p.pin)
        (send_and_receive p.vec (deadlined p.serial) p.pin rtu_req start)
        (send_and_receive p.vec p.serial p.pin rtu_req c.bridge.rtu)
        (send_and_receive-Tracks (deadlined-IsFollower p.serial) p.pin p.vec rtu_req start
          c.bridge.rtu (ap (λ x. x.serial) b, ap (λ x. x.tx_en) b))) [
            | inl late ↦ inl late
            | inr (same, (s, x)) ↦ inr (same, (driver_eq s x, t))
          ]

  reply-Follows :
      (frame : List ℕ) (event : BridgeEvent) → Follows (reply p frame event) (reply p frame event)
  reply-Follows frame event =
      bind-Tracks Beside (some timeout) (map_fail tcp_io (on_tcp (Tcp.send p.stream frame)))
        (map_fail tcp_io (on_tcp (Tcp.send p.stream frame))) (λ _. pure event) (λ _. pure event)
        (on_tcp-Follows tcp_io (Tcp.send p.stream frame))
        (λ _. pure-Tracks Beside (some timeout) event)

  answer-Follows :
      (f' f : List ℕ → Cycle S TX TS D SE TE (List ℕ))
      → ((rtu_req : List ℕ) → Follows (f' rtu_req) (f rtu_req))
      → (tcp_req : List ℕ) → Follows (answer p f' tcp_req) (answer p f tcp_req)
  unfolding answer
  answer-Follows f' f q tcp_req =
      bind-Tracks Beside (some timeout) (lift (map_err overflow (tcp_to_rtu p.vec tcp_req)))
        (lift (map_err overflow (tcp_to_rtu p.vec tcp_req))) _ _
        (lift-Tracks Beside (some timeout) (map_err overflow (tcp_to_rtu p.vec tcp_req)))
        (λ (rtu_req, tid).
          bind-Tracks Beside (some timeout) (f' rtu_req) (f rtu_req) (relay p tcp_req tid)
            (relay p tcp_req tid) (q rtu_req)
            (λ rtu_resp.
              bind-Tracks Beside (some timeout) (lift (relay_response p.vec rtu_resp tid))
                (lift (relay_response p.vec rtu_resp tid)) _ _
                (lift-Tracks Beside (some timeout) (relay_response p.vec rtu_resp tid))
                (λ (tcp_resp, tid_warning).
                  reply-Follows tcp_resp
                    (completed (or_zero (parse_tcp_request tcp_req)) tid_warning))))

  -- One call of the async `next` with any timeouts, on any ports, in any state, and wherever the
  -- delays fire: it ends in `Timeout`, or it returns just what `next` without timeouts returns
  -- there, be it an event or an error, and leaves the drivers of both lines in the same state.
  pub raced_next-next :
      (c : Connection S TX TS D)
      → ((Raced.next p clock c).0 ≡ fail timeout)
        ⊎ (((Raced.next p clock c).0 ≡ (next p c).0) × Beside (Raced.next p clock c).1 (next p c).1)
  unfolding Raced.next next
  raced_next-next c =
      bind-Tracks Beside (some timeout) (listen_within p clock c.bridge.tcp_timeout_ms)
        (read_request p)
        (answer p (λ rtu_req c'. exchange_within p clock c'.bridge.rtu_timeout_ms rtu_req c'))
        (answer p (exchange p)) (listen_within-Follows c.bridge.tcp_timeout_ms)
        (answer-Follows (λ rtu_req c'. exchange_within p clock c'.bridge.rtu_timeout_ms rtu_req c')
          (exchange p)
          (λ rtu_req c' c'' r. exchange_within-Follows c'.bridge.rtu_timeout_ms rtu_req c' c'' r))
        c c (refl, refl)
