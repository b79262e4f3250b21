-- ===== src/ClientSession/Cutoff.antt =====
-- The async `next` of src/client_session.rs with timeouts against `next` without them.
use modbus_bridge_rs.Base.{ℕ, ◌≡◌, refl, ap, ◌⊎◌, inl, inr, Option, none, some, List, get_or}
use modbus_bridge_rs.Base.Outcome.{
  done, fail, Exec, ◌>>=◌, pure, lift, map_err, map_fail, map_fail_outcome,
}
use modbus_bridge_rs.Base.Tracks.{Tracks, bind-Tracks, pure-Tracks, lift-Tracks}
use modbus_bridge_rs.Frame.{rtu_to_tcp, parse_rtu_request, from_be_bytes}
use modbus_bridge_rs.Ports.{Ports}
use modbus_bridge_rs.Rtu
use modbus_bridge_rs.Rtu.{ModbusRtu, on_serial}
use modbus_bridge_rs.Rtu.Tracking as Driver
use modbus_bridge_rs.Tcp
use modbus_bridge_rs.Tcp.{ModbusTcp}
use modbus_bridge_rs.Tcp.Tracking.{listen-Tracks}
use modbus_bridge_rs.Event.{BridgeError, BridgeEvent, timeout, tcp_io, rtu_io}
use modbus_bridge_rs.Timing.Race.{AsyncDelay, deadlined}
use modbus_bridge_rs.Timing.Cutoff.{
  InState, deadlined-IsFollower, raced-Matches, driver_eq, stream_eq,
}
use modbus_bridge_rs.Connection.{listen_error, overflow, or_zero, completed}
use modbus_bridge_rs.ClientSession.{
  ClientSession, Cycle, on_rtu, on_tcp, request_error, relay_response, fresh_tid, reply, relay,
  read_request, answer, exchange, next,
}
use modbus_bridge_rs.ClientSession.Raced
use modbus_bridge_rs.ClientSession.Raced.{
  request_before, request_within, response_before, response_within, raced_exchange,
}

module _ {S TX TS D SE TE : Type 0} (p : Ports S TX TS SE TE) (clock : AsyncDelay D) where
  -- The two lines are in the same state; the delay provider may not be.
  abbrev pub Beside : ClientSession S TX TS D → ClientSession S TX TS D → Type 0
  Beside c' c = (c'.client.rtu ≡ c.client.rtu) × (c'.tcp ≡ c.tcp)

  -- The first of two cycles times out, or it ends like the second.
  abbrev pub Follows : {A : Type 0} → Cycle S TX TS D SE TE A → Cycle S TX TS D SE TE A → Type 0
  Follows m' m = Tracks Beside (some timeout) m' m

  module _ {A E : Type 0} (f : E → BridgeError SE TE) where
    on_tcp-Follows : (m : Exec TS E A) → Follows (map_fail f (on_tcp m)) (map_fail f (on_tcp m))
    on_tcp-Follows m c' c (b, t) = inr (
      ap (λ x. map_fail_outcome f (m x.stream).0) t,
      (b, ap {A = ModbusTcp TS} (λ x. record x { stream = (m x.stream).1 }) t),
    )

    on_rtu-Follows :
        (m : Exec (ModbusRtu S TX) E A) → Follows (map_fail f (on_rtu m)) (map_fail f (on_rtu m))
    on_rtu-Follows m c' c (b, t) =
        inr (ap (λ x. map_fail_outcome f (m x).0) b, (ap (λ x. (m x).1) b, t))

  request_within-Follows : (t : Option ℕ) → Follows (request_within p clock t) (read_request p)
  unfolding request_before read_request
  request_within-Follows none c' c r =
      on_rtu-Follows request_error (on_serial (Rtu.listen p.vec p.serial)) c' c r
  request_within-Follows (some ms) c' c (b, t) =
      let budget : ℕ = (clock.delay_ms ms c'.client.delay).0 in
      elim (raced-Matches request_error InState
        (Rtu.listen p.vec (deadlined p.serial) (c'.client.rtu.serial, budget))
        (Rtu.listen p.vec p.serial c.client.rtu.serial)
        (Driver.listen-Tracks (deadlined-IsFollower p.serial) p.vec (c'.client.rtu.serial, budget)
          c.client.rtu.serial (ap (λ x. x.serial) b))) [
            | inl late ↦ inl late
            | inr (same, s) ↦ inr (same, (driver_eq s (ap (λ x. x.tx_en) b), t))
          ]

  response_within-Follows :
      (t : Option ℕ)
      → Follows
          (response_within p clock t)
          (map_fail listen_error (on_tcp (Tcp.listen p.vec p.stream)))
  unfolding response_before
  response_within-Follows none c' c r =
      on_tcp-Follows listen_error (Tcp.listen p.vec p.stream) c' c r
  response_within-Follows (some ms) c' c (b, t) =
      let budget : ℕ = (clock.delay_ms ms c'.client.delay).0 in
      elim (raced-Matches listen_error InState
        (Tcp.listen p.vec (deadlined p.stream) (c'.tcp.stream, budget))
        (Tcp.listen p.vec p.stream c.tcp.stream)
        (listen-Tracks (deadlined-IsFollower p.stream) p.vec (c'.tcp.stream, budget) c.tcp.stream
          (ap (λ x. x.stream) t))) [
            | inl late ↦ inl late
            | inr (same, s) ↦ inr (same, (b, stream_eq t s))
          ]

  raced_exchange-Follows :
      (tcp_req : List ℕ) → Follows (raced_exchange p clock tcp_req) (exchange p tcp_req)
  unfolding raced_exchange exchange
  raced_exchange-Follows tcp_req =
      bind-Tracks Beside (some timeout) (map_fail tcp_io (on_tcp (Tcp.send p.stream tcp_req)))
        (map_fail tcp_io (on_tcp (Tcp.send p.stream tcp_req)))
        (λ _ c'. response_within p clock c'.client.tcp_timeout_ms c')
        (λ _. map_fail listen_error (on_tcp (Tcp.listen p.vec p.stream)))
        (on_tcp-Follows tcp_io (Tcp.send p.stream tcp_req))
        (λ _ c' c r. response_within-Follows c'.client.tcp_timeout_ms c' c r)

  reply-Follows :
      (frame : List ℕ) (event : BridgeEvent) → Follows (reply p frame event) (reply p frame event)
  reply-Follows frame event =
      bind-Tracks Beside (some timeout) (map_fail rtu_io (on_rtu (Rtu.send p.serial p.pin frame)))
        (map_fail rtu_io (on_rtu (Rtu.send p.serial p.pin frame))) (λ _. pure event)
        (λ _. pure event) (on_rtu-Follows rtu_io (Rtu.send p.serial p.pin frame))
        (λ _. pure-Tracks Beside (some timeout) event)

  fresh_tid-Follows : Follows (fresh_tid p) (fresh_tid p)
  fresh_tid-Follows c' c (b, t) = inr (
    ap (λ x. done (Tcp.next_transaction_id x).0) t,
    (b, ap (λ x. (Tcp.next_transaction_id x).1) t),
  )

  relay-Follows :
      (rtu_req : List ℕ) (tid : ℕ) (tcp_resp : List ℕ)
      → Follows (relay p rtu_req tid tcp_resp) (relay p rtu_req tid tcp_resp)
  relay-Follows rtu_req tid tcp_resp =
      bind-Tracks Beside (some timeout) (lift (relay_response p.vec tcp_resp tid))
        (lift (relay_response p.vec tcp_resp tid)) _ _
        (lift-Tracks Beside (some timeout) (relay_response p.vec tcp_resp tid))
        (λ (rtu_resp, tid_warning).
          reply-Follows rtu_resp (completed (or_zero (parse_rtu_request rtu_req)) tid_warning))

  answer-Follows :
      (rtu_req : List ℕ)
      → Follows (answer p (raced_exchange p clock) rtu_req) (answer p (exchange p) rtu_req)
  unfolding answer
  answer-Follows rtu_req =
      let relaying : List ℕ → List ℕ → Cycle S TX TS D SE TE BridgeEvent =
        λ tcp_req. relay p rtu_req (from_be_bytes (get_or tcp_req 0 0) (get_or tcp_req 1 0)) in
      let raced_rest : List ℕ → Cycle S TX TS D SE TE BridgeEvent =
        λ tcp_req. raced_exchange p clock tcp_req >>= relaying tcp_req in
      let rest : List ℕ → Cycle S TX TS D SE TE BridgeEvent =
        λ tcp_req. exchange p tcp_req >>= relaying tcp_req in
      bind-Tracks Beside (some timeout) (fresh_tid p) (fresh_tid p)
        (λ id. lift (map_err overflow (rtu_to_tcp p.vec rtu_req id)) >>= raced_rest)
        (λ id. lift (map_err overflow (rtu_to_tcp p.vec rtu_req id)) >>= rest) fresh_tid-Follows
        (λ id.
          bind-Tracks Beside (some timeout) (lift (map_err overflow (rtu_to_tcp p.vec rtu_req id)))
            (lift (map_err overflow (rtu_to_tcp p.vec rtu_req id))) raced_rest rest
            (lift-Tracks Beside (some timeout) (map_err overflow (rtu_to_tcp p.vec rtu_req id)))
            (λ tcp_req.
              bind-Tracks Beside (some timeout) (raced_exchange p clock tcp_req)
                (exchange p tcp_req) (relaying tcp_req) (relaying tcp_req)
                (raced_exchange-Follows tcp_req)
                (relay-Follows rtu_req (from_be_bytes (get_or tcp_req 0 0) (get_or tcp_req 1 0)))))

  -- One call of the async `next` with any timeouts, on any ports, in any state, and wherever the
  -- delays fire: it ends in `Timeout`, or it returns just what `next` without timeouts returns
  -- there, be it an event or an error, and leaves the drivers of both lines in the same state.
  pub raced_session_next-next :
      (c : ClientSession S TX TS D)
      → ((Raced.next p clock c).0 ≡ fail timeout)
        ⊎ (((Raced.next p clock c).0 ≡ (next p c).0) × Beside (Raced.next p clock c).1 (next p c).1)
  unfolding Raced.next next
  raced_session_next-next c =
      bind-Tracks Beside (some timeout) (request_within p clock c.client.rtu_timeout_ms)
        (read_request p) (answer p (raced_exchange p clock)) (answer p (exchange p))
        (request_within-Follows c.client.rtu_timeout_ms) answer-Follows c c (refl, refl)
