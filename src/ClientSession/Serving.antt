-- ===== src/ClientSession/Serving.antt =====
-- A whole cycle of src/client_session.rs between a master that has asked and a server that answers.
use modbus_bridge_rs.Base.{ℕ, refl, Option, List, ◌++◌, arith}
use modbus_bridge_rs.Base.Outcome.{◌>>=◌}
use modbus_bridge_rs.Base.Runs.{Runs-bind}
use modbus_bridge_rs.Frame.Check.{body, check_crc-ok}
use modbus_bridge_rs.Frame.RoundTrip.{rtu_to_tcp_fits, request_tid-mbap}
use modbus_bridge_rs.Io.{Traffic}
use modbus_bridge_rs.Ports.{Ports, IsPorts, IsLive}
use modbus_bridge_rs.Tcp
use modbus_bridge_rs.ClientSession.{ClientSession, Cycle, read_request, exchange, answer, next}
use modbus_bridge_rs.ClientSession.Success.{
  bus_frame, net_frame, cycle_event, id_after, id_after-IsU16, Between, Answers, Serves,
  read_request-runs, exchange-runs, relay-runs,
}

module _ {S TX TS D SE TE : Type 0} {p : Ports S TX TS SE TE} {bus : Traffic S} {net : Traffic TS}
    {bus_script : S → List ℕ → List ℕ} {net_script : TS → List ℕ → List ℕ}
    (lawful : IsPorts p bus net) (live : IsLive p bus net bus_script net_script)
    (master server : List ℕ → List ℕ) (limits : Option ℕ × Option ℕ) where
  -- A whole cycle: the request is read, and then answered.
  pub cycle-runs :
      (exchange : List ℕ → Cycle S TX TS D SE TE (List ℕ))
      → Answers lawful live master server limits exchange
      → Serves lawful live master server limits (read_request p >>= answer p exchange)
  unfolding answer Tcp.next_transaction_id
  cycle-runs exchange gives id bus_out bus_in net_out net_in req resp more_bus more_net c asked
        answers f eb en =
      let tid : ℕ = id_after id in
      let After : ClientSession S TX TS D → Type 0 =
        Between lawful live master server limits tid (bus_out ++ bus_frame resp) (bus_in ++ req)
          (net_out ++ net_frame tid req) (net_in ++ resp) in
      Runs-bind (read_request p) (answer p exchange) c req (cycle_event tid req resp)
        (Between lawful live master server limits id bus_out (bus_in ++ req) net_out net_in) After
        (read_request-runs lawful live master server limits id bus_out bus_in net_out net_in req
          more_bus c asked f eb)
        (λ c' (set, i, fb, fn).
          rw
            (
              i,
              rtu_to_tcp_fits lawful.vec_lawful req (id_after id) (check_crc-ok req asked.0).0
                  (omega (arith, asked.2)),
            )
            (Runs-bind (exchange (net_frame tid req)) _
              (record c' { tcp = record c'.tcp { transaction_id = tid } }) resp
              (cycle_event tid req resp)
              (Between lawful live master server limits tid bus_out (bus_in ++ req)
                (net_out ++ net_frame tid req) (net_in ++ resp))
              After
              (gives tid bus_out (bus_in ++ req) net_out net_in (net_frame tid req) resp more_net
                (record c' { tcp = record c'.tcp { transaction_id = tid } }) answers
                (set, refl, fb, fn) en)
              (λ c'' f''. rw (request_tid-mbap (id_after id) (body req) (id_after-IsU16 id)) (
                relay-runs lawful live master server limits tid tid bus_out (bus_in ++ req)
                  (net_out ++ net_frame tid req) (net_in ++ resp) req resp c'' answers f''))))

  -- `next` without timeouts serves.
  pub session_next-Serves : Serves {D = D} lawful live master server limits (next p)
  unfolding next
  session_next-Serves = cycle-runs (exchange p) (exchange-runs lawful live master server limits)
