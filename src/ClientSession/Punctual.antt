-- ===== src/ClientSession/Punctual.antt =====
-- Cycles of src/client_session.rs in its blocking half, with timeouts that are long enough for the
-- master and the server: the waits change nothing.
use modbus_bridge_rs.Base.{ℕ, ◌≤◌, ◌≡◌, ap, Option, List, [], ◌∷◌, ◌++◌, length, map, arith}
use modbus_bridge_rs.Base.Outcome.{calls, ◌>>=◌, ◌>>◌}
use modbus_bridge_rs.Base.Runs.{Runs, Runs-then, Runs-zoom}
use modbus_bridge_rs.Io.{ReadReady, DelayNs, Traffic}
use modbus_bridge_rs.Io.Responsive.{Faces}
use modbus_bridge_rs.Ports.{Ports, IsPorts, IsLive}
use modbus_bridge_rs.Timing.{wait_ready}
use modbus_bridge_rs.Timing.Punctual.{IsPunctual, Allows, wait_ready-runs}
use modbus_bridge_rs.Rtu.Replies.{IsRequestAdu}
use modbus_bridge_rs.Frame.Check.{check_crc-ok}
use modbus_bridge_rs.Event.{tcp_io, rtu_io}
use modbus_bridge_rs.ClientSession.{ClientSession, read_request, answer}
use modbus_bridge_rs.ClientSession.Timed
use modbus_bridge_rs.ClientSession.Timed.{wait_serial, wait_stream, timed_exchange}
use modbus_bridge_rs.ClientSession.Success.{
  bus_frame, net_frame, cycle_event, id_after, Between, Answers, Serves, send_request,
  read_response, send_request-runs, read_response-runs,
}
use modbus_bridge_rs.ClientSession.Serving.{cycle-runs}
use modbus_bridge_rs.ClientSession.Conversation.{Turn, Talk, turn_event, After, calls_of-serve}

-- A request has a byte.
IsRequestAdu-nonempty : (req : List ℕ) → IsRequestAdu req → 1 ≤ length req
IsRequestAdu-nonempty req (valid, _, _) = omega (arith, (check_crc-ok req valid).0)

module _ {S TX TS D SE TE : Type 0} {p : Ports S TX TS SE TE} {bus : Traffic S} {net : Traffic TS}
    {bus_script : S → List ℕ → List ℕ} {net_script : TS → List ℕ → List ℕ}
    (lawful : IsPorts p bus net) (live : IsLive p bus net bus_script net_script)
    {serial_ready : ReadReady S SE} {stream_ready : ReadReady TS TE} {bus_wait net_wait : ℕ}
    (serial_punctual : IsPunctual serial_ready bus bus_script bus_wait)
    (stream_punctual : IsPunctual stream_ready net net_script net_wait) (clock : DelayNs D)
    (master server : List ℕ → List ℕ) (limits : Option ℕ × Option ℕ)
    (serial_allows : Allows bus_wait limits.0) (stream_allows : Allows net_wait limits.1) where
  wait_serial-runs :
      (id : ℕ) (bus_out bus_in net_out net_in req more : List ℕ) (c : ClientSession S TX TS D)
      → 1 ≤ length req
      → Between lawful live master server limits id bus_out bus_in net_out net_in c
      → master bus_out ≡ bus_in ++ (req ++ more)
      → Runs
          (wait_serial p serial_ready stream_ready clock)
          c
          tt
          (Between lawful live master server limits id bus_out bus_in net_out net_in)
  unfolding wait_serial
  wait_serial-runs id bus_out bus_in net_out net_in [] more c h f e = absurd (omega arith)
  wait_serial-runs id bus_out bus_in net_out net_in (b ∷ req) more c h (set, i, fb, fn) e =
      Runs-zoom (λ u. (u.client.rtu.serial, u.client.delay))
        (λ sd u. record u {
          client = record u.client { rtu = record u.client.rtu { serial = sd.0 }; delay = sd.1 };
        })
        (wait_ready serial_ready clock rtu_io c.client.rtu_timeout_ms) c tt
        (λ sd. Faces lawful.serial_lawful live.serial_live master bus_out bus_in sd.0)
        (Between lawful live master server limits id bus_out bus_in net_out net_in)
        (wait_ready-runs lawful.serial_lawful live.serial_live serial_punctual clock rtu_io master
          bus_out bus_in c.client.rtu_timeout_ms b (req ++ more) c.client.rtu.serial c.client.delay
          (rw (ap (λ x. x.0) set) serial_allows) fb e)
        (λ sd f. (set, i, f, fn))

  wait_stream-runs :
      (id : ℕ) (bus_out bus_in net_out net_in resp more : List ℕ) (c : ClientSession S TX TS D)
      → 1 ≤ length resp
      → Between lawful live master server limits id bus_out bus_in net_out net_in c
      → server net_out ≡ net_in ++ (resp ++ more)
      → Runs
          (wait_stream p serial_ready stream_ready clock)
          c
          tt
          (Between lawful live master server limits id bus_out bus_in net_out net_in)
  unfolding wait_stream
  wait_stream-runs id bus_out bus_in net_out net_in [] more c h f e = absurd (omega arith)
  wait_stream-runs id bus_out bus_in net_out net_in (b ∷ resp) more c h (set, i, fb, fn) e =
      Runs-zoom (λ u. (u.tcp.stream, u.client.delay))
        (λ sd u. record u {
          client = record u.client { delay = sd.1 };
          tcp = record u.tcp { stream = sd.0 };
        })
        (wait_ready stream_ready clock tcp_io c.client.tcp_timeout_ms) c tt
        (λ sd. Faces lawful.stream_lawful live.stream_live server net_out net_in sd.0)
        (Between lawful live master server limits id bus_out bus_in net_out net_in)
        (wait_ready-runs lawful.stream_lawful live.stream_live stream_punctual clock tcp_io server
          net_out net_in c.client.tcp_timeout_ms b (resp ++ more) c.tcp.stream c.client.delay
          (rw (ap (λ x. x.1) set) stream_allows) fn e)
        (λ sd f. (set, i, fb, f))

  timed_exchange-runs :
      Answers lawful live master server limits (timed_exchange p serial_ready stream_ready clock)
  unfolding timed_exchange
  timed_exchange-runs id bus_out bus_in net_out net_in req resp more c answers f e =
      let Sent : ClientSession S TX TS D → Type 0 =
        Between lawful live master server limits id bus_out bus_in (net_out ++ req) net_in in
      let Heard : ClientSession S TX TS D → Type 0 =
        Between lawful live master server limits id bus_out bus_in (net_out ++ req)
          (net_in ++ resp) in
      Runs-then (send_request lawful live master server limits req)
        (wait_stream p serial_ready stream_ready clock
          >> read_response lawful live master server limits)
        c tt resp Sent Heard
        (send_request-runs lawful live master server limits id bus_out bus_in net_out net_in req c
          f)
        (λ c' f'.
          Runs-then (wait_stream p serial_ready stream_ready clock)
            (read_response lawful live master server limits) c' tt resp Sent Heard
            (wait_stream-runs id bus_out bus_in (net_out ++ req) net_in resp more c'
              (omega (arith, answers.0)) f' e)
            (λ c'' f''.
              read_response-runs lawful live master server limits id bus_out bus_in (net_out ++ req)
                net_in resp more c'' answers f'' e))

  -- The blocking `next` with such timeouts serves.
  pub timed_session_next-Serves :
      Serves lawful live master server limits (Timed.next p serial_ready stream_ready clock)
  unfolding Timed.next
  timed_session_next-Serves id bus_out bus_in net_out net_in req resp more_bus more_net c asked
        answers f eb en =
      let tid : ℕ = id_after id in
      Runs-then (wait_serial p serial_ready stream_ready clock)
        (read_request p >>= answer p (timed_exchange p serial_ready stream_ready clock)) c tt
        (cycle_event tid req resp)
        (Between lawful live master server limits id bus_out bus_in net_out net_in)
        (Between lawful live master server limits tid (bus_out ++ bus_frame resp) (bus_in ++ req)
          (net_out ++ net_frame tid req) (net_in ++ resp))
        (wait_serial-runs id bus_out bus_in net_out net_in req more_bus c
          (IsRequestAdu-nonempty req asked) f eb)
        (λ c' f'.
          cycle-runs lawful live master server limits
            (timed_exchange p serial_ready stream_ready clock) timed_exchange-runs id bus_out bus_in
            net_out net_in req resp more_bus more_net c' asked answers f' eb en)

  -- As many calls of the blocking `next` as a master and a server have turns, on ports of which,
  -- while something is pending, no more polls in a row say that nothing is there than the timeout
  -- has milliseconds, or without a timeout: no call times out, the calls return the events of the
  -- turns, in their order; every request has gone to the server once, in order and under
  -- consecutive transaction ids modulo 2 ^ 16, and every response to the master once, in order.
  pub timed_session_calls-serve :
      (id : ℕ) (bus_out bus_in net_out net_in : List ℕ) (turns : List Turn)
      (c : ClientSession S TX TS D)
      → Talk master server id bus_out bus_in net_out net_in turns
      → Between lawful live master server limits id bus_out bus_in net_out net_in c
      → Runs
          (calls (length turns) (Timed.next p serial_ready stream_ready clock))
          c
          (map turn_event turns)
          (After lawful live master server limits id bus_out bus_in net_out net_in turns)
  timed_session_calls-serve =
      calls_of-serve lawful live master server limits (Timed.next p serial_ready stream_ready clock)
        timed_session_next-Serves
