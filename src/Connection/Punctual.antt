-- ===== src/Connection/Punctual.antt =====
-- Cycles of src/connection.rs in its blocking half, with a timeout on the stream that is long
-- enough for the client, and none on the serial port: the waits change nothing.
use modbus_bridge_rs.Base.{
  ℕ, ◌≤◌, ◌≡◌, refl, ap, ◌∙◌, Option, none, List, [], ◌∷◌, ◌++◌, length, map, arith,
}
use modbus_bridge_rs.Base.Outcome.{calls, ◌>>=◌, ◌>>◌}
use modbus_bridge_rs.Base.Runs.{Runs, Runs-then, Runs-zoom}
use modbus_bridge_rs.Io.{ReadReady, DelayNs, Traffic}
use modbus_bridge_rs.Io.Responsive.{Faces}
use modbus_bridge_rs.Ports.{Ports, IsPorts, IsLive}
use modbus_bridge_rs.Timing.{wait_ready}
use modbus_bridge_rs.Timing.Punctual.{IsPunctual, Allows, wait_ready-runs}
use modbus_bridge_rs.Event.{tcp_io}
use modbus_bridge_rs.Connection.{Connection, read_request, answer, exchange}
use modbus_bridge_rs.Connection.Timed
use modbus_bridge_rs.Connection.Timed.{wait_serial, wait_stream}
use modbus_bridge_rs.Connection.Success.{
  bus_frame, net_frame, request_event, Between, Answers, Serves, cycle-runs, exchange-runs,
}
use modbus_bridge_rs.Connection.Conversation.{Turn, Talk, After, calls_of-serve}

module _ {S TX TS D SE TE : Type 0} {p : Ports S TX TS SE TE} {bus : Traffic S} {net : Traffic TS}
    {bus_script : S → List ℕ → List ℕ} {net_script : TS → List ℕ → List ℕ}
    (lawful : IsPorts p bus net) (live : IsLive p bus net bus_script net_script)
    (serial_ready : ReadReady S SE) {stream_ready : ReadReady TS TE} {net_wait : ℕ}
    (stream_punctual : IsPunctual stream_ready net net_script net_wait) (clock : DelayNs D)
    (device client : List ℕ → List ℕ) (limits : Option ℕ × Option ℕ)
    (serial_unlimited : limits.0 ≡ none) (stream_allows : Allows net_wait limits.1) where
  wait_stream-runs :
      (bus_out bus_in net_out net_in req more : List ℕ) (c : Connection S TX TS D)
      → 1 ≤ length req
      → Between lawful live device client limits bus_out bus_in net_out net_in c
      → client net_out ≡ net_in ++ (req ++ more)
      → Runs
          (wait_stream p serial_ready stream_ready clock)
          c
          tt
          (Between lawful live device client limits bus_out bus_in net_out net_in)
  unfolding wait_stream
  wait_stream-runs bus_out bus_in net_out net_in [] more c h f e = absurd (omega arith)
  wait_stream-runs bus_out bus_in net_out net_in (b ∷ req) more c h (set, fb, fn) e =
      Runs-zoom (λ u. (u.tcp.stream, u.bridge.delay))
        (λ sd u. record u {
          bridge = record u.bridge { delay = sd.1 };
          tcp = record u.tcp { stream = sd.0 };
        })
        (wait_ready stream_ready clock tcp_io c.bridge.tcp_timeout_ms) c tt
        (λ sd. Faces lawful.stream_lawful live.stream_live client net_out net_in sd.0)
        (Between lawful live device client limits bus_out bus_in net_out net_in)
        (wait_ready-runs lawful.stream_lawful live.stream_live stream_punctual clock tcp_io client
          net_out net_in c.bridge.tcp_timeout_ms b (req ++ more) c.tcp.stream c.bridge.delay
          (rw (ap (λ x. x.1) set) stream_allows) fn e)
        (λ sd f. (set, fb, f))

  wait_serial-runs :
      (bus_out bus_in net_out net_in : List ℕ) (c : Connection S TX TS D)
      → Between lawful live device client limits bus_out bus_in net_out net_in c
      → Runs
          (wait_serial p serial_ready stream_ready clock)
          c
          tt
          (Between lawful live device client limits bus_out bus_in net_out net_in)
  unfolding wait_serial wait_ready
  wait_serial-runs bus_out bus_in net_out net_in c (set, fb, fn) =
      (c, rw (ap (λ x. x.0) set ∙ serial_unlimited) refl, (set, fb, fn))

  timed_exchange-runs :
      Answers lawful live device client limits
        (λ req. wait_serial p serial_ready stream_ready clock >> exchange p req)
  timed_exchange-runs bus_out bus_in net_out net_in req resp more c answers f e =
      Runs-then (wait_serial p serial_ready stream_ready clock) (exchange p req) c tt resp
        (Between lawful live device client limits bus_out bus_in net_out net_in)
        (Between lawful live device client limits (bus_out ++ req) (bus_in ++ resp) net_out net_in)
        (wait_serial-runs bus_out bus_in net_out net_in c f)
        (λ c' f'.
          exchange-runs lawful live device client limits bus_out bus_in net_out net_in req resp more
            c' answers f' e)

  -- The blocking `next` with such timeouts serves.
  pub timed_next-Serves :
      Serves lawful live device client limits (Timed.next p serial_ready stream_ready clock)
  unfolding Timed.next
  timed_next-Serves bus_out bus_in net_out net_in req resp more_bus more_net c asked answers f en
        eb =
      Runs-then (wait_stream p serial_ready stream_ready clock)
        (read_request p
          >>= answer p (λ req'. wait_serial p serial_ready stream_ready clock >> exchange p req'))
        c tt (request_event req)
        (Between lawful live device client limits bus_out bus_in net_out net_in)
        (Between lawful live device client limits (bus_out ++ bus_frame req) (bus_in ++ resp)
          (net_out ++ net_frame req resp) (net_in ++ req))
        (wait_stream-runs bus_out bus_in net_out net_in req more_net c (omega (arith, asked.0)) f
          en)
        (λ c' f'.
          cycle-runs lawful live device client limits
            (λ req'. wait_serial p serial_ready stream_ready clock >> exchange p req')
            timed_exchange-runs bus_out bus_in net_out net_in req resp more_bus more_net c' asked
            answers f' en eb)

  -- As many calls of the blocking `next` as a client and a device have turns, without a timeout on
  -- the serial port, on a stream of which, while something is pending, no more polls in a row say
  -- that nothing is there than its timeout has milliseconds, or without that timeout: no call
  -- times out, the calls return the events of the requests, in their order; every request has gone
  -- to the device once, and every response to the client once, in the order of the requests and
  -- each under the id of its own request.
  pub timed_calls-serve :
      (bus_out bus_in net_out net_in : List ℕ) (turns : List Turn) (c : Connection S TX TS D)
      → Talk device client bus_out bus_in net_out net_in turns
      → Between lawful live device client limits bus_out bus_in net_out net_in c
      → Runs
          (calls (length turns) (Timed.next p serial_ready stream_ready clock))
          c
          (map (λ x. request_event x.req) turns)
          (After lawful live device client limits bus_out bus_in net_out net_in turns)
  timed_calls-serve =
      calls_of-serve lawful live device client limits (Timed.next p serial_ready stream_ready clock)
        timed_next-Serves
