-- ===== src/Connection/Success.antt =====
-- A cycle of src/connection.rs between a client that has asked and a device that answers: the
-- call returns, and the client is answered.
use modbus_bridge_rs.Base.{ℕ, ◌≡◌, refl, Option, none, List, ◌++◌, arith, drop}
use modbus_bridge_rs.Base.Outcome.{◌>>=◌, pure, map_fail}
use modbus_bridge_rs.Base.Runs.{Runs, Runs-bind, Runs-then, Runs-map_fail, Runs-zoom}
use modbus_bridge_rs.Frame.{crc, parse_tcp_request}
use modbus_bridge_rs.Frame.Check.{body}
use modbus_bridge_rs.Frame.Convert.{mbap_frame, request_tid}
use modbus_bridge_rs.Frame.RoundTrip.{tcp_to_rtu_fits}
use modbus_bridge_rs.Io.{Traffic}
use modbus_bridge_rs.Io.Responsive.{Faces, write_all-runs}
use modbus_bridge_rs.Ports.{Ports, IsPorts, IsLive}
use modbus_bridge_rs.Rtu.{send_and_receive}
use modbus_bridge_rs.Rtu.Replies.{IsResponseAdu}
use modbus_bridge_rs.Rtu.Answered.{send_and_receive-runs}
use modbus_bridge_rs.Tcp
use modbus_bridge_rs.Tcp.{tcp_buf}
use modbus_bridge_rs.Tcp.Success.{IsTcpAdu, listen-runs}
use modbus_bridge_rs.Event.{BridgeEvent, tcp_io}
use modbus_bridge_rs.Connection.Parts.{relay_response-valid}
use modbus_bridge_rs.Connection.{
  Connection, Cycle, on_rtu, on_tcp, or_zero, completed, answer, read_request, exchange,
  exchange_error, listen_error, next, reply,
}

-- What goes out on the bus for a request, and to the client for its response.
abbrev pub bus_frame : List ℕ → List ℕ
bus_frame req = drop 6 req ++ crc (drop 6 req)

abbrev pub net_frame : List ℕ → List ℕ → List ℕ
net_frame req resp = mbap_frame (request_tid req) (body resp)

-- The event of a cycle without a warning.
abbrev pub request_event : List ℕ → BridgeEvent
request_event req = completed (or_zero (parse_tcp_request req)) none

module _ {S TX TS D SE TE : Type 0} {p : Ports S TX TS SE TE} {bus : Traffic S} {net : Traffic TS}
    {bus_script : S → List ℕ → List ℕ} {net_script : TS → List ℕ → List ℕ}
    (lawful : IsPorts p bus net) (live : IsLive p bus net bus_script net_script)
    (device client : List ℕ → List ℕ) (limits : Option ℕ × Option ℕ) where
  -- The traffic up to now, between the given client and device, and the timeouts on the serial
  -- port and on the stream.
  abbrev pub Between : List ℕ → List ℕ → List ℕ → List ℕ → Connection S TX TS D → Type 0
  Between bus_out bus_in net_out net_in c =
      ((c.bridge.rtu_timeout_ms, c.bridge.tcp_timeout_ms) ≡ limits)
      × Faces lawful.serial_lawful live.serial_live device bus_out bus_in c.bridge.rtu.serial
      × Faces lawful.stream_lawful live.stream_live client net_out net_in c.tcp.stream

  -- A call serves: from any point of the traffic between a client and a device that are functions
  -- of what they have been told, if the client has sent one whole request of 7 to 261 bytes, and
  -- the device answers the request's PDU with its CRC by one whole response with a valid CRC, then
  -- the call returns the event of the request; and the client has been sent the response's PDU
  -- under the request's transaction id, whatever the sizes of the reads and writes into which the
  -- lines part the frames, and whatever comes behind them.
  abbrev pub Serves : Cycle S TX TS D SE TE BridgeEvent → Type 0
  Serves m =
      (bus_out bus_in net_out net_in req resp more_bus more_net : List ℕ) (c : Connection S TX TS D)
      → IsTcpAdu req
      → IsResponseAdu resp
      → Between bus_out bus_in net_out net_in c
      → client net_out ≡ net_in ++ (req ++ more_net)
      → device (bus_out ++ bus_frame req) ≡ bus_in ++ (resp ++ more_bus)
      → Runs m c (request_event req) (
          Between (bus_out ++ bus_frame req) (bus_in ++ resp) (net_out ++ net_frame req resp)
            (net_in ++ req))

  read_request-runs :
      (bus_out bus_in net_out net_in req more : List ℕ) (c : Connection S TX TS D)
      → IsTcpAdu req
      → Between bus_out bus_in net_out net_in c
      → client net_out ≡ net_in ++ (req ++ more)
      → Runs (read_request p) c req (Between bus_out bus_in net_out (net_in ++ req))
  unfolding read_request
  read_request-runs bus_out bus_in net_out net_in req more c (_, size, fits) (set, fb, fn) e =
      Runs-map_fail listen_error (on_tcp (Tcp.listen p.vec p.stream)) c req
        (Between bus_out bus_in net_out (net_in ++ req))
        (Runs-zoom (λ u. u.tcp.stream) (λ s u. record u { tcp = record u.tcp { stream = s } })
          (Tcp.listen p.vec p.stream) c req
          (Faces lawful.stream_lawful live.stream_live client net_out (net_in ++ req))
          (Between bus_out bus_in net_out (net_in ++ req))
          (listen-runs lawful.stream_lawful live.stream_live client lawful.vec_lawful net_out net_in
            req more c.tcp.stream size fits fn e)
          (λ s f. (set, fb, f)))

  -- Sending a request on the bus and reading the response, however it waits before that.
  abbrev pub Answers : (List ℕ → Cycle S TX TS D SE TE (List ℕ)) → Type 0
  Answers exchange =
      (bus_out bus_in net_out net_in req resp more : List ℕ) (c : Connection S TX TS D)
      → IsResponseAdu resp
      → Between bus_out bus_in net_out net_in c
      → device (bus_out ++ req) ≡ bus_in ++ (resp ++ more)
      → Runs (exchange req) c resp (Between (bus_out ++ req) (bus_in ++ resp) net_out net_in)

  pub exchange-runs : Answers (exchange p)
  unfolding exchange
  exchange-runs bus_out bus_in net_out net_in req resp more c (valid, size, fits) (set, fb, fn) e =
      Runs-map_fail exchange_error (on_rtu (send_and_receive p.vec p.serial p.pin req)) c resp
        (Between (bus_out ++ req) (bus_in ++ resp) net_out net_in)
        (Runs-zoom (λ u. u.bridge.rtu) (λ r u. record u { bridge = record u.bridge { rtu = r } })
          (send_and_receive p.vec p.serial p.pin req) c resp
          (λ r.
            Faces lawful.serial_lawful live.serial_live device (bus_out ++ req) (bus_in ++ resp)
              r.serial)
          (Between (bus_out ++ req) (bus_in ++ resp) net_out net_in)
          (send_and_receive-runs p.pin lawful.serial_lawful live.serial_live device
            lawful.vec_lawful bus_out bus_in req resp more c.bridge.rtu valid size (omega arith) fb
            e)
          (λ r f. (set, f, fn)))

  reply-runs :
      (bus_out bus_in net_out net_in frame : List ℕ) (event : BridgeEvent)
      (c : Connection S TX TS D)
      → Between bus_out bus_in net_out net_in c
      → Runs (reply p frame event) c event (Between bus_out bus_in (net_out ++ frame) net_in)
  unfolding Tcp.send
  reply-runs bus_out bus_in net_out net_in frame event c (set, fb, fn) =
      Runs-then (map_fail tcp_io (on_tcp (Tcp.send p.stream frame))) (pure event) c tt event
        (Between bus_out bus_in (net_out ++ frame) net_in)
        (Between bus_out bus_in (net_out ++ frame) net_in)
        (Runs-map_fail tcp_io (on_tcp (Tcp.send p.stream frame)) c tt
          (Between bus_out bus_in (net_out ++ frame) net_in)
          (Runs-zoom (λ u. u.tcp.stream) (λ s u. record u { tcp = record u.tcp { stream = s } })
            (Tcp.send p.stream frame) c tt
            (Faces lawful.stream_lawful live.stream_live client (net_out ++ frame) net_in)
            (Between bus_out bus_in (net_out ++ frame) net_in)
            (write_all-runs lawful.stream_lawful live.stream_live client net_out net_in frame
              c.tcp.stream fn)
            (λ s f. (set, fb, f))))
        (λ c' q. (c', refl, q))

  -- A whole cycle: the request is read, and then answered.
  pub cycle-runs :
      (exchange : List ℕ → Cycle S TX TS D SE TE (List ℕ))
      → Answers exchange
      → Serves (read_request p >>= answer p exchange)
  unfolding answer
  cycle-runs exchange gives bus_out bus_in net_out net_in req resp more_bus more_net c asked answers
        f en eb =
      let After : Connection S TX TS D → Type 0 =
        Between (bus_out ++ bus_frame req) (bus_in ++ resp) (net_out ++ net_frame req resp)
          (net_in ++ req) in
      Runs-bind (read_request p) (answer p exchange) c req (request_event req)
        (Between bus_out bus_in net_out (net_in ++ req)) After
        (read_request-runs bus_out bus_in net_out net_in req more_net c asked f en)
        (λ c' f'. rw (tcp_to_rtu_fits lawful.vec_lawful req asked.0 (omega (arith, asked.2))) (
          Runs-bind (exchange (bus_frame req)) _ c' resp (request_event req)
            (Between (bus_out ++ bus_frame req) (bus_in ++ resp) net_out (net_in ++ req)) After
            (gives bus_out bus_in net_out (net_in ++ req) (bus_frame req) resp more_bus c' answers
              f' eb)
            (λ c'' f''.
              rw (relay_response-valid lawful.vec_lawful resp (request_tid req) answers.0 answers.2)
                (reply-runs (bus_out ++ bus_frame req) (bus_in ++ resp) net_out (net_in ++ req)
                  (net_frame req resp) (request_event req) c'' f''))))

  -- `next` without timeouts serves.
  pub next-Serves : Serves (next p)
  unfolding next
  next-Serves = cycle-runs (exchange p) exchange-runs
