-- ===== src/ClientSession/Success.antt =====
-- A cycle of src/client_session.rs between a master that has asked and a server that answers: the
-- call returns, and the master is answered.
use modbus_bridge_rs.Base.{
  ℕ, ◌+◌, ◌%◌, ◌^◌, ◌≡◌, refl, Option, List, ◌++◌, arith, length, drop, le→ltb,
}
use modbus_bridge_rs.Base.Outcome.{pure, map_fail}
use modbus_bridge_rs.Base.Runs.{Runs, Runs-then, Runs-map_fail, Runs-zoom}
use modbus_bridge_rs.Frame.{crc, parse_rtu_request}
use modbus_bridge_rs.Frame.Crc.{IsU16}
use modbus_bridge_rs.Frame.Check.{body}
use modbus_bridge_rs.Frame.Convert.{mbap_frame}
use modbus_bridge_rs.Io.{Traffic}
use modbus_bridge_rs.Io.Responsive.{Faces, write_all-runs}
use modbus_bridge_rs.Ports.{Ports, IsPorts, IsLive}
use modbus_bridge_rs.Rtu
use modbus_bridge_rs.Rtu.{on_serial}
use modbus_bridge_rs.Rtu.Replies
use modbus_bridge_rs.Rtu.Replies.{IsRequestAdu}
use modbus_bridge_rs.Rtu.Answered.{on_serial-runs, send-runs}
use modbus_bridge_rs.Tcp
use modbus_bridge_rs.Tcp.Success.{IsTcpAdu, listen-runs}
use modbus_bridge_rs.Event.{BridgeEvent, tcp_io, rtu_io}
use modbus_bridge_rs.Connection.{or_zero, completed, listen_error}
use modbus_bridge_rs.ClientSession.{
  ClientSession, Cycle, on_rtu, on_tcp, request_error, read_request, exchange, relay, reply,
}
use modbus_bridge_rs.ClientSession.Relay.{tid_warning, relay_response_lem}

-- What goes out to the master for a response, and to the server for a request.
abbrev pub bus_frame : List ℕ → List ℕ
bus_frame resp = drop 6 resp ++ crc (drop 6 resp)

abbrev pub net_frame : ℕ → List ℕ → List ℕ
net_frame tid req = mbap_frame tid (body req)

-- The event of a cycle, with the transaction id that it used.
abbrev pub cycle_event : ℕ → List ℕ → List ℕ → BridgeEvent
cycle_event tid req resp = completed (or_zero (parse_rtu_request req)) (tid_warning tid resp)

-- The id after a given one.
abbrev pub id_after : ℕ → ℕ
id_after id = (id + 1) % 2 ^ 16

pub id_after-IsU16 : (id : ℕ) → IsU16 (id_after id)
id_after-IsU16 id = omega arith

module _ {S TX TS D SE TE : Type 0} {p : Ports S TX TS SE TE} {bus : Traffic S} {net : Traffic TS}
    {bus_script : S → List ℕ → List ℕ} {net_script : TS → List ℕ → List ℕ}
    (lawful : IsPorts p bus net) (live : IsLive p bus net bus_script net_script)
    (master server : List ℕ → List ℕ) (limits : Option ℕ × Option ℕ) where
  -- The traffic up to now, between the given master and server, the last transaction id, and the
  -- timeouts on the serial port and on the stream.
  abbrev pub Between : ℕ → List ℕ → List ℕ → List ℕ → List ℕ → ClientSession S TX TS D → Type 0
  Between id bus_out bus_in net_out net_in c =
      ((c.client.rtu_timeout_ms, c.client.tcp_timeout_ms) ≡ limits)
      × (c.tcp.transaction_id ≡ id)
      × Faces lawful.serial_lawful live.serial_live master bus_out bus_in c.client.rtu.serial
      × Faces lawful.stream_lawful live.stream_live server net_out net_in c.tcp.stream

  -- A call serves: from any point of the traffic between a master and a server that are functions
  -- of what they have been told, if the master has sent one whole request with a valid CRC, and
  -- the server answers the request's PDU under the next transaction id by one whole frame of 7 to
  -- 261 bytes, then the call returns the event of the request, or a warning if the answer is for
  -- another transaction; and the master has been sent the answer's PDU with its CRC, whatever the
  -- sizes of the reads and writes into which the lines part the frames, and whatever comes behind
  -- them.
  abbrev pub Serves : Cycle S TX TS D SE TE BridgeEvent → Type 0
  Serves m =
      (id : ℕ) (bus_out bus_in net_out net_in req resp more_bus more_net : List ℕ)
      (c : ClientSession S TX TS D)
      → IsRequestAdu req
      → IsTcpAdu resp
      → Between id bus_out bus_in net_out net_in c
      → master bus_out ≡ bus_in ++ (req ++ more_bus)
      → server (net_out ++ net_frame (id_after id) req) ≡ net_in ++ (resp ++ more_net)
      → Runs m c (cycle_event (id_after id) req resp) (
          Between (id_after id) (bus_out ++ bus_frame resp) (bus_in ++ req)
            (net_out ++ net_frame (id_after id) req) (net_in ++ resp))

  pub read_request-runs :
      (id : ℕ) (bus_out bus_in net_out net_in req more : List ℕ) (c : ClientSession S TX TS D)
      → IsRequestAdu req
      → Between id bus_out bus_in net_out net_in c
      → master bus_out ≡ bus_in ++ (req ++ more)
      → Runs (read_request p) c req (Between id bus_out (bus_in ++ req) net_out net_in)
  unfolding read_request
  read_request-runs id bus_out bus_in net_out net_in req more c (valid, size, fits) (set, i, fb, fn)
        e =
      Runs-map_fail request_error (on_rtu (on_serial (Rtu.listen p.vec p.serial))) c req
        (Between id bus_out (bus_in ++ req) net_out net_in)
        (Runs-zoom (λ u. u.client.rtu) (λ r u. record u { client = record u.client { rtu = r } })
          (on_serial (Rtu.listen p.vec p.serial)) c req
          (λ r. Faces lawful.serial_lawful live.serial_live master bus_out (bus_in ++ req) r.serial)
          (Between id bus_out (bus_in ++ req) net_out net_in)
          (on_serial-runs p.pin lawful.serial_lawful live.serial_live master
            (Rtu.listen p.vec p.serial) c.client.rtu req bus_out (bus_in ++ req)
            (Rtu.Replies.listen-runs lawful.serial_lawful live.serial_live master lawful.vec_lawful
              bus_out bus_in req more c.client.rtu.serial valid size fits fb e))
          (λ r f. (set, i, f, fn)))

  abbrev pub send_request : List ℕ → Cycle S TX TS D SE TE (Unit {0})
  send_request req = map_fail tcp_io (on_tcp (Tcp.send p.stream req))

  abbrev pub read_response : Cycle S TX TS D SE TE (List ℕ)
  read_response = map_fail listen_error (on_tcp (Tcp.listen p.vec p.stream))

  pub send_request-runs :
      (id : ℕ) (bus_out bus_in net_out net_in req : List ℕ) (c : ClientSession S TX TS D)
      → Between id bus_out bus_in net_out net_in c
      → Runs (send_request req) c tt (Between id bus_out bus_in (net_out ++ req) net_in)
  unfolding Tcp.send
  send_request-runs id bus_out bus_in net_out net_in req c (set, i, fb, fn) =
      Runs-map_fail tcp_io (on_tcp (Tcp.send p.stream req)) c tt
        (Between id bus_out bus_in (net_out ++ req) net_in)
        (Runs-zoom (λ u. u.tcp.stream) (λ s u. record u { tcp = record u.tcp { stream = s } })
          (Tcp.send p.stream req) c tt
          (Faces lawful.stream_lawful live.stream_live server (net_out ++ req) net_in)
          (Between id bus_out bus_in (net_out ++ req) net_in)
          (write_all-runs lawful.stream_lawful live.stream_live server net_out net_in req
            c.tcp.stream fn)
          (λ s f. (set, i, fb, f)))

  pub read_response-runs :
      (id : ℕ) (bus_out bus_in net_out net_in resp more : List ℕ) (c : ClientSession S TX TS D)
      → IsTcpAdu resp
      → Between id bus_out bus_in net_out net_in c
      → server net_out ≡ net_in ++ (resp ++ more)
      → Runs read_response c resp (Between id bus_out bus_in net_out (net_in ++ resp))
  read_response-runs id bus_out bus_in net_out net_in resp more c (_, size, fits) (set, i, fb, fn)
        e =
      Runs-map_fail listen_error (on_tcp (Tcp.listen p.vec p.stream)) c resp
        (Between id bus_out bus_in net_out (net_in ++ resp))
        (Runs-zoom (λ u. u.tcp.stream) (λ s u. record u { tcp = record u.tcp { stream = s } })
          (Tcp.listen p.vec p.stream) c resp
          (Faces lawful.stream_lawful live.stream_live server net_out (net_in ++ resp))
          (Between id bus_out bus_in net_out (net_in ++ resp))
          (listen-runs lawful.stream_lawful live.stream_live server lawful.vec_lawful net_out net_in
            resp more c.tcp.stream size fits fn e)
          (λ s f. (set, i, fb, f)))

  -- Sending a request and reading the response, however it waits between the two.
  abbrev pub Answers : (List ℕ → Cycle S TX TS D SE TE (List ℕ)) → Type 0
  Answers exchange =
      (id : ℕ) (bus_out bus_in net_out net_in req resp more : List ℕ) (c : ClientSession S TX TS D)
      → IsTcpAdu resp
      → Between id bus_out bus_in net_out net_in c
      → server (net_out ++ req) ≡ net_in ++ (resp ++ more)
      → Runs (exchange req) c resp (Between id bus_out bus_in (net_out ++ req) (net_in ++ resp))

  pub exchange-runs : Answers (exchange p)
  unfolding exchange
  exchange-runs id bus_out bus_in net_out net_in req resp more c answers f e =
      Runs-then (send_request req) read_response c tt resp
        (Between id bus_out bus_in (net_out ++ req) net_in)
        (Between id bus_out bus_in (net_out ++ req) (net_in ++ resp))
        (send_request-runs id bus_out bus_in net_out net_in req c f)
        (λ c' f'.
          read_response-runs id bus_out bus_in (net_out ++ req) net_in resp more c' answers f' e)

  reply-runs :
      (id : ℕ) (bus_out bus_in net_out net_in frame : List ℕ) (event : BridgeEvent)
      (c : ClientSession S TX TS D)
      → Between id bus_out bus_in net_out net_in c
      → Runs (reply p frame event) c event (Between id (bus_out ++ frame) bus_in net_out net_in)
  reply-runs id bus_out bus_in net_out net_in frame event c (set, i, fb, fn) =
      Runs-then (map_fail rtu_io (on_rtu (Rtu.send p.serial p.pin frame))) (pure event) c tt event
        (Between id (bus_out ++ frame) bus_in net_out net_in)
        (Between id (bus_out ++ frame) bus_in net_out net_in)
        (Runs-map_fail rtu_io (on_rtu (Rtu.send p.serial p.pin frame)) c tt
          (Between id (bus_out ++ frame) bus_in net_out net_in)
          (Runs-zoom (λ u. u.client.rtu) (λ r u. record u { client = record u.client { rtu = r } })
            (Rtu.send p.serial p.pin frame) c tt
            (λ r.
              Faces lawful.serial_lawful live.serial_live master (bus_out ++ frame) bus_in r.serial)
            (Between id (bus_out ++ frame) bus_in net_out net_in)
            (send-runs p.pin lawful.serial_lawful live.serial_live master bus_out bus_in frame
              c.client.rtu fb)
            (λ r f. (set, i, f, fn))))
        (λ c' q. (c', refl, q))

  pub relay-runs :
      (id tid : ℕ) (bus_out bus_in net_out net_in req resp : List ℕ) (c : ClientSession S TX TS D)
      → IsTcpAdu resp
      → Between id bus_out bus_in net_out net_in c
      → Runs
          (relay p req tid resp)
          c
          (cycle_event tid req resp)
          (Between id (bus_out ++ bus_frame resp) bus_in net_out net_in)
  relay-runs id tid bus_out bus_in net_out net_in req resp c (long, size, fits) f =
      rw
        (
          relay_response_lem lawful.vec_lawful {SE = SE} {TE = TE} resp tid (size, fits),
          le→ltb (length resp) 7 long,
        )
        (reply-runs id bus_out bus_in net_out net_in (bus_frame resp) (cycle_event tid req resp) c
          f)
