-- ===== src/Connection/Cycles.antt =====
-- One cycle of src/connection.rs end to end: what goes over the two lines, and what is reported.
use modbus_bridge_rs.Base.{
  ℕ, ◌+◌, ◌≤◌, ◌≡◌, refl, ap, ◌∙◌, ◌⊎◌, inl, inr, Option, none, some, List, ◌++◌, arith, length,
  take, drop, ltb, ltb→le, Bool-cases, get_or,
}
use modbus_bridge_rs.Base.Outcome.{
  ok, Outcome, done, fail, stalled, Exec, continue, ◌>>=◌, pure, map_fail_outcome,
}
use modbus_bridge_rs.Base.Ensures.{Ensures, Ensures-bind, Ensures-weaken, Ensures-map_fail}
use modbus_bridge_rs.Frame.{crc, check_crc, from_be_bytes, parse_tcp_request}
use modbus_bridge_rs.Frame.Check.{body}
use modbus_bridge_rs.Frame.Convert.{mbap_frame, request_tid, tcp_to_rtu_lem}
use modbus_bridge_rs.Frame.RoundTrip.{tcp_to_rtu_fits}
use modbus_bridge_rs.Io.{Traffic, At, write_all}
use modbus_bridge_rs.Io.WriteAll.{WroteSome, write_all-wrote}
use modbus_bridge_rs.Ports.{Ports, IsBusLogged}
use modbus_bridge_rs.Rtu.{ModbusRtu, RtuError, send_and_receive}
use modbus_bridge_rs.Rtu.Order.{Answered, Interrupted, send_and_receive-Answered}
use modbus_bridge_rs.Io.Order.{Move, sends, receives}
use modbus_bridge_rs.Base.{map}
use modbus_bridge_rs.Tcp
use modbus_bridge_rs.Tcp.{ModbusTcp, TcpError, tcp_buf}
use modbus_bridge_rs.Tcp.Listen.{IsTcpFrame, Quiet, listen-IsTcpFrame}
use modbus_bridge_rs.Event.{BridgeError, BridgeEvent, tcp_io}
use modbus_bridge_rs.Bridge.{Bridge}
use modbus_bridge_rs.Connection.Parts.{relay_response-valid, on_tcp-post, on_rtu-post}
use modbus_bridge_rs.Connection.{
  Connection, Cycle, on_rtu, on_tcp, or_zero, completed, answer, read_request, exchange,
  exchange_error, listen_error, next, reply,
}

-- What goes over the bus in a cycle: the request's PDU with its CRC, and then the response.
abbrev pub bus_turn : List ℕ → List ℕ → List Move
bus_turn req resp = map sends (drop 6 req ++ crc (drop 6 req)) ++ map receives resp

module _ {SE TE : Type 0} where
  -- A stall, or an error of the client's line.
  abbrev pub Blames : Option (BridgeError SE TE) → Type 0
  Blames e = (e ≡ none) ⊎ ((te : TE) × (e ≡ some (tcp_io te)))

module _ {S TX TS D SE TE : Type 0} {p : Ports S TX TS SE TE} {log : S → List Move}
    {net : Traffic TS} (lawful : IsBusLogged p log net) where
  -- The log of the bus and the traffic on the net up to now.
  abbrev pub Lines : List Move → List ℕ → List ℕ → Connection S TX TS D → Type 0
  Lines l net_out net_in c = (log c.bridge.rtu.serial ≡ l) × At net net_out net_in c.tcp.stream

  -- What a completed cycle has done, from lines with the given traffic: one whole request came in
  -- from the client; its PDU went out on the bus with a CRC, and then one response with a valid
  -- CRC came in; and its PDU went out to the client under the id of the request.
  abbrev pub Forwarded : List Move → List ℕ → List ℕ → BridgeEvent → Connection S TX TS D → Type 0
  Forwarded l net_out net_in event c =
      (req : List ℕ) × (resp : List ℕ) × (7 ≤ length req)
      × (length req ≡ 6 + from_be_bytes (get_or req 4 0) (get_or req 5 0))
      × (check_crc resp ≡ ok tt)
      × (event ≡ completed (or_zero (parse_tcp_request req)) none)
      × Lines (l ++ bus_turn req resp) (net_out ++ mbap_frame (request_tid req) (body resp))
          (net_in ++ req) c

  -- A cycle that was cut off in its answer: as in `Forwarded`, but only a prefix of the answer has
  -- gone out to the client.
  abbrev pub Cut : List Move → List ℕ → List ℕ → Connection S TX TS D → Type 0
  Cut l net_out net_in c =
      (req : List ℕ) × (resp : List ℕ) × (n : ℕ) × (7 ≤ length req)
      × (length req ≡ 6 + from_be_bytes (get_or req 4 0) (get_or req 5 0))
      × (check_crc resp ≡ ok tt)
      × Lines (l ++ bus_turn req resp)
          (net_out ++ take n (mbap_frame (request_tid req) (body resp))) (net_in ++ req) c

  -- After an error or a stall nothing has gone out to the client, or the cycle was cut off in its
  -- answer, by a stall or an error of the client's line.
  abbrev pub Unanswered :
      List Move → List ℕ → List ℕ → Option (BridgeError SE TE) → Connection S TX TS D → Type 0
  Unanswered l net_out net_in e c =
      (net.sent c.tcp.stream ≡ net_out) ⊎ (Blames e × Cut l net_out net_in c)

  -- A valid response has come in, with nothing done to the client's line.
  abbrev pub Responded : List Move → List ℕ → ModbusTcp TS → List ℕ → Connection S TX TS D → Type 0
  Responded l rtu_req tcp resp c =
      (check_crc resp ≡ ok tt)
      × (length resp ≤ 260)
      × (log c.bridge.rtu.serial ≡ l ++ (map sends rtu_req ++ map receives resp))
      × (c.tcp ≡ tcp)

  -- What `answer` needs of the exchange with the device.
  abbrev pub Exchanges : (List ℕ → Cycle S TX TS D SE TE (List ℕ)) → Type 0
  Exchanges f =
      (l : List Move) (rtu_req : List ℕ) (c : Connection S TX TS D)
      → (log c.bridge.rtu.serial ≡ l)
      → Ensures (Responded l rtu_req c.tcp) (λ e c'. c'.tcp ≡ c.tcp) (f rtu_req c).0 (f rtu_req c).1

  pub exchange-post : Exchanges (exchange p)
  unfolding exchange
  exchange-post l rtu_req c a =
      let run : Exec (ModbusRtu S TX) (RtuError SE) (List ℕ) =
        send_and_receive p.vec p.serial p.pin rtu_req in
      let Done : List ℕ → ModbusRtu S TX → Type 0 =
        Answered p.pin lawful.serial_logged lawful.serial_lawful lawful.vec_lawful l rtu_req
          c.bridge.rtu.tx_en in
      let Break : Option (RtuError SE) → ModbusRtu S TX → Type 0 =
        Interrupted p.pin lawful.serial_logged lawful.serial_lawful lawful.vec_lawful l rtu_req in
      Ensures-map_fail exchange_error (Responded l rtu_req c.tcp) (λ _ c'. c'.tcp ≡ c.tcp)
        (λ _ c'. c'.tcp ≡ c.tcp) (on_rtu run c).0 (on_rtu run c).1
        (Ensures-weaken (λ resp c'. Done resp c'.bridge.rtu × (c'.tcp ≡ c.tcp))
          (Responded l rtu_req c.tcp) (λ e c'. Break e c'.bridge.rtu × (c'.tcp ≡ c.tcp))
          (λ _ c'. c'.tcp ≡ c.tcp) (on_rtu run c).0 (on_rtu run c).1
          (on_rtu-post Done Break run c (
            send_and_receive-Answered p.pin lawful.serial_logged lawful.serial_lawful
              lawful.vec_lawful l rtu_req c.bridge.rtu a))
          (λ resp c' ((valid, _, fits, _, a'), kept). (valid, fits, a', kept)) (λ _ c' q. q.1))
        (λ e e' c' q. q)

  -- The reply goes out whole, or a prefix of it does and the call ends with an error of the stream
  -- or stalls.
  reply-post :
      (l : List Move) (net_out net_in frame : List ℕ) (event : BridgeEvent)
      (c : Connection S TX TS D) (Q : BridgeEvent → Connection S TX TS D → Type 0)
      (B : Option (BridgeError SE TE) → Connection S TX TS D → Type 0)
      → Lines l net_out net_in c
      → ((c' : Connection S TX TS D) → Lines l (net_out ++ frame) net_in c' → Q event c')
      → ((e : Option (BridgeError SE TE)) (n : ℕ) (c' : Connection S TX TS D)
          → Blames e
          → Lines l (net_out ++ take n frame) net_in c'
          → B e c')
      → Ensures Q B (reply p frame event c).0 (reply p frame event c).1
  unfolding Tcp.send
  reply-post l net_out net_in frame event c Q B (ab, an) q cut =
      finish (write_all p.stream frame c.tcp.stream).0 (write_all p.stream frame c.tcp.stream).1
        (write_all-wrote lawful.stream_lawful net_out net_in frame c.tcp.stream an)
    where
      finish :
          (o : Outcome TE (Unit {0})) (s : TS)
          → Ensures
              (λ _ s'. At net (net_out ++ frame) net_in s')
              (WroteSome lawful.stream_lawful net_out net_in frame)
              o
              s
          → let c' : Connection S TX TS D = record c { tcp = record c.tcp { stream = s } } in
            let r : Outcome (BridgeError SE TE) BridgeEvent × Connection S TX TS D =
              continue (map_fail_outcome tcp_io o) (λ _. pure event) c' in
            Ensures Q B r.0 r.1
      finish (done _) s a = q (record c { tcp = record c.tcp { stream = s } }) (ab, a)
      finish (fail te) s (n, a) =
          cut (some (tcp_io te)) n (record c { tcp = record c.tcp { stream = s } }) (inr (te, refl))
            (ab, a)
      finish stalled s (n, a) =
          cut none n (record c { tcp = record c.tcp { stream = s } }) (inl refl) (ab, a)

  module _ (f : List ℕ → Cycle S TX TS D SE TE (List ℕ)) (spec : Exchanges f) where
    pub answer-post :
        (l : List Move) (net_out net_in req : List ℕ) (c : Connection S TX TS D)
        → (length req ≡ 6 + from_be_bytes (get_or req 4 0) (get_or req 5 0))
        → length req ≤ tcp_buf
        → Lines l net_out (net_in ++ req) c
        → Ensures
            (Forwarded l net_out net_in)
            (Unanswered l net_out net_in)
            (answer p f req c).0
            (answer p f req c).1
    unfolding answer
    answer-post l net_out net_in req c size room (ab, an) = elim (Bool-cases (ltb (length req) 7)) [
      | inl short ↦ rw (tcp_to_rtu_lem lawful.vec_lawful req, short) (inl an.0)
      | inr long ↦ rw (tcp_to_rtu_fits lawful.vec_lawful req (ltb→le _ _ long) (omega arith)) (
          Ensures-bind (Responded l (drop 6 req ++ crc (drop 6 req)) c.tcp)
            (Forwarded l net_out net_in) (Unanswered l net_out net_in)
            (f (drop 6 req ++ crc (drop 6 req))) _ c
            (Ensures-weaken (Responded l (drop 6 req ++ crc (drop 6 req)) c.tcp)
              (Responded l (drop 6 req ++ crc (drop 6 req)) c.tcp) (λ _ c'. c'.tcp ≡ c.tcp)
              (Unanswered l net_out net_in) (f (drop 6 req ++ crc (drop 6 req)) c).0
              (f (drop 6 req ++ crc (drop 6 req)) c).1
              (spec l (drop 6 req ++ crc (drop 6 req)) c ab) (λ _ _ q. q)
              (λ _ c' q. inl (ap (λ x. net.sent x.stream) q ∙ an.0)))
            (λ resp c' (valid, len, ab', kept).
              rw (relay_response-valid lawful.vec_lawful resp (request_tid req) valid len) (
                reply-post (l ++ bus_turn req resp) net_out (net_in ++ req)
                  (mbap_frame (request_tid req) (body resp))
                  (completed (or_zero (parse_tcp_request req)) none) c' (Forwarded l net_out net_in)
                  (Unanswered l net_out net_in) (ab', rw kept an)
                  (λ c'' lines. (req, resp, ltb→le _ _ long, size, valid, refl, lines))
                  (λ e n c'' blamed lines.
                    inr (blamed, (req, resp, n, ltb→le _ _ long, size, valid, lines))))))
    ]

  -- What a request that has been read off the client's line is.
  abbrev pub Heard : List ℕ → List ℕ → Bridge S TX D → List ℕ → Connection S TX TS D → Type 0
  Heard net_out net_in bridge req c =
      IsTcpFrame lawful.stream_lawful lawful.vec_lawful net_out net_in req c.tcp.stream
      × (c.bridge ≡ bridge)

  pub read_request-post :
      (l : List Move) (net_out net_in : List ℕ) (c : Connection S TX TS D)
      → At net net_out net_in c.tcp.stream
      → Ensures
          (Heard net_out net_in c.bridge)
          (Unanswered l net_out net_in)
          (read_request p c).0
          (read_request p c).1
  unfolding read_request
  read_request-post l net_out net_in c an =
      let run : Exec TS (TcpError TE) (List ℕ) = Tcp.listen p.vec p.stream in
      Ensures-map_fail listen_error (Heard net_out net_in c.bridge)
        (λ e c'. Quiet lawful.stream_lawful net_out e c'.tcp.stream × (c'.bridge ≡ c.bridge))
        (Unanswered l net_out net_in) (on_tcp run c).0 (on_tcp run c).1
        (on_tcp-post (IsTcpFrame lawful.stream_lawful lawful.vec_lawful net_out net_in)
          (Quiet lawful.stream_lawful net_out) run c
          (listen-IsTcpFrame lawful.stream_lawful lawful.vec_lawful net_out net_in c.tcp.stream an))
        (λ _ _ c' q. inl q.0)

  -- Reading a request and answering it, with any exchange that keeps to its contract.
  pub cycle-post :
      (f : List ℕ → Cycle S TX TS D SE TE (List ℕ))
      → Exchanges f
      → (l : List Move) (net_out net_in : List ℕ) (c : Connection S TX TS D)
      → Lines l net_out net_in c
      → Ensures
          (Forwarded l net_out net_in)
          (Unanswered l net_out net_in)
          ((read_request p >>= answer p f) c).0
          ((read_request p >>= answer p f) c).1
  cycle-post f spec l net_out net_in c (ab, an) =
      Ensures-bind (Heard net_out net_in c.bridge) (Forwarded l net_out net_in)
        (Unanswered l net_out net_in) (read_request p) (answer p f) c
        (read_request-post l net_out net_in c an)
        (λ req c' ((size, room, _, an'), kept).
          answer-post f spec l net_out net_in req c' size room (rw kept ab, an'))

  -- One call of `next` without timeouts, on ports that keep their contracts and from any point of
  -- the traffic. If it returns an event, it has taken one whole request from the client, sent its
  -- PDU and the CRC of it on the bus, then read one response with a valid CRC from the bus, and sent
  -- the client the PDU of that response under the request's transaction id; and the event
  -- describes the request. After an error or a stall
  -- nothing has been sent to the client, or the call was cut off in that answer, by a stall or an
  -- error of the TCP stream.
  pub next-Forwarded :
      (l : List Move) (net_out net_in : List ℕ) (c : Connection S TX TS D)
      → Lines l net_out net_in c
      → Ensures (Forwarded l net_out net_in) (Unanswered l net_out net_in) (next p c).0 (next p c).1
  unfolding next
  next-Forwarded = cycle-post (exchange p) exchange-post
