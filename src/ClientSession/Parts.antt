-- ===== src/ClientSession/Parts.antt =====
-- The steps of a cycle of src/client_session.rs: the request, the exchange with the server, and
-- the reply.
use modbus_bridge_rs.Base.{
  ℕ, ◌≡◌, refl, ◌∙◌, ◌⊎◌, inl, inr, Option, none, some, List, ◌++◌, length, take, drop,
}
use modbus_bridge_rs.Frame.{crc, check_crc}
use modbus_bridge_rs.Frame.Check.{body}
use modbus_bridge_rs.Frame.Convert.{mbap_frame}
use modbus_bridge_rs.Rtu.Frames.{request_length}
use modbus_bridge_rs.ClientSession.Relay.{IsSized}
use modbus_bridge_rs.Base.Outcome.{
  ok, Outcome, done, fail, stalled, Exec, continue, pure, map_fail, map_fail_outcome,
}
use modbus_bridge_rs.Base.Ensures.{
  Ensures, Ensures-bind, Ensures-weaken, Ensures-map_fail, Ensures-zoom,
}
use modbus_bridge_rs.Io.{Traffic, At, write_all}
use modbus_bridge_rs.Base.{map}
use mathlib.Core.List.{append_assoc}
use modbus_bridge_rs.Io.Order.{Move, sends, receives}
use modbus_bridge_rs.Tcp.Order.{write_all-Logged, Read, listen-Logged}
use modbus_bridge_rs.Ports.{Ports, IsNetLogged}
use modbus_bridge_rs.Rtu
use modbus_bridge_rs.Rtu.{ModbusRtu, RtuError, on_serial}
use modbus_bridge_rs.Rtu.Read
use modbus_bridge_rs.Rtu.Listen.{IsRequest, listen-IsRequest}
use modbus_bridge_rs.Rtu.Send.{Transmitted, Broken, Broken-prefix, send-Transmitted, on_serial-post}
use modbus_bridge_rs.Tcp
use modbus_bridge_rs.Tcp.{TcpError}
use modbus_bridge_rs.Event.{BridgeError, BridgeEvent, tcp_io, rtu_io}
use modbus_bridge_rs.Connection.{listen_error}
use modbus_bridge_rs.ClientSession.{
  ClientSession, Cycle, on_rtu, on_tcp, request_error, read_request, exchange, reply,
}

-- What goes over the net in a cycle: the request's PDU under the transaction id, and then the
-- response.
abbrev pub net_turn : ℕ → List ℕ → List ℕ → List Move
net_turn tid req resp = map sends (mbap_frame tid (body req)) ++ map receives resp

module _ {SE TE : Type 0} where
  -- A stall, or an error of the master's line.
  abbrev pub Blames : Option (BridgeError SE TE) → Type 0
  Blames e = (e ≡ none) ⊎ ((se : SE) × (e ≡ some (rtu_io se)))

module _ {S TX TS D SE TE : Type 0} {p : Ports S TX TS SE TE} {bus : Traffic S}
    {log : TS → List Move} (lawful : IsNetLogged p bus log) where
  abbrev pub Lines : List ℕ → List ℕ → List Move → ClientSession S TX TS D → Type 0
  Lines bus_out bus_in l c = At bus bus_out bus_in c.client.rtu.serial × (log c.tcp.stream ≡ l)

  -- A cycle that was cut off in its answer: a request has come in and gone on to the server under
  -- the session's transaction id, the response has come in, and only a prefix of the answer has
  -- gone out to the master.
  abbrev pub Cut : List ℕ → List ℕ → List Move → ClientSession S TX TS D → Type 0
  Cut bus_out bus_in l c =
      (req : List ℕ) × (resp : List ℕ) × (n : ℕ) × (check_crc req ≡ ok tt)
      × (length req ≡ request_length req)
      × IsSized resp
      × Lines (bus_out ++ take n (drop 6 resp ++ crc (drop 6 resp))) (bus_in ++ req)
          (l ++ net_turn c.tcp.transaction_id req resp) c

  -- After an error or a stall nothing has gone out to the master, or the cycle was cut off in its
  -- answer, by a stall or an error of the master's line.
  abbrev pub Unanswered :
      List ℕ → List ℕ → List Move → Option (BridgeError SE TE) → ClientSession S TX TS D → Type 0
  Unanswered bus_out bus_in l e c =
      (bus.sent c.client.rtu.serial ≡ bus_out) ⊎ (Blames e × Cut bus_out bus_in l c)

  -- A request has come in, with nothing done to the server's line.
  abbrev pub Heard :
      List ℕ → List ℕ → ClientSession S TX TS D → List ℕ → ClientSession S TX TS D → Type 0
  Heard bus_out bus_in c req c' =
      IsRequest lawful.serial_lawful lawful.vec_lawful bus_out bus_in req c'.client.rtu.serial
      × (c'.tcp ≡ c.tcp)

  pub read_request-post :
      (bus_out bus_in : List ℕ) (l : List Move) (c : ClientSession S TX TS D)
      → At bus bus_out bus_in c.client.rtu.serial
      → Ensures
          (Heard bus_out bus_in c)
          (Unanswered bus_out bus_in l)
          (read_request p c).0
          (read_request p c).1
  unfolding read_request
  read_request-post bus_out bus_in l c ab =
      let run : Exec S (RtuError SE) (List ℕ) = Rtu.listen p.vec p.serial in
      let Req : List ℕ → S → Type 0 =
        IsRequest lawful.serial_lawful lawful.vec_lawful bus_out bus_in in
      let Quiet : Option (RtuError SE) → S → Type 0 = Rtu.Read.Quiet lawful.serial_lawful bus_out in
      Ensures-map_fail request_error (Heard bus_out bus_in c)
        (λ e c'.
          (Quiet e c'.client.rtu.serial × (c'.client.rtu.tx_en ≡ c.client.rtu.tx_en))
          × (c'.tcp ≡ c.tcp))
        (Unanswered bus_out bus_in l) (on_rtu (on_serial run) c).0 (on_rtu (on_serial run) c).1
        (Ensures-weaken
          (λ a c'.
            (Req a c'.client.rtu.serial × (c'.client.rtu.tx_en ≡ c.client.rtu.tx_en))
            × (c'.tcp ≡ c.tcp))
          (Heard bus_out bus_in c)
          (λ e c'.
            (Quiet e c'.client.rtu.serial × (c'.client.rtu.tx_en ≡ c.client.rtu.tx_en))
            × (c'.tcp ≡ c.tcp))
          (λ e c'.
            (Quiet e c'.client.rtu.serial × (c'.client.rtu.tx_en ≡ c.client.rtu.tx_en))
            × (c'.tcp ≡ c.tcp))
          (on_rtu (on_serial run) c).0 (on_rtu (on_serial run) c).1
          (Ensures-zoom (λ c'. c'.client.rtu)
            (λ r c'. record c' { client = record c'.client { rtu = r } }) (λ _ _. refl)
            (λ a r. Req a r.serial × (r.tx_en ≡ c.client.rtu.tx_en))
            (λ e r. Quiet e r.serial × (r.tx_en ≡ c.client.rtu.tx_en)) (λ c'. c'.tcp ≡ c.tcp)
            (on_serial run) c (λ _. refl)
            (on_serial-post Req Quiet run c.client.rtu (
              listen-IsRequest lawful.serial_lawful lawful.vec_lawful bus_out bus_in
                c.client.rtu.serial ab)))
          (λ _ _ q. (q.0.0, q.1)) (λ _ _ q. q))
        (λ _ _ c' q. inl q.0.0)

  -- What the other line, the settings and the transaction id of the session are.
  abbrev pub Kept : ClientSession S TX TS D → ClientSession S TX TS D → Type 0
  Kept c c' = (c'.client.rtu ≡ c.client.rtu) × (c'.tcp.transaction_id ≡ c.tcp.transaction_id)

  -- A response has come in from the server after the request.
  abbrev pub Responded :
      List Move → List ℕ → ClientSession S TX TS D → List ℕ → ClientSession S TX TS D → Type 0
  Responded l tcp_req c resp c' =
      IsSized resp × (log c'.tcp.stream ≡ l ++ (map sends tcp_req ++ map receives resp)) × Kept c c'

  -- What `answer` needs of the exchange with the server.
  abbrev pub Exchanges : (List ℕ → Cycle S TX TS D SE TE (List ℕ)) → Type 0
  Exchanges f =
      (l : List Move) (tcp_req : List ℕ) (c : ClientSession S TX TS D)
      → (log c.tcp.stream ≡ l)
      → Ensures (Responded l tcp_req c) (λ _ c'. Kept c c') (f tcp_req c).0 (f tcp_req c).1

  zoom_tcp :
      {E A : Type 0} (P : A → TS → Type 0) (B : Option E → TS → Type 0) (m : Exec TS E A)
      (c : ClientSession S TX TS D)
      → Ensures P B (m c.tcp.stream).0 (m c.tcp.stream).1
      → Ensures
          (λ a c'. P a c'.tcp.stream × Kept c c')
          (λ e c'. B e c'.tcp.stream × Kept c c')
          (on_tcp m c).0
          (on_tcp m c).1
  zoom_tcp P B m c =
      Ensures-zoom (λ c'. c'.tcp.stream) (λ s c'. record c' { tcp = record c'.tcp { stream = s } })
        (λ _ _. refl) P B (Kept c) m c (λ _. (refl, refl))

  pub send-post :
      (l : List Move) (tcp_req : List ℕ) (c : ClientSession S TX TS D)
      → (log c.tcp.stream ≡ l)
      → let m : Cycle S TX TS D SE TE (Unit {0}) =
          map_fail tcp_io (on_tcp (Tcp.send p.stream tcp_req)) in
        Ensures
          (λ _ c'. (log c'.tcp.stream ≡ l ++ map sends tcp_req) × Kept c c')
          (λ _ c'. Kept c c')
          (m c).0
          (m c).1
  unfolding Tcp.send
  send-post l tcp_req c an =
      let run : Exec TS TE (Unit {0}) = write_all p.stream tcp_req in
      let P : Unit {0} → TS → Type 0 = λ _ s. log s ≡ l ++ map sends tcp_req in
      Ensures-map_fail tcp_io (λ a c'. P a c'.tcp.stream × Kept c c') (λ _ c'. Unit {0} × Kept c c')
        (λ _ c'. Kept c c') (on_tcp run c).0 (on_tcp run c).1
        (zoom_tcp P (λ _ _. Unit {0}) run c
          (write_all-Logged lawful.stream_logged lawful.stream_lawful l tcp_req c.tcp.stream an))
        (λ _ _ _ q. q.1)

  pub listen-post :
      (l : List Move) (c : ClientSession S TX TS D)
      → (log c.tcp.stream ≡ l)
      → let m : Cycle S TX TS D SE TE (List ℕ) =
          map_fail listen_error (on_tcp (Tcp.listen p.vec p.stream)) in
        Ensures
          (λ resp c'.
            Read lawful.stream_logged lawful.stream_lawful lawful.vec_lawful l resp c'.tcp.stream
            × Kept c c')
          (λ _ c'. Kept c c')
          (m c).0
          (m c).1
  listen-post l c an =
      let run : Exec TS (TcpError TE) (List ℕ) = Tcp.listen p.vec p.stream in
      let P : List ℕ → TS → Type 0 =
        Read lawful.stream_logged lawful.stream_lawful lawful.vec_lawful l in
      Ensures-map_fail listen_error (λ a c'. P a c'.tcp.stream × Kept c c')
        (λ _ c'. Unit {0} × Kept c c') (λ _ c'. Kept c c') (on_tcp run c).0 (on_tcp run c).1
        (zoom_tcp P (λ _ _. Unit {0}) run c
          (listen-Logged lawful.stream_logged lawful.stream_lawful lawful.vec_lawful l c.tcp.stream
            an))
        (λ _ _ _ q. q.1)

  -- Reading a response on the log with the request.
  pub responded :
      (l : List Move) (tcp_req resp : List ℕ) (c c' c'' : ClientSession S TX TS D)
      → Kept c c'
      → Read lawful.stream_logged lawful.stream_lawful lawful.vec_lawful
          (l ++ map sends tcp_req)
          resp
          c''.tcp.stream
      → Kept c' c''
      → Responded l tcp_req c resp c''
  responded l tcp_req resp c c' c'' k (size, room, a) k' = (
    (size, room),
    a ∙ append_assoc l (map sends tcp_req) (map receives resp),
    (k'.0 ∙ k.0, k'.1 ∙ k.1),
  )

  pub exchange-post : Exchanges (exchange p)
  unfolding exchange
  exchange-post l tcp_req c an =
      Ensures-bind (λ _ c'. (log c'.tcp.stream ≡ l ++ map sends tcp_req) × Kept c c')
        (Responded l tcp_req c) (λ _ c'. Kept c c')
        (map_fail tcp_io (on_tcp (Tcp.send p.stream tcp_req)))
        (λ _. map_fail listen_error (on_tcp (Tcp.listen p.vec p.stream))) c
        (send-post l tcp_req c an)
        (λ _ c' (an', k).
          Ensures-weaken
            (λ resp c''.
              Read lawful.stream_logged lawful.stream_lawful lawful.vec_lawful
                (l ++ map sends tcp_req) resp c''.tcp.stream
              × Kept c' c'')
            (Responded l tcp_req c) (λ _ c''. Kept c' c'') (λ _ c''. Kept c c'') _ _
            (listen-post (l ++ map sends tcp_req) c' an')
            (λ resp c'' q. responded l tcp_req resp c c' c'' k q.0 q.1)
            (λ _ _ q. (q.0 ∙ k.0, q.1 ∙ k.1)))

  -- The reply goes out whole, or a prefix of it does and the call ends with an error of the port or
  -- stalls.
  pub reply-post :
      (bus_out bus_in : List ℕ) (l : List Move) (frame : List ℕ) (event : BridgeEvent)
      (c : ClientSession S TX TS D) (Q : BridgeEvent → ClientSession S TX TS D → Type 0)
      (B : Option (BridgeError SE TE) → ClientSession S TX TS D → Type 0)
      → Lines bus_out bus_in l c
      → ((c' : ClientSession S TX TS D)
          → Lines (bus_out ++ frame) bus_in l c'
          → c'.tcp.transaction_id ≡ c.tcp.transaction_id
          → Q event c')
      → ((e : Option (BridgeError SE TE)) (n : ℕ) (c' : ClientSession S TX TS D)
          → Blames e
          → Lines (bus_out ++ take n frame) bus_in l c'
          → c'.tcp.transaction_id ≡ c.tcp.transaction_id
          → B e c')
      → Ensures Q B (reply p frame event c).0 (reply p frame event c).1
  reply-post bus_out bus_in l frame event c Q B (ab, an) q cut =
      finish (Rtu.send p.serial p.pin frame c.client.rtu).0
        (Rtu.send p.serial p.pin frame c.client.rtu).1
        (send-Transmitted p.pin lawful.serial_lawful bus_out bus_in frame c.client.rtu.tx_en
          c.client.rtu ab refl)
    where
      broken :
          (e : Option (BridgeError SE TE)) (e' : Option SE) (r : ModbusRtu S TX)
          → Blames e
          → Broken p.pin lawful.serial_lawful bus_out bus_in frame c.client.rtu.tx_en e' r
          → B e (record c { client = record c.client { rtu = r } })
      broken e e' r blamed b =
          let (n, a) =
            Broken-prefix p.pin lawful.serial_lawful bus_out bus_in frame c.client.rtu.tx_en e' r
              b in
          cut e n (record c { client = record c.client { rtu = r } }) blamed (a, an) refl

      finish :
          (o : Outcome SE (Unit {0})) (r : ModbusRtu S TX)
          → Ensures
              (λ _ r'.
                Transmitted p.pin lawful.serial_lawful bus_out bus_in frame c.client.rtu.tx_en r')
              (Broken p.pin lawful.serial_lawful bus_out bus_in frame c.client.rtu.tx_en)
              o
              r
          → let c' : ClientSession S TX TS D = record c { client = record c.client { rtu = r } } in
            let w : Outcome (BridgeError SE TE) BridgeEvent × ClientSession S TX TS D =
              continue (map_fail_outcome rtu_io o) (λ _. pure event) c' in
            Ensures Q B w.0 w.1
      finish (done _) r a = q (record c { client = record c.client { rtu = r } }) (a.0, an) refl
      finish (fail se) r b = broken (some (rtu_io se)) (some se) r (inr (se, refl)) b
      finish stalled r b = broken none none r (inl refl) b
