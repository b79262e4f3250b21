-- ===== src/ClientSession.antt =====
-- src/client_session.rs: a Modbus RTU → TCP session, one request and response cycle at a time.
-- The session borrows the client, so the client's state is a part of the session's.
pub mod Relay
pub mod Parts
pub mod Cycles
pub mod Timed
pub mod Deadlines
pub mod Raced
pub mod Race
pub mod Cutoff
pub mod Finish
pub mod Success
pub mod Serving
pub mod Conversation
pub mod Punctual
pub mod History
use modbus_bridge_rs.Base.{ℕ, List, Option, none, some, ltb, if◌then◌else◌, length, get_or}
use modbus_bridge_rs.Base.Outcome.{
  Result, ok, err, Exec, ◌>>=◌, ◌>>◌, pure, lift, map_err, map_fail, zoom,
}
use modbus_bridge_rs.Error.{ModbusError}
use modbus_bridge_rs.Heapless.{Heapless}
use modbus_bridge_rs.Frame.{
  FrameError, from_be_bytes, parse_rtu_request, rtu_to_tcp, tcp_resp_to_rtu,
}
use modbus_bridge_rs.Ports.{Ports}
use modbus_bridge_rs.Rtu
use modbus_bridge_rs.Rtu.{ModbusRtu, RtuError, on_serial}
use modbus_bridge_rs.Tcp
use modbus_bridge_rs.Tcp.{ModbusTcp}
use modbus_bridge_rs.Event.{
  BridgeError, BridgeEvent, Warning, tcp_io, rtu_io, rtu_closed, rtu_crc_mismatch, buffer_overflow,
  transaction_id_mismatch,
}
use modbus_bridge_rs.Client.{Client}
use modbus_bridge_rs.Connection.{or_zero, completed, overflow, listen_error}

pub record ClientSession (S TX TS D : Type 0) : Type 0 where
  pub client : Client S TX D
  pub tcp : ModbusTcp TS

module _ {S TX TS D : Type 0} where
  -- `ClientSession::new` and `ClientSession::into_stream`
  unfoldable pub new : Client S TX D → TS → ClientSession S TX TS D
  new client stream = record { client = client; tcp = Tcp.new stream }

  -- `Client::connect`, of src/client.rs
  unfoldable pub connect : Client S TX D → TS → ClientSession S TX TS D
  unfolding new
  connect client stream = new client stream

  unfoldable pub into_stream : ClientSession S TX TS D → TS
  into_stream c = Tcp.into_inner c.tcp

-- The parts of a session that a call acts on.
module _ {S TX TS D E A : Type 0} where
  abbrev pub on_rtu : Exec (ModbusRtu S TX) E A → Exec (ClientSession S TX TS D) E A
  on_rtu = zoom (λ c. c.client.rtu) (λ r c. record c { client = record c.client { rtu = r } })

  abbrev pub on_tcp : Exec TS E A → Exec (ClientSession S TX TS D) E A
  on_tcp = zoom (λ c. c.tcp.stream) (λ s c. record c { tcp = record c.tcp { stream = s } })

-- The id that a response carries.
abbrev pub response_tid : List ℕ → ℕ
response_tid tcp_resp =
    if ltb (length tcp_resp) 2 then 0 else from_be_bytes (get_or tcp_resp 0 0) (get_or tcp_resp 1 0)

module _ {SE TE : Type 0} where
  -- The closure of `map_err` on `rtu.listen()`; that on `tcp.listen()` is the same as in
  -- src/connection.rs.
  unfoldable pub request_error : RtuError SE → BridgeError SE TE
  request_error (ModbusError.serial se) = rtu_io se
  request_error ModbusError.crc = rtu_crc_mismatch
  request_error ModbusError.payload_too_short = rtu_closed
  request_error _ = buffer_overflow

  -- The response frame, with the warning that goes with the fallback.
  abbrev pub fallback_relay :
      ℕ → ℕ → Result FrameError (List ℕ) → Result (BridgeError SE TE) (List ℕ × Option Warning)
  fallback_relay tid rx_tid (ok fallback) = ok (fallback, some (transaction_id_mismatch tid rx_tid))
  fallback_relay tid rx_tid (err _) = err buffer_overflow

  unfoldable pub relay_result :
      Heapless
      → List ℕ
      → ℕ
      → Result FrameError (List ℕ)
      → Result (BridgeError SE TE) (List ℕ × Option Warning)
  relay_result h tcp_resp tid (ok r) = ok (r, none)
  relay_result h tcp_resp tid (err ModbusError.invalid_transaction_id) =
      let rx_tid = response_tid tcp_resp in
      fallback_relay tid rx_tid (tcp_resp_to_rtu h tcp_resp rx_tid)
  relay_result h tcp_resp tid (err _) = err buffer_overflow

  unfoldable pub relay_response :
      Heapless → List ℕ → ℕ → Result (BridgeError SE TE) (List ℕ × Option Warning)
  unfolding relay_result
  relay_response h tcp_resp tid = relay_result h tcp_resp tid (tcp_resp_to_rtu h tcp_resp tid)

abbrev pub Cycle : (S TX TS D SE TE A : Type 0) → Type 0
Cycle S TX TS D SE TE A = Exec (ClientSession S TX TS D) (BridgeError SE TE) A

module _ {S TX TS D SE TE : Type 0} (p : Ports S TX TS SE TE) where
  -- `self.tcp.next_transaction_id()`
  abbrev pub fresh_tid : Cycle S TX TS D SE TE ℕ
  fresh_tid c = let (id, tcp) = Tcp.next_transaction_id c.tcp in pure id (record c { tcp = tcp })

  unfoldable pub read_request : Cycle S TX TS D SE TE (List ℕ)
  read_request = map_fail request_error (on_rtu (on_serial (Rtu.listen p.vec p.serial)))

  unfoldable pub exchange : List ℕ → Cycle S TX TS D SE TE (List ℕ)
  exchange tcp_req = do
    map_fail tcp_io (on_tcp (Tcp.send p.stream tcp_req))
    map_fail listen_error (on_tcp (Tcp.listen p.vec p.stream))

  abbrev pub reply : List ℕ → BridgeEvent → Cycle S TX TS D SE TE BridgeEvent
  reply rtu_resp event = map_fail rtu_io (on_rtu (Rtu.send p.serial p.pin rtu_resp)) >> pure event

  -- A response from the server is translated and sent to the master.
  abbrev pub relay : List ℕ → ℕ → List ℕ → Cycle S TX TS D SE TE BridgeEvent
  relay rtu_req tid tcp_resp = do
    (rtu_resp, tid_warning) ← lift (relay_response p.vec tcp_resp tid)
    reply rtu_resp (completed (or_zero (parse_rtu_request rtu_req)) tid_warning)

  -- Everything after the request is in: it is translated, handed to `exchange`, and answered.
  unfoldable pub answer :
      (List ℕ → Cycle S TX TS D SE TE (List ℕ)) → List ℕ → Cycle S TX TS D SE TE BridgeEvent
  answer exchange rtu_req = do
    id ← fresh_tid
    tcp_req ← lift (map_err overflow (rtu_to_tcp p.vec rtu_req id))
    tcp_resp ← exchange tcp_req
    relay rtu_req (from_be_bytes (get_or tcp_req 0 0) (get_or tcp_req 1 0)) tcp_resp

  -- `next` without timeouts.
  unfoldable pub next : Cycle S TX TS D SE TE BridgeEvent
  next = do rtu_req ← read_request; answer exchange rtu_req
