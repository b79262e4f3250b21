-- ===== src/Connection.antt =====
-- src/connection.rs: a Modbus TCP → RTU connection, one request and response cycle at a time.
-- The connection borrows the bridge, so the bridge's state is a part of the connection's.
pub mod Timed
pub mod Parts
pub mod Cycles
pub mod Deadlines
pub mod Silent
pub mod Raced
pub mod Race
pub mod Cutoff
pub mod Finish
pub mod Success
pub mod Conversation
pub mod Punctual
pub mod History
use modbus_bridge_rs.Base.{
  ℕ, ◌+◌, List, Option, none, some, Bool, ltb, if◌then◌else◌, length, get_or,
}
use modbus_bridge_rs.Base.Outcome.{
  Result, ok, err, Outcome, done, fail, stalled, Exec, ◌>>=◌, ◌>>◌, pure, lift, map_err, map_fail,
  zoom,
}
use modbus_bridge_rs.Error.{ModbusError}
use modbus_bridge_rs.Heapless.{Heapless}
use modbus_bridge_rs.Frame.{
  FrameError, Request, from_be_bytes, parse_tcp_request, tcp_to_rtu, rtu_resp_to_tcp,
}
use modbus_bridge_rs.Ports.{Ports}
use modbus_bridge_rs.Rtu.{ModbusRtu, RtuError, send_and_receive}
use modbus_bridge_rs.Tcp
use modbus_bridge_rs.Tcp.{ModbusTcp, TcpError}
use modbus_bridge_rs.Event.{
  BridgeError, BridgeEvent, Transaction, Warning, tcp_closed, tcp_io, rtu_io, rtu_crc_mismatch,
  buffer_overflow, timeout, transaction_id_mismatch, from_u8,
}
use modbus_bridge_rs.Bridge.{Bridge}

pub record Connection (S TX TS D : Type 0) : Type 0 where
  pub bridge : Bridge S TX D
  pub tcp : ModbusTcp TS

module _ {S TX TS D : Type 0} where
  -- `Connection::new` and `Connection::into_stream`
  unfoldable pub new : Bridge S TX D → TS → Connection S TX TS D
  new bridge stream = record { bridge = bridge; tcp = Tcp.new stream }

  -- `Bridge::accept`, of src/bridge.rs
  unfoldable pub accept : Bridge S TX D → TS → Connection S TX TS D
  unfolding new
  accept bridge stream = new bridge stream

  unfoldable pub into_stream : Connection S TX TS D → TS
  into_stream c = Tcp.into_inner c.tcp

-- The parts of a connection that a call acts on.
module _ {S TX TS D E A : Type 0} where
  abbrev pub on_rtu : Exec (ModbusRtu S TX) E A → Exec (Connection S TX TS D) E A
  on_rtu = zoom (λ c. c.bridge.rtu) (λ r c. record c { bridge = record c.bridge { rtu = r } })

  abbrev pub on_tcp : Exec TS E A → Exec (Connection S TX TS D) E A
  on_tcp = zoom (λ c. c.tcp.stream) (λ s c. record c { tcp = record c.tcp { stream = s } })

module _ {SE TE : Type 0} where
  -- The closures of `map_err` on `tcp.listen()` and on `rtu.send_and_receive(...)`.
  unfoldable pub listen_error : TcpError TE → BridgeError SE TE
  listen_error ModbusError.payload_too_short = tcp_closed
  listen_error (ModbusError.tcp te) = tcp_io te
  listen_error ModbusError.push = buffer_overflow
  listen_error _ = buffer_overflow

  unfoldable pub exchange_error : RtuError SE → BridgeError SE TE
  exchange_error (ModbusError.serial se) = rtu_io se
  exchange_error ModbusError.crc = rtu_crc_mismatch
  exchange_error ModbusError.payload_too_short = rtu_crc_mismatch
  exchange_error _ = buffer_overflow

  unfoldable pub overflow : FrameError → BridgeError SE TE
  overflow _ = buffer_overflow

  -- The response frame, with the warning that goes with the fallback.
  abbrev fallback_relay :
      List ℕ → ℕ → Result FrameError (List ℕ) → Result (BridgeError SE TE) (List ℕ × Option Warning)
  fallback_relay rtu_resp tid (ok fallback) =
      let rx_tid =
        if ltb (length rtu_resp) 2
        then 0
        else from_be_bytes (get_or rtu_resp 0 0) (get_or rtu_resp 1 0) in
      ok (fallback, some (transaction_id_mismatch tid rx_tid))
  fallback_relay rtu_resp tid (err _) = err buffer_overflow

  unfoldable pub relay_result :
      Heapless
      → List ℕ
      → ℕ
      → Result FrameError (List ℕ)
      → Result (BridgeError SE TE) (List ℕ × Option Warning)
  relay_result h rtu_resp tid (ok r) = ok (r, none)
  relay_result h rtu_resp tid (err ModbusError.invalid_transaction_id) =
      fallback_relay rtu_resp tid (rtu_resp_to_tcp h rtu_resp 0)
  relay_result h rtu_resp tid (err _) = err buffer_overflow

  unfoldable pub relay_response :
      Heapless → List ℕ → ℕ → Result (BridgeError SE TE) (List ℕ × Option Warning)
  unfolding relay_result
  relay_response h rtu_resp tid = relay_result h rtu_resp tid (rtu_resp_to_tcp h rtu_resp tid)

-- `unwrap_or((0, 0, 0, 0))`
abbrev pub or_zero : Option Request → Request
or_zero none = (0, 0, 0, 0)
or_zero (some r) = r

-- The event of a completed cycle.
abbrev pub completed : Request → Option Warning → BridgeEvent
completed (unit_id, fc_byte, start_address, register_count) none = BridgeEvent.transaction (record {
  unit_id = unit_id;
  function_code = from_u8 fc_byte;
  start_address = start_address;
  register_count = register_count;
})
completed request (some w) = BridgeEvent.warning w

abbrev pub Cycle : (S TX TS D SE TE A : Type 0) → Type 0
Cycle S TX TS D SE TE A = Exec (Connection S TX TS D) (BridgeError SE TE) A

module _ {S TX TS D SE TE : Type 0} (p : Ports S TX TS SE TE) where
  abbrev pub reply : List ℕ → BridgeEvent → Cycle S TX TS D SE TE BridgeEvent
  reply tcp_resp event = map_fail tcp_io (on_tcp (Tcp.send p.stream tcp_resp)) >> pure event

  -- A response from the bus is translated and sent to the client.
  abbrev pub relay : List ℕ → ℕ → List ℕ → Cycle S TX TS D SE TE BridgeEvent
  relay tcp_req tid rtu_resp = do
    (tcp_resp, tid_warning) ← lift (relay_response p.vec rtu_resp tid)
    reply tcp_resp (completed (or_zero (parse_tcp_request tcp_req)) tid_warning)

  -- Everything after the request is in: it is translated, handed to `exchange`, and answered.
  unfoldable pub answer :
      (List ℕ → Cycle S TX TS D SE TE (List ℕ)) → List ℕ → Cycle S TX TS D SE TE BridgeEvent
  unfolding overflow
  answer exchange tcp_req = do
    (rtu_req, tid) ← lift (map_err overflow (tcp_to_rtu p.vec tcp_req))
    rtu_resp ← exchange rtu_req
    relay tcp_req tid rtu_resp

  unfoldable pub read_request : Cycle S TX TS D SE TE (List ℕ)
  read_request = map_fail listen_error (on_tcp (Tcp.listen p.vec p.stream))

  unfoldable pub exchange : List ℕ → Cycle S TX TS D SE TE (List ℕ)
  exchange rtu_req =
      map_fail exchange_error (on_rtu (send_and_receive p.vec p.serial p.pin rtu_req))

  -- `next` without timeouts.
  unfoldable pub next : Cycle S TX TS D SE TE BridgeEvent
  next = do tcp_req ← read_request; answer exchange tcp_req
