-- ===== src/ClientSession/Cycles.antt =====
-- One cycle of src/client_session.rs end to end: what goes over the two lines, and what is reported.
use modbus_bridge_rs.Base.{
  ℕ, ◌+◌, ◌%◌, ◌^◌, ◌≤◌, ◌≡◌, refl, ap, ◌∙◌, inl, inr, List, ◌++◌, arith, length, drop, ltb,
  Bool-cases,
}
use modbus_bridge_rs.Base.Outcome.{ok, ◌>>=◌}
use modbus_bridge_rs.Base.Ensures.{Ensures, Ensures-bind, Ensures-weaken}
use modbus_bridge_rs.Frame.{crc, check_crc, parse_rtu_request}
use modbus_bridge_rs.Frame.Crc.{IsU16}
use modbus_bridge_rs.Frame.Check.{body, check_crc-ok}
use modbus_bridge_rs.Frame.Convert.{mbap_frame}
use modbus_bridge_rs.Frame.RoundTrip.{rtu_to_tcp_fits, request_tid-mbap}
use modbus_bridge_rs.Io.{Traffic}
use modbus_bridge_rs.Io.Order.{Move}
use modbus_bridge_rs.Ports.{Ports, IsNetLogged}
use modbus_bridge_rs.Rtu.Frames.{request_length}
use modbus_bridge_rs.Tcp
use modbus_bridge_rs.Event.{BridgeEvent}
use modbus_bridge_rs.Connection.{or_zero, completed}
use modbus_bridge_rs.ClientSession.{
  ClientSession, Cycle, read_request, exchange, relay, answer, next,
}
use modbus_bridge_rs.ClientSession.Relay.{IsSized, tid_warning, relay_response_lem}
use modbus_bridge_rs.ClientSession.Parts.{
  net_turn, Lines, Unanswered, Heard, read_request-post, Kept, Responded, Exchanges, exchange-post,
  reply-post,
}

module _ {S TX TS D SE TE : Type 0} {p : Ports S TX TS SE TE} {bus : Traffic S}
    {log : TS → List Move} (lawful : IsNetLogged p bus log) where
  -- What a completed cycle has done, from lines with the given traffic and with the given new
  -- transaction id: one whole request with a valid CRC came in from the master; its PDU went out
  -- to the server under the id, and then one response came in; and its PDU went out to the master with a
  -- CRC. The event warns if the response is for another transaction.
  abbrev pub Forwarded :
      List ℕ → List ℕ → List Move → ℕ → BridgeEvent → ClientSession S TX TS D → Type 0
  Forwarded bus_out bus_in l tid event c =
      (req : List ℕ) × (resp : List ℕ) × (check_crc req ≡ ok tt)
      × (length req ≡ request_length req)
      × IsSized resp
      × (event ≡ completed (or_zero (parse_rtu_request req)) (tid_warning tid resp))
      × (c.tcp.transaction_id ≡ tid)
      × Lines lawful (bus_out ++ (drop 6 resp ++ crc (drop 6 resp))) (bus_in ++ req)
          (l ++ net_turn tid req resp) c

  -- The id of the next transaction: they count up, and wrap around.
  abbrev pub next_tid : ClientSession S TX TS D → ℕ
  next_tid c = (c.tcp.transaction_id + 1) % 2 ^ 16

  tid-IsU16 : (c : ClientSession S TX TS D) → IsU16 (next_tid c)
  tid-IsU16 c = omega arith

  relay-post :
      (bus_out bus_in : List ℕ) (l : List Move) (req resp : List ℕ) (tid : ℕ)
      (c : ClientSession S TX TS D)
      → check_crc req ≡ ok tt
      → length req ≡ request_length req
      → IsSized resp
      → c.tcp.transaction_id ≡ tid
      → Lines lawful bus_out (bus_in ++ req) (l ++ net_turn tid req resp) c
      → Ensures
          (Forwarded bus_out bus_in l tid)
          (Unanswered lawful bus_out bus_in l)
          (relay p req tid resp c).0
          (relay p req tid resp c).1
  relay-post bus_out bus_in l req resp tid c valid size sized id (ab, an) =
      elim (Bool-cases (ltb (length resp) 7)) [
        | inl short ↦
            rw (relay_response_lem lawful.vec_lawful {SE = SE} {TE = TE} resp tid sized, short)
              (inl ab.0)
        | inr long ↦
            rw (relay_response_lem lawful.vec_lawful {SE = SE} {TE = TE} resp tid sized, long)
              (reply-post lawful bus_out (bus_in ++ req) (l ++ net_turn tid req resp)
                (drop 6 resp ++ crc (drop 6 resp))
                (completed (or_zero (parse_rtu_request req)) (tid_warning tid resp)) c
                (Forwarded bus_out bus_in l tid) (Unanswered lawful bus_out bus_in l) (ab, an)
                (λ c' lines same. (req, resp, valid, size, sized, refl, same ∙ id, lines))
                (λ e n c' blamed lines same.
                  inr (blamed, (req, resp, n, valid, size, sized, rw (same ∙ id) lines))))
      ]

  module _ (f : List ℕ → Cycle S TX TS D SE TE (List ℕ)) (spec : Exchanges lawful f) where
    pub answer-post :
        (bus_out bus_in : List ℕ) (l : List Move) (req : List ℕ) (c : ClientSession S TX TS D)
        → check_crc req ≡ ok tt
        → length req ≡ request_length req
        → length req ≤ 255
        → Lines lawful bus_out (bus_in ++ req) l c
        → Ensures
            (Forwarded bus_out bus_in l (next_tid c))
            (Unanswered lawful bus_out bus_in l)
            (answer p f req c).0
            (answer p f req c).1
    unfolding answer Tcp.next_transaction_id
    answer-post bus_out bus_in l req c valid size room (ab, an) =
        let tid : ℕ = next_tid c in
        let frame : List ℕ = mbap_frame (next_tid c) (body req) in
        let c' : ClientSession S TX TS D = record c {
          tcp = record c.tcp { transaction_id = next_tid c };
        } in
        rw
          (rtu_to_tcp_fits lawful.vec_lawful req (next_tid c) (check_crc-ok req valid).0
            (omega arith))
          (Ensures-bind (Responded lawful l frame c') (Forwarded bus_out bus_in l tid)
            (Unanswered lawful bus_out bus_in l) (f frame) _ c'
            (Ensures-weaken (Responded lawful l frame c') (Responded lawful l frame c')
              (λ _ c''. Kept lawful c' c'') (Unanswered lawful bus_out bus_in l) (f frame c').0
              (f frame c').1 (spec l frame c' an) (λ _ _ q. q)
              (λ _ c'' q. inl (ap (λ r. bus.sent r.serial) q.0 ∙ ab.0)))
            (λ resp c'' (sized, an', k).
              rw (request_tid-mbap (next_tid c) (body req) (tid-IsU16 c)) (
                relay-post bus_out bus_in l req resp (next_tid c) c'' valid size sized k.1
                  (rw (k.0) ab, an'))))

    pub cycle-post :
        (bus_out bus_in : List ℕ) (l : List Move) (c : ClientSession S TX TS D)
        → Lines lawful bus_out bus_in l c
        → Ensures
            (Forwarded bus_out bus_in l (next_tid c))
            (Unanswered lawful bus_out bus_in l)
            ((read_request p >>= answer p f) c).0
            ((read_request p >>= answer p f) c).1
    cycle-post bus_out bus_in l c (ab, an) =
        Ensures-bind (Heard lawful bus_out bus_in c) (Forwarded bus_out bus_in l (next_tid c))
          (Unanswered lawful bus_out bus_in l) (read_request p) (answer p f) c
          (read_request-post lawful bus_out bus_in l c ab)
          (λ req c' ((valid, size, room, _, ab'), kept).
            rw (← kept) (answer-post bus_out bus_in l req c' valid size room (ab', rw kept an)))

  -- One call of `next` without timeouts, on ports that keep their contracts and from any point of
  -- the traffic. If it returns an event, it has taken one whole request with a valid CRC from the
  -- bus, sent its PDU to the server under the next transaction id, read one response from the
  -- server, and sent the master the PDU of that response with a CRC; the event describes the
  -- request or, exactly if the response carries another id, is a warning with both ids. After an
  -- error or a stall nothing has been sent to the master, or the call was cut off in that answer, by
  -- a stall or an error of the serial port.
  pub session_next-Forwarded :
      (bus_out bus_in : List ℕ) (l : List Move) (c : ClientSession S TX TS D)
      → Lines lawful bus_out bus_in l c
      → Ensures
          (Forwarded bus_out bus_in l (next_tid c))
          (Unanswered lawful bus_out bus_in l)
          (next p c).0
          (next p c).1
  unfolding next
  session_next-Forwarded = cycle-post (exchange p) (exchange-post lawful)
