-- ===== src/Frame/RoundTrip.antt =====
-- The conversions of src/frame.rs undo each other, and both request parsers agree.
use modbus_bridge_rs.Base.{
  ℕ, ◌+◌, ◌-◌, ◌%◌, ◌^◌, ◌≤◌, ◌≡◌, ◌≢◌, sym, ap, ◌∙◌, List, ◌++◌, arith, length, drop,
  length-append, length-take, length-drop, leb, ==_refl, true, le→ltb, take_all,
}
use modbus_bridge_rs.Base.Outcome.{ok, err}
use modbus_bridge_rs.Frame.{
  crc, check_crc, rtu_to_tcp, tcp_to_rtu, tcp_resp_to_rtu, rtu_resp_to_tcp,
}
use modbus_bridge_rs.Error.{ModbusError}
use modbus_bridge_rs.Heapless.{Heapless, IsHeapless}
use modbus_bridge_rs.Frame.Crc.{IsU16}
use modbus_bridge_rs.Frame.Check.{body, length-crc, check_crc-ok}
use modbus_bridge_rs.Frame.Convert.{
  mbap_frame, request_tid, rtu_to_tcp_lem, tcp_to_rtu_lem, tcp_resp_to_rtu_lem, rtu_resp_to_tcp_lem,
}

pub request_tid-mbap : (tid : ℕ) (pdu : List ℕ) → IsU16 tid → request_tid (mbap_frame tid pdu) ≡ tid
request_tid-mbap tid pdu h = omega arith

pub length-body : (rtu : List ℕ) → length (body rtu) ≡ length rtu - 2
length-body rtu = length-take (length rtu - 2) rtu ∙ omega arith

le→leb : (a b : ℕ) → a ≤ b → leb a b ≡ true
le→leb a b h = ground arith

module _ {h : Heapless} (lawful : IsHeapless h) where
  -- Wrapping a frame of 4 to 508 bytes.
  pub rtu_to_tcp_fits :
      (rtu : List ℕ) (tid : ℕ)
      → 4 ≤ length rtu
      → length rtu ≤ 508
      → rtu_to_tcp h rtu tid ≡ ok (mbap_frame tid (body rtu))
  rtu_to_tcp_fits rtu tid lo hi =
      rw (rtu_to_tcp_lem lawful rtu tid, le→ltb (length rtu) 4 lo)
        (rw (le→leb (length (mbap_frame tid (body rtu))) 512 (omega (arith, length-body rtu))))

  pub rtu_resp_to_tcp_fits :
      (rtu : List ℕ) (tid : ℕ)
      → 4 ≤ length rtu
      → length rtu ≤ 508
      → rtu_resp_to_tcp h rtu tid ≡ ok (mbap_frame tid (body rtu))
  rtu_resp_to_tcp_fits rtu tid lo hi =
      rw (rtu_resp_to_tcp_lem lawful rtu tid, le→ltb (length rtu) 4 lo)
        (rw (le→leb (length (mbap_frame tid (body rtu))) 512 (omega (arith, length-body rtu))))

  -- Unwrapping a frame of 7 to 516 bytes.
  pub tcp_to_rtu_fits :
      (tcp : List ℕ)
      → 7 ≤ length tcp
      → length tcp ≤ 516
      → tcp_to_rtu h tcp ≡ ok (drop 6 tcp ++ crc (drop 6 tcp), request_tid tcp)
  tcp_to_rtu_fits tcp lo hi =
      rw (tcp_to_rtu_lem lawful tcp, le→ltb (length tcp) 7 lo)
        (rw (
          le→leb (length (drop 6 tcp ++ crc (drop 6 tcp))) 512 (
            omega (
              arith,
              length-append (drop 6 tcp) (crc (drop 6 tcp)),
              length-crc (drop 6 tcp),
              length-drop 6 tcp,
            ))))

  -- A request frame with a valid CRC, of at most 508 bytes, comes back whole from its TCP form,
  -- with the transaction id that it was given.
  pub tcp_to_rtu-rtu_to_tcp :
      (rtu : List ℕ) (tid : ℕ)
      → check_crc rtu ≡ ok tt
      → length rtu ≤ 508
      → IsU16 tid
      → (tcp : List ℕ) × (rtu_to_tcp h rtu tid ≡ ok tcp) × (tcp_to_rtu h tcp ≡ ok (rtu, tid))
  tcp_to_rtu-rtu_to_tcp rtu tid valid hi ht =
      let (lo, split) = check_crc-ok rtu valid in
      (
        mbap_frame tid (body rtu),
        rtu_to_tcp_fits rtu tid lo hi,
        rw (
          tcp_to_rtu_fits (mbap_frame tid (body rtu)) (omega (arith, length-body rtu))
              (omega (arith, length-body rtu)),
          request_tid-mbap tid (body rtu) ht,
          ← split,
        ),
      )

  -- A TCP response for the expected transaction whose PDU has 1 to 255 bytes.
  pub tcp_resp_to_rtu_fits :
      (tid : ℕ) (pdu : List ℕ)
      → IsU16 tid
      → 1 ≤ length pdu
      → length pdu ≤ 255
      → tcp_resp_to_rtu h (mbap_frame tid pdu) tid ≡ ok (pdu ++ crc pdu)
  tcp_resp_to_rtu_fits tid pdu ht lo hi =
      rw
        (
          tcp_resp_to_rtu_lem lawful (mbap_frame tid pdu) tid,
          le→ltb (length (mbap_frame tid pdu)) 7 (omega arith),
          request_tid-mbap tid pdu ht,
          ==_refl tid,
        )
        (rw
          (
            le→ltb (length (mbap_frame tid pdu)) (6 + length pdu % 2 ^ 16 % 256) (omega arith),
            take_all (length pdu % 2 ^ 16 % 256) pdu (omega arith),
          )
          (rw (
            le→leb (length (pdu ++ crc pdu)) 512
              (omega (arith, length-append pdu (crc pdu), length-crc pdu)))))

  -- A response frame with a valid CRC, of at most 257 bytes, comes back whole from its TCP form
  -- under the expected transaction id, and is refused under any other.
  pub tcp_resp_to_rtu-rtu_resp_to_tcp :
      (rtu : List ℕ) (tid other : ℕ)
      → check_crc rtu ≡ ok tt
      → length rtu ≤ 257
      → IsU16 tid
      → other ≢ tid
      → (tcp : List ℕ) × (rtu_resp_to_tcp h rtu tid ≡ ok tcp)
        × (tcp_resp_to_rtu h tcp tid ≡ ok rtu)
        × (tcp_resp_to_rtu h tcp other ≡ err ModbusError.invalid_transaction_id)
  tcp_resp_to_rtu-rtu_resp_to_tcp rtu tid other valid hi ht ne =
      let (lo, split) = check_crc-ok rtu valid in
      (
        mbap_frame tid (body rtu),
        rtu_resp_to_tcp_fits rtu tid lo (omega arith),
        tcp_resp_to_rtu_fits tid (body rtu) ht (omega (arith, length-body rtu))
              (omega (arith, length-body rtu))
            ∙ ap ok (sym split),
        rw
            (
              tcp_resp_to_rtu_lem lawful (mbap_frame tid (body rtu)) other,
              le→ltb (length (mbap_frame tid (body rtu))) 7 (omega (arith, length-body rtu)),
              request_tid-mbap tid (body rtu) ht,
            )
            (ground arith),
      )
