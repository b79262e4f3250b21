-- ===== src/ClientSession/Relay.antt =====
-- The relay of a response in src/client_session.rs, on every frame that `listen` returns.
use modbus_bridge_rs.Base.{
  ℕ, ◌+◌, ◌-◌, ◌≤◌, ◌≡◌, refl, inl, inr, Option, none, some, List, ◌++◌, Bool, true, false, not,
  arith, length, drop, ltb, leb, ltb→le, le→ltb, Bool-cases, if◌then◌else◌, get_or, ◌==◌, ==_refl,
  take_all, length-append, length-drop,
}
use modbus_bridge_rs.Base.Outcome.{ok, err}
use modbus_bridge_rs.Error.{ModbusError}
use modbus_bridge_rs.Heapless.{Heapless, IsHeapless}
use modbus_bridge_rs.Frame.{crc, from_be_bytes, tcp_resp_to_rtu}
use modbus_bridge_rs.Frame.Check.{length-crc}
use modbus_bridge_rs.Frame.Convert.{request_tid, tcp_resp_to_rtu_lem}
use modbus_bridge_rs.Event.{Warning, buffer_overflow, transaction_id_mismatch}
use modbus_bridge_rs.ClientSession.{relay_response}

-- A frame whose length field states its length and that fits the buffer of src/tcp.rs.
abbrev pub IsSized : List ℕ → Type 0
IsSized resp =
    (length resp ≡ 6 + from_be_bytes (get_or resp 4 0) (get_or resp 5 0)) × (length resp ≤ 261)

-- The warning of a response to another transaction.
abbrev pub tid_warning : ℕ → List ℕ → Option Warning
tid_warning tid resp =
    if request_tid resp == tid then none else some (transaction_id_mismatch tid (request_tid resp))

-- The low byte of the length is all of it.
stated_pdu-IsSized : (resp : List ℕ) → IsSized resp → get_or resp 5 0 ≡ length resp - 6
stated_pdu-IsSized resp (size, room) = omega arith

if_not : {A : Type 0} (b : Bool) (x y : A) → (if not b then x else y) ≡ (if b then y else x)
if_not true x y = refl
if_not false x y = refl

le→leb : (a b : ℕ) → a ≤ b → leb a b ≡ true
le→leb a b h = ground arith

module _ {h : Heapless} (vec : IsHeapless h) where
  -- The conversion under the response's own id.
  pub tcp_resp_to_rtu-IsSized :
      (resp : List ℕ) (tid : ℕ)
      → IsSized resp
      → 7 ≤ length resp
      → tcp_resp_to_rtu h resp tid ≡ (
          if request_tid resp == tid
          then ok (drop 6 resp ++ crc (drop 6 resp))
          else err ModbusError.invalid_transaction_id)
  tcp_resp_to_rtu-IsSized resp tid sized long =
      rw
        (
          tcp_resp_to_rtu_lem vec resp tid,
          le→ltb (length resp) 7 long,
          stated_pdu-IsSized resp sized,
          le→ltb (length resp) (6 + (length resp - 6)) (omega arith),
          take_all (length resp - 6) (drop 6 resp) (omega (arith, length-drop 6 resp)),
          le→leb (length (drop 6 resp ++ crc (drop 6 resp))) 512 (
              omega (
                arith,
                length-append (drop 6 resp) (crc (drop 6 resp)),
                length-crc (drop 6 resp),
                length-drop 6 resp,
                sized.1,
              )),
        )
        (if_not (request_tid resp == tid) (err ModbusError.invalid_transaction_id)
          (ok (drop 6 resp ++ crc (drop 6 resp))))

  module _ {SE TE : Type 0} (resp : List ℕ) (tid : ℕ) (sized : IsSized resp) where
    -- A response with a PDU goes on to the master whole, with a CRC and, if it is for another
    -- transaction, a warning with both ids; one without a PDU is refused.
    pub relay_response_lem : relay_response {SE = SE} {TE = TE} h resp tid ≡ (
        if ltb (length resp) 7
        then err buffer_overflow
        else ok (drop 6 resp ++ crc (drop 6 resp), tid_warning tid resp))
    unfolding relay_response
    relay_response_lem = elim (Bool-cases (ltb (length resp) 7)) [
      | inl short ↦ rw (tcp_resp_to_rtu_lem vec resp tid, short)
      | inr long ↦ elim (Bool-cases (request_tid resp == tid)) [
        | inl same ↦ rw (tcp_resp_to_rtu-IsSized resp tid sized (ltb→le _ _ long), same, long)
        | inr other ↦
            rw (tcp_resp_to_rtu-IsSized resp tid sized (ltb→le _ _ long), other, long)
              (rw (le→ltb (length resp) 2 (omega (arith, ltb→le _ _ long))) (
                rw (
                  tcp_resp_to_rtu-IsSized resp (request_tid resp) sized (ltb→le _ _ long),
                  ==_refl (request_tid resp),
                )))
      ]
    ]
