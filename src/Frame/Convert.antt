-- ===== src/Frame/Convert.antt =====
-- What the four conversions of src/frame.rs return on every input, over any vector with the
-- documented behaviour of `heapless`.
use modbus_bridge_rs.Base.{
  ℕ, ◌+◌, ◌%◌, ◌^◌, ◌≤◌, ◌<◌, ◌≡◌, sym, ◌∙◌, inl, inr, List, [], ◌∷◌, ◌++◌, arith, length, take,
  drop, length-append, ltb, leb, Bool-cases, if◌then◌else◌, get_or, not, ◌==◌, true, false, ltb→le,
  ltb→lt,
}
use mathlib.Core.List.{append_assoc, append-nil}
use modbus_bridge_rs.Base.Outcome.{Result, ok, err}
use modbus_bridge_rs.Frame.{
  FrameError, with_tid, response_cap, modbus_proto, to_be_bytes, from_be_bytes, crc, extend_all,
  or_conversion_slice, rtu_to_tcp, tcp_to_rtu, tcp_resp_to_rtu, rtu_resp_to_tcp,
}
use modbus_bridge_rs.Error.{ModbusError}
use modbus_bridge_rs.Heapless.{Heapless, IsHeapless}
use modbus_bridge_rs.Frame.Check.{body}

-- An MBAP header and a PDU.
abbrev pub mbap_frame : ℕ → List ℕ → List ℕ
mbap_frame tid pdu = to_be_bytes tid ++ modbus_proto ++ to_be_bytes (length pdu % 2 ^ 16) ++ pdu

-- The frame if it fits the response vector.
abbrev pub fitted : List ℕ → Result FrameError (List ℕ)
fitted frame =
    if leb (length frame) response_cap then ok frame else err ModbusError.conversion_slice

abbrev concat : List (List ℕ) → List ℕ
concat [] = []
concat (slice ∷ slices) = slice ++ concat slices

-- The transaction id that a TCP frame carries.
abbrev pub request_tid : List ℕ → ℕ
request_tid tcp = from_be_bytes (get_or tcp 0 0) (get_or tcp 1 0)

-- The PDU by the low byte of the length field.
abbrev pub stated_pdu : List ℕ → List ℕ
stated_pdu tcp = take (get_or tcp 5 0) (drop 6 tcp)

-- The shape of a conversion that succeeded.
guarded_fitted-ok :
    (n k : ℕ) (frame out : List ℕ)
    → (if ltb n k then err ModbusError.payload_too_short else fitted frame) ≡ ok out
    → (k ≤ n) × (out ≡ frame)
guarded_fitted-ok n k frame out e = elim (Bool-cases (ltb n k)) [
  | inl short ↦ absurd (cc (rw short at e))
  | inr long ↦ elim (Bool-cases (leb (length frame) response_cap)) [
    | inl fits ↦ (ltb→le n k long, cc (rw (long, fits) at e))
    | inr over ↦ absurd (cc (rw (long, over) at e))
  ]
]

module _ {h : Heapless} (lawful : IsHeapless h) where
  extend_all_fits :
      (slices : List (List ℕ)) (out : List ℕ)
      → length out + length (concat slices) ≤ response_cap
      → extend_all h slices out ≡ (true, out ++ concat slices)
  extend_all_fits [] out fits = rw append-nil
  extend_all_fits (slice ∷ slices) out fits =
      rw (lawful.extend_fits response_cap slice out (omega (arith, size))) (
        rw (
          extend_all_fits slices (out ++ slice) (omega (arith, size, length-append out slice)),
          append_assoc out slice (concat slices),
        ))
    where
      size : length (concat (slice ∷ slices)) ≡ length slice + length (concat slices)
      size = length-append slice (concat slices)

  extend_all_full :
      (slices : List (List ℕ)) (out : List ℕ)
      → length out ≤ response_cap
      → response_cap < length out + length (concat slices)
      → (extend_all h slices out).0 ≡ false
  extend_all_full [] out small full = absurd (omega arith)
  extend_all_full (slice ∷ slices) out small full =
      elim (Bool-cases (ltb response_cap (length out + length slice))) [
        | inl over ↦ rw (lawful.extend_full response_cap slice out (ltb→lt _ _ over))
        | inr fits ↦ rw (lawful.extend_fits response_cap slice out (ltb→le _ _ fits)) (
            extend_all_full slices (out ++ slice)
              (omega (arith, length-append out slice, ltb→le _ _ fits))
              (omega (arith, length-append out slice, length-append slice (concat slices))))
      ]

  -- Extending an empty response yields the whole frame, or the conversion error.
  pub extend_all-fitted :
      (slices : List (List ℕ))
      → or_conversion_slice (extend_all h slices []) ≡ fitted (concat slices)
  extend_all-fitted slices = elim (Bool-cases (leb (length (concat slices)) response_cap)) [
    | inl fits ↦ rw (fits, extend_all_fits slices [] (ground arith))
    | inr over ↦ rw (over, extend_all_full slices [] (omega arith) (ground arith))
  ]

  -- `rtu_to_tcp` and `rtu_resp_to_tcp` refuse a frame under four bytes; any other has its last two
  -- bytes cut off and an MBAP header put in front, if the result fits 512 bytes.
  pub rtu_to_tcp_lem :
      (rtu : List ℕ) (tid : ℕ)
      → rtu_to_tcp h rtu tid ≡ (
          if ltb (length rtu) 4
          then err ModbusError.payload_too_short
          else fitted (mbap_frame tid (body rtu)))
  unfolding rtu_to_tcp
  rtu_to_tcp_lem rtu tid = rw (extend_all-fitted, append-nil)

  pub rtu_resp_to_tcp_lem :
      (rtu : List ℕ) (tid : ℕ)
      → rtu_resp_to_tcp h rtu tid ≡ (
          if ltb (length rtu) 4
          then err ModbusError.payload_too_short
          else fitted (mbap_frame tid (body rtu)))
  unfolding rtu_resp_to_tcp
  rtu_resp_to_tcp_lem rtu tid = rw (extend_all-fitted, append-nil)

  pub tcp_to_rtu_lem :
      (tcp : List ℕ)
      → tcp_to_rtu h tcp ≡ (
          if ltb (length tcp) 7
          then err ModbusError.payload_too_short
          else with_tid (request_tid tcp) (fitted (drop 6 tcp ++ crc (drop 6 tcp))))
  unfolding tcp_to_rtu
  tcp_to_rtu_lem tcp = rw (extend_all-fitted, append-nil)

  pub tcp_resp_to_rtu_lem :
      (tcp : List ℕ) (tid : ℕ)
      → tcp_resp_to_rtu h tcp tid ≡ (
          if ltb (length tcp) 7
          then err ModbusError.payload_too_short
          else (if not (request_tid tcp == tid)
              then err ModbusError.invalid_transaction_id
              else (if ltb (length tcp) (6 + get_or tcp 5 0)
                  then err ModbusError.payload_too_short
                  else fitted (stated_pdu tcp ++ crc (stated_pdu tcp)))))
  unfolding tcp_resp_to_rtu
  tcp_resp_to_rtu_lem tcp tid = rw (extend_all-fitted, append-nil)

  pub rtu_to_tcp-ok :
      (rtu tcp : List ℕ) (tid : ℕ)
      → rtu_to_tcp h rtu tid ≡ ok tcp
      → (4 ≤ length rtu) × (tcp ≡ mbap_frame tid (body rtu))
  rtu_to_tcp-ok rtu tcp tid e =
      guarded_fitted-ok (length rtu) 4 (mbap_frame tid (body rtu)) tcp
        (sym (rtu_to_tcp_lem rtu tid) ∙ e)
