-- ===== src/Frame.antt =====
-- src/frame.rs: the CRC, and the conversions between RTU and TCP frames, on byte slices.
-- A slice is a list of bytes, a `u16` a number below 2 ^ 16, and `[u8; 2]` a list of two bytes.
pub mod Crc
pub mod Detect
pub mod Check
pub mod Convert
pub mod RoundTrip
pub mod Response
pub mod Parse
use modbus_bridge_rs.Base.{
  ℕ, zero, suc, ◌+◌, ◌-◌, ◌/◌, ◌%◌, ◌*◌, ◌^◌, ◌<◌, Bool, true, not, ◌&&◌, ◌||◌, Option, none, some,
  List, [], ◌∷◌, foldl, bit_and, bit_xor, ltb, leb, ◌==◌, if◌then◌else◌, bytes_eq, length, get_or,
  take, drop,
}
use modbus_bridge_rs.Base.Outcome.{Result, ok, err}
use modbus_bridge_rs.Error.{Infallible, ModbusError}
use modbus_bridge_rs.Heapless.{Heapless}

-- `ModbusError<Infallible, Infallible>`
abbrev pub FrameError : Type 0
FrameError = ModbusError Infallible Infallible

-- The capacity of `TcpResponse` and of `RtuResponse`.
abbrev pub response_cap : ℕ
response_cap = 512

abbrev pub modbus_proto : List ℕ
modbus_proto = 0 ∷ 0 ∷ []

-- `u16::to_be_bytes` and `u16::from_be_bytes`
abbrev pub to_be_bytes : ℕ → List ℕ
to_be_bytes x = (x / 256 % 256) ∷ (x % 256) ∷ []

abbrev pub from_be_bytes : ℕ → ℕ → ℕ
from_be_bytes hi lo = hi * 256 + lo

abbrev pub repeat {ℓ} : {A : Type ℓ} → ℕ → (A → A) → A → A
repeat zero f x = x
repeat (suc n) f x = repeat n f (f x)

-- The body of the loop over the eight bits, and of the loop over the bytes.
unfoldable pub crc_bit : ℕ → ℕ
crc_bit crc = if not (bit_and crc 1 == 0) then bit_xor (crc / 2) 0xA001 else crc / 2

unfoldable pub crc_byte : ℕ → ℕ → ℕ
unfolding crc_bit
crc_byte crc byte = repeat 8 crc_bit (bit_xor crc byte)

-- `to_le_bytes` of the register: the low byte first.
unfoldable pub crc : List ℕ → List ℕ
unfolding crc_byte
crc data' =
    let register = foldl crc_byte 0xFFFF data' in (register % 256) ∷ (register / 256 % 256) ∷ []

unfoldable pub check_crc : List ℕ → Result FrameError (Unit {0})
check_crc frame =
    if ltb (length frame) 4
    then err ModbusError.payload_too_short
    else (let body = take (length frame - 2) frame in
        let rx_crc = drop (length frame - 2) frame in
        if bytes_eq (crc body) rx_crc then ok tt else err ModbusError.crc)

-- The bytes that complete a response whose first three are `[addr, fc, byte3]`.
unfoldable pub rtu_response_remaining : ℕ → ℕ → ℕ → ℕ
rtu_response_remaining addr fc byte3 =
    if leb 0x80 fc && leb fc 0xFF
    then 2
    else (if fc == 0x05 || fc == 0x06 || fc == 0x0F || fc == 0x10 then 5 else byte3 + 2)

-- Unit, function code, start address and register count of a request.
abbrev pub Request : Type 0
Request = ℕ × ℕ × ℕ × ℕ

unfoldable pub parse_tcp_request : List ℕ → Option Request
parse_tcp_request tcp =
    if ltb (length tcp) 12
    then none
    else some (
      get_or tcp 6 0,
      get_or tcp 7 0,
      from_be_bytes (get_or tcp 8 0) (get_or tcp 9 0),
      from_be_bytes (get_or tcp 10 0) (get_or tcp 11 0),
    )

unfoldable pub parse_rtu_request : List ℕ → Option Request
parse_rtu_request rtu =
    if ltb (length rtu) 8
    then none
    else some (
      get_or rtu 0 0,
      get_or rtu 1 0,
      from_be_bytes (get_or rtu 2 0) (get_or rtu 3 0),
      from_be_bytes (get_or rtu 4 0) (get_or rtu 5 0),
    )

-- The vector behind `.map_err(|_| ModbusError::ConversionSlice)?`.
abbrev pub or_conversion_slice : Bool × List ℕ → Result FrameError (List ℕ)
or_conversion_slice (done, out) = if done then ok out else err ModbusError.conversion_slice

-- `Ok((out, transaction_id))` after `?`.
abbrev pub with_tid : ℕ → Result FrameError (List ℕ) → Result FrameError (List ℕ × ℕ)
with_tid tid (ok out) = ok (out, tid)
with_tid tid (err e) = err e

module _ (h : Heapless) where
  -- `a.and(b)` on the results of two calls: both are made, from left to right.
  abbrev pub extend_all : List (List ℕ) → List ℕ → Bool × List ℕ
  extend_all [] out = (true, out)
  extend_all (slice ∷ slices) out =
      let (done, out') = h.extend_from_slice response_cap slice out in
      let (rest, out'') = extend_all slices out' in (done && rest, out'')

  unfoldable pub rtu_to_tcp : List ℕ → ℕ → Result FrameError (List ℕ)
  rtu_to_tcp rtu transaction_id =
      if ltb (length rtu) 4
      then err ModbusError.payload_too_short
      else (let pdu = take (length rtu - 2) rtu in
          let len_bytes = to_be_bytes (length pdu % 2 ^ 16) in
          or_conversion_slice
            (extend_all (to_be_bytes transaction_id ∷ modbus_proto ∷ len_bytes ∷ pdu ∷ []) []))

  -- The frame and the transaction id.
  unfoldable pub tcp_to_rtu : List ℕ → Result FrameError (List ℕ × ℕ)
  tcp_to_rtu tcp =
      if ltb (length tcp) 7
      then err ModbusError.payload_too_short
      else (let transaction_id = from_be_bytes (get_or tcp 0 0) (get_or tcp 1 0) in
          let pdu = drop 6 tcp in
          with_tid transaction_id (or_conversion_slice (extend_all (pdu ∷ crc pdu ∷ []) [])))

  unfoldable pub tcp_resp_to_rtu : List ℕ → ℕ → Result FrameError (List ℕ)
  tcp_resp_to_rtu tcp expected_tid =
      if ltb (length tcp) 7
      then err ModbusError.payload_too_short
      else (let rx_tid = from_be_bytes (get_or tcp 0 0) (get_or tcp 1 0) in
          if not (rx_tid == expected_tid)
          then err ModbusError.invalid_transaction_id
          else (let pdu_len = get_or tcp 5 0 in
              if ltb (length tcp) (6 + pdu_len)
              then err ModbusError.payload_too_short
              else (let pdu = take pdu_len (drop 6 tcp) in
                  or_conversion_slice (extend_all (pdu ∷ crc pdu ∷ []) []))))

  unfoldable pub rtu_resp_to_tcp : List ℕ → ℕ → Result FrameError (List ℕ)
  rtu_resp_to_tcp rtu transaction_id =
      if ltb (length rtu) 4
      then err ModbusError.payload_too_short
      else (let pdu = take (length rtu - 2) rtu in
          let len_bytes = to_be_bytes (length pdu % 2 ^ 16) in
          or_conversion_slice
            (extend_all (to_be_bytes transaction_id ∷ modbus_proto ∷ len_bytes ∷ pdu ∷ []) []))
