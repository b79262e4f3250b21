-- ===== src/Tests/Frames.antt =====
-- Runs of src/frame.rs and src/event.rs, some of them from the repository's unit tests.
use modbus_bridge_rs.Base.{ℕ, ◌≡◌, ◌≤◌, ◌↔◌, refl, List, [], ◌∷◌, arith, length, drop}
use modbus_bridge_rs.Base.Outcome.{ok, err}
use modbus_bridge_rs.Error.{ModbusError}
use modbus_bridge_rs.Frame.{
  crc, crc_bit, crc_byte, check_crc, rtu_to_tcp, tcp_to_rtu, tcp_resp_to_rtu, rtu_resp_to_tcp,
  parse_tcp_request, parse_rtu_request,
}
use modbus_bridge_rs.Frame.Crc.{register}
use modbus_bridge_rs.Frame.Check.{check_crc_iff, check_crc_single_byte}
use modbus_bridge_rs.Frame.Convert.{mbap_frame}
use modbus_bridge_rs.Frame.RoundTrip.{tcp_to_rtu-rtu_to_tcp, tcp_resp_to_rtu-rtu_resp_to_tcp}
use modbus_bridge_rs.Frame.Parse.{parse_tcp_request-rtu_to_tcp}
use modbus_bridge_rs.Frame.Response.{Response}
use modbus_bridge_rs.Event.{from_u8, read_holding_registers}
use modbus_bridge_rs.Event.Code.{code_byte, code_byte-from_u8}
use modbus_bridge_rs.Tests.Devices.{vector, vector-IsHeapless}

-- `crc(&[0x00])` and `crc(&[0xFF])`
crc-zero_byte : crc (0x00 ∷ []) ≡ 0xBF ∷ 0x40 ∷ []
unfolding crc crc_byte crc_bit
crc-zero_byte = refl

crc-ones_byte : crc (0xFF ∷ []) ≡ 0xFF ∷ 0x00 ∷ []
unfolding crc crc_byte crc_bit
crc-ones_byte = refl

-- Read ten holding registers of unit 1, from address 0.
abbrev pub read_pdu : List ℕ
read_pdu = 0x01 ∷ 0x03 ∷ 0x00 ∷ 0x00 ∷ 0x00 ∷ 0x0A ∷ []

abbrev pub read_frame : List ℕ
read_frame = 0x01 ∷ 0x03 ∷ 0x00 ∷ 0x00 ∷ 0x00 ∷ 0x0A ∷ 0xC5 ∷ 0xCD ∷ []

abbrev pub read_tcp : List ℕ
read_tcp = mbap_frame 0x0102 read_pdu

pub check_crc-read_frame : check_crc read_frame ≡ ok tt
unfolding check_crc crc crc_byte crc_bit
check_crc-read_frame = refl

-- The same frame with its unit corrupted.
check_crc-bad_frame : check_crc (0x02 ∷ drop 1 read_frame) ≡ err ModbusError.crc
unfolding check_crc crc crc_byte crc_bit
check_crc-bad_frame = refl

rtu_to_tcp-read_frame : rtu_to_tcp vector read_frame 0x0102 ≡ ok read_tcp
unfolding rtu_to_tcp
rtu_to_tcp-read_frame = refl

rtu_to_tcp_short : rtu_to_tcp vector (0x01 ∷ 0x03 ∷ 0xC5 ∷ []) 1 ≡ err ModbusError.payload_too_short
unfolding rtu_to_tcp
rtu_to_tcp_short = refl

tcp_to_rtu-read_tcp : tcp_to_rtu vector read_tcp ≡ ok (read_frame, 0x0102)
unfolding tcp_to_rtu crc crc_byte crc_bit
tcp_to_rtu-read_tcp = refl

from_u8-read : from_u8 0x03 ≡ read_holding_registers
unfolding from_u8
from_u8-read = refl

check_crc_iff_example :
    (check_crc read_frame ≡ ok tt) ↔ ((4 ≤ length read_frame) × (register read_frame ≡ 0))
check_crc_iff_example = check_crc_iff read_frame (omega arith)

check_crc_single_byte_example : ◌≡◌ {A = ℕ} 0x01 0x01
check_crc_single_byte_example =
    check_crc_single_byte [] (drop 1 read_frame) 0x01 0x01 (omega arith) (omega arith)
      check_crc-read_frame check_crc-read_frame

tcp_to_rtu-rtu_to_tcp_example :
    (tcp : List ℕ) × (rtu_to_tcp vector read_frame 0x0102 ≡ ok tcp)
    × (tcp_to_rtu vector tcp ≡ ok (read_frame, 0x0102))
tcp_to_rtu-rtu_to_tcp_example =
    tcp_to_rtu-rtu_to_tcp vector-IsHeapless read_frame 0x0102 check_crc-read_frame (omega arith)
      (omega arith)

tcp_resp_to_rtu-rtu_resp_to_tcp_example :
    (tcp : List ℕ) × (rtu_resp_to_tcp vector read_frame 7 ≡ ok tcp)
    × (tcp_resp_to_rtu vector tcp 7 ≡ ok read_frame)
    × (tcp_resp_to_rtu vector tcp 8 ≡ err ModbusError.invalid_transaction_id)
tcp_resp_to_rtu-rtu_resp_to_tcp_example =
    tcp_resp_to_rtu-rtu_resp_to_tcp vector-IsHeapless read_frame 7 8 check_crc-read_frame
      (omega arith) (omega arith) (omega arith)

parse_tcp_request-rtu_to_tcp_example : parse_tcp_request read_tcp ≡ parse_rtu_request read_frame
parse_tcp_request-rtu_to_tcp_example =
    parse_tcp_request-rtu_to_tcp vector-IsHeapless read_frame read_tcp 0x0102 rtu_to_tcp-read_frame

abbrev exception_response : Response
exception_response = Response.exception 0x03 0x02

code_byte-from_u8_example : code_byte (from_u8 0x2B) ≡ 0x2B
code_byte-from_u8_example = code_byte-from_u8 0x2B
