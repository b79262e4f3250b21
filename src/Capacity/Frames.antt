-- ===== src/Capacity/Frames.antt =====
-- The sizes of src/capacity.rs against the frames that src/rtu.rs accepts.
use modbus_bridge_rs.Base.{ℕ, ◌+◌, ◌*◌, ◌≤◌, ◌≡◌, List, arith, length, get_or}
use modbus_bridge_rs.Frame.Check.{body}
use modbus_bridge_rs.Frame.Convert.{mbap_frame}
use modbus_bridge_rs.Frame.RoundTrip.{length-body}
use modbus_bridge_rs.Rtu.{rtu_buf}
use modbus_bridge_rs.Tcp.{tcp_buf}
use modbus_bridge_rs.Rtu.Frames.{request_length}
use modbus_bridge_rs.Capacity.{rtu_capacity, tcp_capacity, reg_bytes_16}

-- A Write Multiple Registers request for `n` registers, with the length that `listen` of src/rtu.rs
-- demands, fills a buffer of `rtu_capacity n` exactly, which for up to 123 registers fits the
-- driver's buffer; its TCP form is two bytes shorter than `tcp_capacity n`, not equal to it, and
-- fits the buffer of src/tcp.rs.
pub write_multiple-capacity :
    (req : List ℕ) (n tid : ℕ)
    → get_or req 1 0 ≡ 0x10
    → get_or req 6 0 ≡ n * 2
    → length req ≡ request_length req
    → n ≤ 123
    → (length req ≡ rtu_capacity n reg_bytes_16)
      × (length req ≤ rtu_buf)
      × (length (mbap_frame tid (body req)) + 2 ≡ tcp_capacity n reg_bytes_16)
      × (length (mbap_frame tid (body req)) ≤ tcp_buf)
unfolding rtu_capacity tcp_capacity
write_multiple-capacity req n tid code count size most =
    let filled : length req ≡ 9 + n * 2 = rw (code, count) at size in
    (
      omega (arith, filled),
      omega (arith, filled),
      omega (arith, filled, length-body req),
      omega (arith, filled, length-body req),
    )
