-- ===== src/Capacity.antt =====
-- src/capacity.rs: the sizes of frame buffers.
pub mod Frames
use modbus_bridge_rs.Base.{ℕ, ◌+◌, ◌*◌, List, [], ◌∷◌}

abbrev pub reg_bytes_16 : ℕ
reg_bytes_16 = 2

abbrev pub reg_bytes_32 : ℕ
reg_bytes_32 = 4

unfoldable pub rtu_capacity : ℕ → ℕ → ℕ
rtu_capacity n reg_bytes = n * reg_bytes + 9

unfoldable pub tcp_capacity : ℕ → ℕ → ℕ
tcp_capacity n reg_bytes = n * reg_bytes + 15

-- `RTU_1R16` to `RTU_MAX`, and `RTU_1R32` to `RTU_MAX32`.
unfoldable pub rtu_constants : List ℕ
unfolding rtu_capacity
rtu_constants =
    rtu_capacity 1 reg_bytes_16
    ∷ rtu_capacity 4 reg_bytes_16
    ∷ rtu_capacity 8 reg_bytes_16
    ∷ rtu_capacity 10 reg_bytes_16
    ∷ rtu_capacity 16 reg_bytes_16
    ∷ rtu_capacity 32 reg_bytes_16
    ∷ rtu_capacity 64 reg_bytes_16
    ∷ rtu_capacity 123 reg_bytes_16
    ∷ rtu_capacity 1 reg_bytes_32
    ∷ rtu_capacity 4 reg_bytes_32
    ∷ rtu_capacity 8 reg_bytes_32
    ∷ rtu_capacity 10 reg_bytes_32
    ∷ rtu_capacity 32 reg_bytes_32
    ∷ rtu_capacity 61 reg_bytes_32
    ∷ []

-- `TCP_1R16` to `TCP_MAX`, then `TCP_10R32` and `TCP_MAX32`.
unfoldable pub tcp_constants : List ℕ
unfolding tcp_capacity
tcp_constants =
    tcp_capacity 1 reg_bytes_16
    ∷ tcp_capacity 4 reg_bytes_16
    ∷ tcp_capacity 8 reg_bytes_16
    ∷ tcp_capacity 10 reg_bytes_16
    ∷ tcp_capacity 16 reg_bytes_16
    ∷ tcp_capacity 32 reg_bytes_16
    ∷ tcp_capacity 64 reg_bytes_16
    ∷ tcp_capacity 123 reg_bytes_16
    ∷ tcp_capacity 10 reg_bytes_32
    ∷ tcp_capacity 61 reg_bytes_32
    ∷ []
