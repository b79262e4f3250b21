-- ===== src/Tcp/Ids.antt =====
-- The transaction ids that src/tcp.rs gives out.
use modbus_bridge_rs.Base.{ℕ, zero, suc, ◌+◌, ◌%◌, ◌^◌, ◌<◌, ◌≡◌, ◌≢◌, ◌∙◌, arith}
use modbus_bridge_rs.Frame.{repeat}
use modbus_bridge_rs.Frame.Crc.{IsU16}
use modbus_bridge_rs.Tcp.{ModbusTcp, next_transaction_id}

-- The driver after one call, and after `n` calls.
abbrev pub advance : {TS : Type 0} → ModbusTcp TS → ModbusTcp TS
advance c = (next_transaction_id c).1

module _ {TS : Type 0} where
  advance-id :
      (n : ℕ) (c : ModbusTcp TS)
      → IsU16 c.transaction_id
      → (repeat n advance c).transaction_id ≡ (c.transaction_id + n) % 2 ^ 16
  unfolding next_transaction_id
  advance-id zero c h = omega arith
  advance-id (suc n) c h = advance-id n (advance c) (omega arith) ∙ omega arith

  -- Two calls of `next_transaction_id` that are at most 65535 calls apart give out different ids:
  -- ids are given out in order, wrap around after 65535, and each of the 65536 is used before any
  -- comes again.
  pub next_transaction_id-distinct :
      (n k : ℕ) (c : ModbusTcp TS)
      → IsU16 c.transaction_id
      → 0 < k
      → k < 2 ^ 16
      → ((next_transaction_id (repeat n advance c)).0 ≡ (c.transaction_id + n + 1) % 2 ^ 16)
        × ((next_transaction_id (repeat (n + k) advance c)).0
            ≢ (next_transaction_id (repeat n advance c)).0)
  unfolding next_transaction_id
  next_transaction_id-distinct n k c h lo hi = (
    omega (arith, advance-id n c h),
    λ e. omega (arith, e, advance-id n c h, advance-id (n + k) c h),
  )
