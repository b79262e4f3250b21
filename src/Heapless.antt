-- ===== src/Heapless.antt =====
-- The fixed-capacity vector of the crate `heapless`, which the repository only calls.
-- A vector is its contents; the capacity is an argument of each call. A call answers whether it
-- succeeded (`Ok`) and gives the contents afterwards, which are left open after a failure.
use modbus_bridge_rs.Base.{ℕ, ◌+◌, ◌≤◌, ◌<◌, ◌≡◌, Bool, true, false, List, [], ◌∷◌, ◌++◌, length}

pub record Heapless : Type 0 where
  pub extend_from_slice : ℕ → List ℕ → List ℕ → Bool × List ℕ
  pub push : ℕ → ℕ → List ℕ → Bool × List ℕ

-- What the crate documents: a call appends, and fails exactly if the capacity would be exceeded.
pub record IsHeapless (h : Heapless) : Type 0 where
  pub extend_fits :
      (cap : ℕ) (slice v : List ℕ)
      → length v + length slice ≤ cap
      → h.extend_from_slice cap slice v ≡ (true, v ++ slice)
  pub extend_full :
      (cap : ℕ) (slice v : List ℕ)
      → cap < length v + length slice
      → (h.extend_from_slice cap slice v).0 ≡ false
  pub push_fits : (cap b : ℕ) (v : List ℕ) → length v < cap → h.push cap b v ≡ (true, v ++ (b ∷ []))
  pub push_full : (cap b : ℕ) (v : List ℕ) → cap ≤ length v → (h.push cap b v).0 ≡ false
