-- ===== src/Io.antt =====
-- The traits of `embedded_io`, `embedded_io_async` and `embedded_hal` that the repository calls,
-- as records of functions on the state of a device, and what their documentation promises.
-- `write_all` is the loop that src/rtu.rs and src/tcp.rs both write over such a device.
pub mod WriteAll
pub mod Responsive
pub mod Tracking
pub mod Order
use modbus_bridge_rs.Base.{
  ℕ, zero, suc, ◌+◌, ◌≤◌, ◌<◌, ◌≡◌, ◌≢◌, Bool, List, [], ◌∷◌, ◌++◌, All, IsByte, length, take, drop,
}
use modbus_bridge_rs.Base.Outcome.{Outcome, done, fail, stalled, Exec, ◌>>=◌}

-- `Read + Write` for a device with state `S` and errors `E`. `read n` fills a prefix of a buffer
-- of `n` bytes and answers what it read; `write` answers how many bytes it took.
pub record Io (S E : Type 0) : Type 0 where
  pub read : ℕ → Exec S E (List ℕ)
  pub write : List ℕ → Exec S E ℕ
  pub flush : Exec S E (Unit {0})

-- `ReadReady`
pub record ReadReady (S E : Type 0) : Type 0 where
  pub read_ready : Exec S E Bool

-- `OutputPin`; the answer says whether the call succeeded, and the repository drops it.
pub record OutputPin (TX : Type 0) : Type 0 where
  pub set_high : TX → Bool × TX
  pub set_low : TX → Bool × TX

-- `embedded_hal::delay::DelayNs`, which blocks.
pub record DelayNs (D : Type 0) : Type 0 where
  pub delay_ms : ℕ → D → D

-- The bytes that have gone out of a device's port, and those that have come in from it.
pub record Traffic (S : Type 0) : Type 0 where
  pub sent : S → List ℕ
  pub received : S → List ℕ

-- The traffic of a device up to now.
abbrev pub At : {S : Type 0} → Traffic S → List ℕ → List ℕ → S → Type 0
At t out inn s = (t.sent s ≡ out) × (t.received s ≡ inn)

module _ {E : Type 0} where
  abbrev pub bytes_of : Outcome E (List ℕ) → List ℕ
  bytes_of (done bytes) = bytes
  bytes_of (fail e) = []
  bytes_of stalled = []

  abbrev pub count_of : Outcome E ℕ → ℕ
  count_of (done n) = n
  count_of (fail e) = 0
  count_of stalled = 0

-- What the traits document: a read gives at most as many bytes as the buffer holds, a write takes
-- a prefix of the data and makes progress, and an error moves no byte.
pub record IsIo {S E : Type 0} (io : Io S E) (t : Traffic S) : Type 0 where
  pub read_length : (n : ℕ) (s : S) → length (bytes_of (io.read n s).0) ≤ n
  pub read_IsByte : (n : ℕ) (s : S) → All IsByte (bytes_of (io.read n s).0)
  pub read_received :
      (n : ℕ) (s : S) → t.received (io.read n s).1 ≡ t.received s ++ bytes_of (io.read n s).0
  pub read_sent : (n : ℕ) (s : S) → t.sent (io.read n s).1 ≡ t.sent s
  pub write_count : (bytes : List ℕ) (s : S) → count_of (io.write bytes s).0 ≤ length bytes
  pub write_progress : (b : ℕ) (bytes : List ℕ) (s : S) → (io.write (b ∷ bytes) s).0 ≢ done 0
  pub write_sent :
      (bytes : List ℕ) (s : S)
      → t.sent (io.write bytes s).1 ≡ t.sent s ++ take (count_of (io.write bytes s).0) bytes
  pub write_received : (bytes : List ℕ) (s : S) → t.received (io.write bytes s).1 ≡ t.received s
  pub flush_sent : (s : S) → t.sent (io.flush s).1 ≡ t.sent s
  pub flush_received : (s : S) → t.received (io.flush s).1 ≡ t.received s

-- A device whose calls all complete.
pub record IsPrompt {S E : Type 0} (io : Io S E) : Type 0 where
  pub read_completes : (n : ℕ) (s : S) → (io.read n s).0 ≢ stalled
  pub write_completes : (bytes : List ℕ) (s : S) → (io.write bytes s).0 ≢ stalled
  pub flush_completes : (s : S) → (io.flush s).0 ≢ stalled

module _ {S E : Type 0} (io : Io S E) where
  -- `while !remaining.is_empty()`. A write that makes progress takes a byte, so the length of the
  -- data is enough fuel; without it a device could keep the loop running.
  write_all_loop : ℕ → List ℕ → Exec S E (Unit {0})
  write_all_loop fuel [] s = (done tt, s)
  write_all_loop zero (b ∷ bytes) s = (stalled, s)
  write_all_loop (suc fuel) (b ∷ bytes) s =
      (io.write (b ∷ bytes) >>= λ n. write_all_loop fuel (drop n (b ∷ bytes))) s

  unfoldable pub write_all : List ℕ → Exec S E (Unit {0})
  unfolding write_all_loop
  write_all bytes = write_all_loop (length bytes) bytes
