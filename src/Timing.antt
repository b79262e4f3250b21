-- ===== src/Timing.antt =====
-- How the blocking code of src/connection.rs and src/client_session.rs bounds a wait: it polls
-- `read_ready` once a millisecond.
pub mod Poll
pub mod Race
pub mod Cutoff
pub mod Punctual
use modbus_bridge_rs.Base.{
  ℕ, zero, suc, ◌+◌, ◌-◌, ◌^◌, min, Bool, true, false, List, Option, none, some, leb, if◌then◌else◌,
}
use modbus_bridge_rs.Base.Outcome.{Outcome, done, fail, stalled, Exec}
use modbus_bridge_rs.Event.{BridgeError, timeout}
use modbus_bridge_rs.Io.{Io, ReadReady, DelayNs}

-- `u32::saturating_add`
abbrev pub saturating_add : ℕ → ℕ → ℕ
saturating_add a b = min (a + b) (2 ^ 32 - 1)

module _ {S D E SE TE : Type 0} (ready : ReadReady S E) (clock : DelayNs D)
    (io_error : E → BridgeError SE TE) where
  -- One answer of `read_ready`, and the rest of the loop, which is given the elapsed time.
  abbrev pub after_poll :
      (ℕ → Exec (S × D) (BridgeError SE TE) (Unit {0}))
      → ℕ
      → ℕ
      → Outcome E Bool
      → Exec (S × D) (BridgeError SE TE) (Unit {0})
  after_poll rest timeout_ms elapsed (done true) (s, d) = (done tt, (s, d))
  after_poll rest timeout_ms elapsed (done false) (s, d) =
      if leb timeout_ms elapsed
      then (fail timeout, (s, d))
      else rest (saturating_add elapsed 1) (s, clock.delay_ms 1 d)
  after_poll rest timeout_ms elapsed (fail e) (s, d) = (fail (io_error e), (s, d))
  after_poll rest timeout_ms elapsed stalled (s, d) = (stalled, (s, d))

  unfoldable pub poll_loop : ℕ → ℕ → ℕ → Exec (S × D) (BridgeError SE TE) (Unit {0})
  poll_loop zero timeout_ms elapsed (s, d) = (stalled, (s, d))
  poll_loop (suc fuel) timeout_ms elapsed (s, d) =
      after_poll (poll_loop fuel timeout_ms) timeout_ms elapsed (ready.read_ready s).0
        ((ready.read_ready s).1, d)

  -- The wait in front of a read, if a timeout is configured.
  unfoldable pub wait_ready : Option ℕ → Exec (S × D) (BridgeError SE TE) (Unit {0})
  wait_ready none sd = (done tt, sd)
  wait_ready (some timeout_ms) sd = poll_loop (timeout_ms + 1) timeout_ms 0 sd
