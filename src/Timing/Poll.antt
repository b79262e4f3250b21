-- ===== src/Timing/Poll.antt =====
-- The polling loop in front of a read, as src/connection.rs and src/client_session.rs write it.
use modbus_bridge_rs.Base.{
  ℕ, zero, suc, ◌+◌, ◌-◌, ◌^◌, ◌≤◌, ◌<◌, ◌≡◌, ◌≢◌, refl, ◌∙◌, inl, inr, Bool, true, false, Option,
  none, some, List, arith, leb, Bool-cases,
}
use modbus_bridge_rs.Base.Outcome.{Outcome, done, fail, stalled, Exec}
use modbus_bridge_rs.Event.{BridgeError, timeout}
use modbus_bridge_rs.Frame.{repeat}
use modbus_bridge_rs.Io.{ReadReady, DelayNs, Traffic, At}
use modbus_bridge_rs.Io.Order.{Move}
use modbus_bridge_rs.Timing.{saturating_add, after_poll, poll_loop, wait_ready}

-- What the trait `ReadReady` documents: asking moves no byte.
pub record IsReadReady {S E : Type 0} (ready : ReadReady S E) (t : Traffic S) : Type 0 where
  pub ready_sent : (s : S) → t.sent (ready.read_ready s).1 ≡ t.sent s
  pub ready_received : (s : S) → t.received (ready.read_ready s).1 ≡ t.received s

module _ {S E : Type 0} {ready : ReadReady S E} {t : Traffic S} (quiet : IsReadReady ready t) where
  -- Asking moves no byte.
  pub ready-At : (out inn : List ℕ) (s : S) → At t out inn s → At t out inn (ready.read_ready s).1
  ready-At out inn s a = (quiet.ready_sent s ∙ a.0, quiet.ready_received s ∙ a.1)

-- Asking leaves the log as it is.
pub record IsUnlogged {S E : Type 0} (ready : ReadReady S E) (log : S → List Move) : Type 0 where
  pub ready_log : (s : S) → log (ready.read_ready s).1 ≡ log s

pub unlogged :
    {S E : Type 0} {ready : ReadReady S E} {log : S → List Move} (quiet : IsUnlogged ready log)
    (l : List Move) (s : S)
    → log s ≡ l
    → log (ready.read_ready s).1 ≡ l
unlogged quiet l s e = quiet.ready_log s ∙ e

leb→le : (a b : ℕ) → leb a b ≡ true → a ≤ b
leb→le a b h = ground arith

leb→gt : (a b : ℕ) → leb a b ≡ false → b < a
leb→gt a b h = ground arith

le→leb : (a b : ℕ) → a ≤ b → leb a b ≡ true
le→leb a b h = ground arith

pub gt→leb : (a b : ℕ) → b < a → leb a b ≡ false
gt→leb a b h = ground arith

minus_zero : (n : ℕ) → n - 0 ≡ n
minus_zero n = omega arith

pub saturating_add_one : (a b : ℕ) → a < b → b < 2 ^ 32 → saturating_add a 1 ≡ a + 1
saturating_add_one a b h k = omega arith

module _ {S D E SE TE : Type 0} (ready : ReadReady S E) (clock : DelayNs D)
    (io_error : E → BridgeError SE TE) where
  -- A property of the port that asking keeps is kept by the wait.
  module _ (P : S → Type 0) (kept : (s : S) → P s → P (ready.read_ready s).1) where
    abbrev Keeps : Exec (S × D) (BridgeError SE TE) (Unit {0}) → Type 0
    Keeps m = (s : S) (d : D) → P s → P (m (s, d)).1.0

    after_poll-Keeps :
        (rest : ℕ → Exec (S × D) (BridgeError SE TE) (Unit {0}))
        → ((elapsed : ℕ) → Keeps (rest elapsed))
        → (timeout_ms elapsed : ℕ) (r : Outcome E Bool)
        → Keeps (after_poll ready clock io_error rest timeout_ms elapsed r)
    after_poll-Keeps rest k timeout_ms elapsed (done true) s d p = p
    after_poll-Keeps rest k timeout_ms elapsed (done false) s d p =
        elim (Bool-cases (leb timeout_ms elapsed)) [
          | inl over ↦ rw over p
          | inr more ↦ rw more (k (saturating_add elapsed 1) s (clock.delay_ms 1 d) p)
        ]
    after_poll-Keeps rest k timeout_ms elapsed (fail e) s d p = p
    after_poll-Keeps rest k timeout_ms elapsed stalled s d p = p

    poll_loop-Keeps :
        (fuel timeout_ms elapsed : ℕ)
        → Keeps (poll_loop ready clock io_error fuel timeout_ms elapsed)
    unfolding poll_loop
    poll_loop-Keeps zero timeout_ms elapsed s d p = p
    poll_loop-Keeps (suc fuel) timeout_ms elapsed s d p =
        after_poll-Keeps (poll_loop ready clock io_error fuel timeout_ms)
          (poll_loop-Keeps fuel timeout_ms) timeout_ms elapsed (ready.read_ready s).0
          (ready.read_ready s).1 d (kept s p)

    pub wait_ready-keeps :
        (timeout_ms : Option ℕ) (s : S) (d : D)
        → P s
        → P (wait_ready ready clock io_error timeout_ms (s, d)).1.0
    unfolding wait_ready
    wait_ready-keeps none s d p = p
    wait_ready-keeps (some timeout_ms) s d p = poll_loop-Keeps (timeout_ms + 1) timeout_ms 0 s d p

  after_poll-completes :
      (rest : ℕ → Exec (S × D) (BridgeError SE TE) (Unit {0})) (timeout_ms elapsed : ℕ)
      → (elapsed < timeout_ms → (sd : S × D) → (rest (saturating_add elapsed 1) sd).0 ≢ stalled)
      → (r : Outcome E Bool) → r ≢ stalled
      → (sd : S × D) → (after_poll ready clock io_error rest timeout_ms elapsed r sd).0 ≢ stalled
  after_poll-completes rest timeout_ms elapsed q (done true) n (s, d) = λ x. cc
  after_poll-completes rest timeout_ms elapsed q (done false) n (s, d) =
      elim (Bool-cases (leb timeout_ms elapsed)) [
        | inl over ↦ rw over (λ x. cc)
        | inr more ↦ rw more (q (leb→gt _ _ more) (s, clock.delay_ms 1 d))
      ]
  after_poll-completes rest timeout_ms elapsed q (fail e) n (s, d) = λ x. cc
  after_poll-completes rest timeout_ms elapsed q stalled n (s, d) = absurd (n refl)

  poll_loop-completes :
      ((s : S) → (ready.read_ready s).0 ≢ stalled)
      → (fuel timeout_ms elapsed : ℕ) → timeout_ms < 2 ^ 32
      → timeout_ms < elapsed + fuel
      → elapsed ≤ timeout_ms
      → (sd : S × D) → (poll_loop ready clock io_error fuel timeout_ms elapsed sd).0 ≢ stalled
  unfolding poll_loop
  poll_loop-completes prompt zero timeout_ms elapsed small fuelled within sd = absurd (omega arith)
  poll_loop-completes prompt (suc fuel) timeout_ms elapsed small fuelled within (s, d) =
      after_poll-completes (poll_loop ready clock io_error fuel timeout_ms) timeout_ms elapsed
        (λ less sd.
          poll_loop-completes prompt fuel timeout_ms (saturating_add elapsed 1) small
            (omega (arith, saturating_add_one elapsed timeout_ms less small))
            (omega (arith, saturating_add_one elapsed timeout_ms less small)) sd)
        (ready.read_ready s).0 (prompt s) ((ready.read_ready s).1, d)

  -- If the port always answers whether it is ready, the wait ends, whatever the answers and for
  -- any timeout that a `u32` holds, with the fuel of the model.
  pub wait_ready-completes :
      ((s : S) → (ready.read_ready s).0 ≢ stalled)
      → (timeout_ms : Option ℕ) → ((n : ℕ) → timeout_ms ≡ some n → n < 2 ^ 32)
      → (sd : S × D) → (wait_ready ready clock io_error timeout_ms sd).0 ≢ stalled
  unfolding wait_ready
  wait_ready-completes prompt none small sd = λ x. cc
  wait_ready-completes prompt (some timeout_ms) small sd =
      poll_loop-completes prompt (timeout_ms + 1) timeout_ms 0 (small timeout_ms refl) (omega arith)
        (omega arith) sd

  poll_loop-silent :
      (s : S)
      → ready.read_ready s ≡ (done false, s)
      → (fuel timeout_ms elapsed : ℕ) → timeout_ms < 2 ^ 32
      → (fuel ≡ suc (timeout_ms - elapsed))
      → elapsed ≤ timeout_ms
      → (d : D)
      → poll_loop ready clock io_error fuel timeout_ms elapsed (s, d)
        ≡ (fail timeout, (s, repeat (timeout_ms - elapsed) (clock.delay_ms 1) d))
  unfolding poll_loop
  poll_loop-silent s silent zero timeout_ms elapsed small fuelled within d = absurd (omega arith)
  poll_loop-silent s silent (suc fuel) timeout_ms elapsed small fuelled within d =
      elim (Bool-cases (leb timeout_ms elapsed)) [
        | inl over ↦ rw (silent, over, left over)
        | inr more ↦
            rw (silent, more, saturating_add_one elapsed timeout_ms (leb→gt _ _ more) small)
              (rw (one_less (leb→gt _ _ more)) (
                poll_loop-silent s silent fuel timeout_ms (elapsed + 1) small
                  (omega (arith, leb→gt _ _ more)) (omega (arith, leb→gt _ _ more))
                  (clock.delay_ms 1 d)))
      ]
    where
      left : leb timeout_ms elapsed ≡ true → timeout_ms - elapsed ≡ 0
      left over = omega (arith, leb→le _ _ over)

      one_less : elapsed < timeout_ms → timeout_ms - elapsed ≡ suc (timeout_ms - (elapsed + 1))
      one_less less = omega arith

  -- On a port that stays silent the wait ends with `Timeout` after exactly as many delays of one
  -- millisecond as the timeout says, for any timeout that a `u32` holds.
  pub wait_ready-silent :
      (s : S)
      → ready.read_ready s ≡ (done false, s)
      → (timeout_ms : ℕ) → timeout_ms < 2 ^ 32
      → (d : D)
      → wait_ready ready clock io_error (some timeout_ms) (s, d)
        ≡ (fail timeout, (s, repeat timeout_ms (clock.delay_ms 1) d))
  unfolding wait_ready
  wait_ready-silent s silent timeout_ms small d =
      rw (minus_zero timeout_ms) at (
        poll_loop-silent s silent (timeout_ms + 1) timeout_ms 0 small (omega arith) (omega arith) d)
