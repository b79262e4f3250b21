-- ===== src/Rtu/Retry.antt =====
-- The retries of `read_exact` of src/rtu.rs, and that its loop ends.
use modbus_bridge_rs.Base.{
  ℕ, zero, suc, ◌+◌, ◌-◌, ◌≤◌, ◌<◌, ◌≡◌, ◌≢◌, refl, inl, inr, List, [], ◌∷◌, ◌++◌, arith, length,
  length-append, ltb, ltb→lt, ltb→le, lt→ltb, Bool-cases,
}
use modbus_bridge_rs.Base.Outcome.{Outcome, done, fail, stalled, Exec}
use modbus_bridge_rs.Error.{ModbusError}
use modbus_bridge_rs.Frame.{repeat}
use modbus_bridge_rs.Io.{Io, IsIo, IsPrompt, Traffic, bytes_of}
use modbus_bridge_rs.Rtu.{RtuError, after_read, read_exact_loop, read_exact}

module _ {S E : Type 0} {io : Io S E} {t : Traffic S} (lawful : IsIo io t)
    (prompt : IsPrompt io) where
  -- The fuel that the rest of the loop needs.
  abbrev Fuelled : ℕ → ℕ → List ℕ → ℕ → Type 0
  Fuelled fuel len buf attempt =
      (len + 12 ≤ fuel + length buf + attempt) × (length buf ≤ len) × (attempt ≤ 11)

  after_read-completes :
      (fuel len : ℕ) (rest : List ℕ → ℕ → Exec S (RtuError E) (List ℕ))
      → ((buf : List ℕ) (attempt : ℕ) (s : S)
          → Fuelled fuel len buf attempt
          → (rest buf attempt s).0 ≢ stalled)
      → (buf : List ℕ) (attempt : ℕ) (r : Outcome E (List ℕ)) (s : S)
      → Fuelled (suc fuel) len buf attempt
      → length (bytes_of r) ≤ len - length buf
      → r ≢ stalled
      → (after_read io rest buf attempt r s).0 ≢ stalled
  after_read-completes fuel len rest q buf attempt (done []) s f room n = λ x. cc
  after_read-completes fuel len rest q buf attempt (done (b ∷ bytes)) s f room n =
      q (buf ++ (b ∷ bytes)) attempt s (
        omega (arith, f, length-append buf (b ∷ bytes)),
        omega (arith, f, length-append buf (b ∷ bytes)),
        f.2,
      )
  after_read-completes fuel len rest q buf attempt (fail e) s f room n =
      elim (Bool-cases (ltb 10 attempt)) [
        | inl over ↦ rw over (λ x. cc)
        | inr again ↦
            rw again
              (q buf (attempt + 1) s (omega (arith, f), f.1, omega (arith, ltb→le _ _ again)))
      ]
  after_read-completes fuel len rest q buf attempt stalled s f room n = absurd (n refl)

  read_exact_loop-completes :
      (fuel len : ℕ) (buf : List ℕ) (attempt : ℕ) (s : S)
      → Fuelled fuel len buf attempt
      → (read_exact_loop io fuel len buf attempt s).0 ≢ stalled
  unfolding read_exact_loop
  read_exact_loop-completes zero len buf attempt s f = absurd (omega (arith, f))
  read_exact_loop-completes (suc fuel) len buf attempt s f =
      elim (Bool-cases (ltb (length buf) len)) [
        | inl more ↦ rw more (
            after_read-completes fuel len (read_exact_loop io fuel len)
              (read_exact_loop-completes fuel len) buf attempt (io.read (len - length buf) s).0
              (io.read (len - length buf) s).1 f (lawful.read_length (len - length buf) s)
              (prompt.read_completes (len - length buf) s))
        | inr full ↦ rw full (λ x. cc)
      ]

  -- On a port that keeps its contract and whose calls complete, `read_exact` of any length ends,
  -- with a full buffer or an error, whatever the port answers.
  pub read_exact-completes : (len : ℕ) (s : S) → (read_exact io len s).0 ≢ stalled
  unfolding read_exact
  read_exact-completes len s =
      read_exact_loop-completes (len + 11) len [] 1 s (omega arith, omega arith, omega arith)

module _ {S E : Type 0} (io : Io S E) (e : E) (step : S → S)
    (broken : (n : ℕ) (s : S) → io.read n s ≡ (fail e, step s)) where
  read_exact_loop-broken :
      (fuel len attempt : ℕ) (s : S)
      → 1 ≤ len
      → attempt ≤ 11
      → 12 ≤ fuel + attempt
      → read_exact_loop io fuel len [] attempt s
        ≡ (fail (ModbusError.serial e), repeat (12 - attempt) step s)
  unfolding read_exact_loop
  read_exact_loop-broken zero len attempt s size few fuelled = absurd (omega arith)
  read_exact_loop-broken (suc fuel) len attempt s size few fuelled =
      elim (Bool-cases (ltb 10 attempt)) [
        | inl over ↦ rw (lt→ltb 0 len size, broken (len - 0) s, over, last (ltb→lt _ _ over))
        | inr again ↦
            rw (lt→ltb 0 len size, broken (len - 0) s, again)
              (rw (one_less (ltb→le _ _ again)) (
                read_exact_loop-broken fuel len (attempt + 1) (step s) size
                  (omega (arith, ltb→le _ _ again)) (omega arith)))
      ]
    where
      last : 10 < attempt → 12 - attempt ≡ 1
      last h = omega arith

      one_less : attempt ≤ 10 → 12 - attempt ≡ suc (12 - (attempt + 1))
      one_less h = omega arith

  -- On a port where every read fails, `read_exact` of one byte or more reads eleven times, and then
  -- fails with the port's error: ten failures are passed over.
  pub read_exact-broken :
      (len : ℕ) (s : S)
      → 1 ≤ len
      → read_exact io len s ≡ (fail (ModbusError.serial e), repeat 11 step s)
  unfolding read_exact
  read_exact-broken len s size =
      read_exact_loop-broken (len + 11) len 1 s size (omega arith) (omega arith)
