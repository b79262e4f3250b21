-- ===== src/Tcp/Finish.antt =====
-- The loops of src/tcp.rs end.
use modbus_bridge_rs.Base.Completes.{continue-Completes}
use modbus_bridge_rs.Base.{
  ℕ, zero, suc, ◌+◌, ◌-◌, ◌≤◌, ◌<◌, ◌≢◌, refl, inl, inr, List, [], ◌∷◌, ◌++◌, Bool, true, false,
  arith, length, length-append, ltb, Bool-cases, get_or,
}
use modbus_bridge_rs.Base.Outcome.{Outcome, done, fail, stalled, Exec}
use modbus_bridge_rs.Heapless.{Heapless}
use modbus_bridge_rs.Frame.{from_be_bytes}
use modbus_bridge_rs.Io.{Io, IsIo, IsPrompt, Traffic, bytes_of}
use modbus_bridge_rs.Tcp.{
  TcpError, tcp_buf, after_read, read_exact_loop, read_exact, or_push, read_bytes, listen,
}

module _ {S E : Type 0} {io : Io S E} {t : Traffic S} (lawful : IsIo io t)
    (prompt : IsPrompt io) where
  -- The fuel that the rest of the loop needs.
  abbrev Fuelled : ℕ → ℕ → List ℕ → Type 0
  Fuelled fuel len buf = (len < fuel + length buf) × (length buf ≤ len)

  after_read-completes :
      (fuel len : ℕ) (rest : List ℕ → Exec S (TcpError E) (List ℕ))
      → ((buf : List ℕ) (s : S) → Fuelled fuel len buf → (rest buf s).0 ≢ stalled)
      → (buf : List ℕ) (r : Outcome E (List ℕ)) (s : S) → Fuelled (suc fuel) len buf
      → length (bytes_of r) ≤ len - length buf
      → r ≢ stalled
      → (after_read io rest buf r s).0 ≢ stalled
  after_read-completes fuel len rest q buf (done []) s f room n = λ x. cc
  after_read-completes fuel len rest q buf (done (b ∷ bytes)) s f room n =
      q (buf ++ (b ∷ bytes)) s (
        omega (arith, f, length-append buf (b ∷ bytes)),
        omega (arith, f, length-append buf (b ∷ bytes)),
      )
  after_read-completes fuel len rest q buf (fail e) s f room n = λ x. cc
  after_read-completes fuel len rest q buf stalled s f room n = absurd (n refl)

  read_exact_loop-completes :
      (fuel len : ℕ) (buf : List ℕ) (s : S)
      → Fuelled fuel len buf
      → (read_exact_loop io fuel len buf s).0 ≢ stalled
  unfolding read_exact_loop
  read_exact_loop-completes zero len buf s f = absurd (omega (arith, f))
  read_exact_loop-completes (suc fuel) len buf s f = elim (Bool-cases (ltb (length buf) len)) [
    | inl more ↦ rw more (
        after_read-completes fuel len (read_exact_loop io fuel len)
          (read_exact_loop-completes fuel len) buf (io.read (len - length buf) s).0
          (io.read (len - length buf) s).1 f (lawful.read_length (len - length buf) s)
          (prompt.read_completes (len - length buf) s))
    | inr full ↦ rw full (λ x. cc)
  ]

  read_exact-ends : (len : ℕ) (s : S) → (read_exact io len s).0 ≢ stalled
  unfolding read_exact
  read_exact-ends len s = read_exact_loop-completes (len + 1) len [] s (omega arith, omega arith)

  module _ (h : Heapless) where
    or_push-completes : (v : Bool × List ℕ) (s : S) → (or_push h io v s).0 ≢ stalled
    or_push-completes (true, v) s = λ x. cc
    or_push-completes (false, v) s = λ x. cc

    read_bytes-completes : (n : ℕ) (v : List ℕ) (s : S) → (read_bytes h io n v s).0 ≢ stalled
    unfolding read_bytes
    read_bytes-completes zero v s = λ x. cc
    read_bytes-completes (suc n) v s =
        continue-Completes (read_exact io 1 s).0 _ (read_exact io 1 s).1 (read_exact-ends 1 s)
          (λ byte s'.
            continue-Completes (or_push h io (h.push tcp_buf (get_or byte 0 0) v) s').0
              (read_bytes h io n) (or_push h io (h.push tcp_buf (get_or byte 0 0) v) s').1
              (or_push-completes (h.push tcp_buf (get_or byte 0 0) v) s')
              (λ v' s''. read_bytes-completes n v' s''))

    -- On a stream that keeps its contract and whose calls complete, `listen` ends, with a frame or
    -- an error, whatever bytes come in and whatever the vector answers.
    pub listen-completes : (s : S) → (listen h io s).0 ≢ stalled
    unfolding listen
    listen-completes s =
        continue-Completes (read_exact io 6 s).0 _ (read_exact io 6 s).1 (read_exact-ends 6 s)
          (λ mbap s'.
            continue-Completes (or_push h io (h.extend_from_slice tcp_buf mbap []) s').0
              (read_bytes h io (from_be_bytes (get_or mbap 4 0) (get_or mbap 5 0)))
              (or_push h io (h.extend_from_slice tcp_buf mbap []) s').1
              (or_push-completes (h.extend_from_slice tcp_buf mbap []) s')
              (λ v s''.
                read_bytes-completes (from_be_bytes (get_or mbap 4 0) (get_or mbap 5 0)) v s''))
