-- ===== src/Rtu/Read.antt =====
-- The reading loops of src/rtu.rs: what they return and what they consume.
use modbus_bridge_rs.Base.{
  ℕ, zero, suc, ◌+◌, ◌-◌, ◌≤◌, ◌<◌, ◌≡◌, refl, sym, ap, ◌∙◌, inl, inr, Option, some, List, [], ◌∷◌,
  ◌++◌, arith, length, All, IsByte, All-append, length-append, ltb, ltb→lt, ltb→le, Bool-cases,
  get_or,
}
use mathlib.Core.List.{append_assoc, append-nil}
use modbus_bridge_rs.Base.Outcome.{Outcome, done, fail, stalled, Exec, ◌>>=◌}
use modbus_bridge_rs.Base.Ensures.{Ensures, Ensures-continue, Ensures-weaken}
use modbus_bridge_rs.Error.{ModbusError}
use modbus_bridge_rs.Heapless.{Heapless, IsHeapless}
use modbus_bridge_rs.Io.{Io, IsIo, Traffic, At, bytes_of}
use modbus_bridge_rs.Rtu.{RtuError, after_read, read_exact_loop, read_exact, or_push, read_bytes}

module _ {S E : Type 0} {io : Io S E} {t : Traffic S} (lawful : IsIo io t) where
  -- The buffer `v` has been filled from the port, which had given `base` before.
  abbrev pub Filled : ℕ → List ℕ → List ℕ → List ℕ → S → Type 0
  Filled len out base v s = (length v ≡ len) × All IsByte v × At t out (base ++ v) s

  -- Nothing has gone out.
  abbrev pub Quiet : List ℕ → Option (RtuError E) → S → Type 0
  Quiet out e s = t.sent s ≡ out

  module _ (len : ℕ) (out base : List ℕ) where
    abbrev Fills : (List ℕ → ℕ → Exec S (RtuError E) (List ℕ)) → Type 0
    Fills rest =
        (buf : List ℕ) (attempt : ℕ) (s : S)
        → length buf ≤ len
        → All IsByte buf
        → At t out (base ++ buf) s
        → Ensures (Filled len out base) (Quiet out) (rest buf attempt s).0 (rest buf attempt s).1

    after_read-Filled :
        (rest : List ℕ → ℕ → Exec S (RtuError E) (List ℕ))
        → Fills rest
        → (buf : List ℕ) (attempt : ℕ) (r : Outcome E (List ℕ)) (s : S) → length buf ≤ len
        → All IsByte buf
        → length (bytes_of r) ≤ len - length buf
        → All IsByte (bytes_of r)
        → At t out ((base ++ buf) ++ bytes_of r) s
        → Ensures
            (Filled len out base)
            (Quiet out)
            (after_read io rest buf attempt r s).0
            (after_read io rest buf attempt r s).1
    after_read-Filled rest fills buf attempt (done []) s hb ab hl al a = a.0
    after_read-Filled rest fills buf attempt (done (b ∷ bytes)) s hb ab hl al a =
        fills (buf ++ (b ∷ bytes)) attempt s (omega (arith, length-append buf (b ∷ bytes)))
          (All-append IsByte buf (b ∷ bytes) ab al) (a.0, a.1 ∙ append_assoc base buf (b ∷ bytes))
    after_read-Filled rest fills buf attempt (fail e) s hb ab hl al a =
        elim (Bool-cases (ltb 10 attempt)) [
          | inl over ↦ rw over a.0
          | inr again ↦
              rw again (fills buf (attempt + 1) s hb ab (a.0, a.1 ∙ append-nil (base ++ buf)))
        ]
    after_read-Filled rest fills buf attempt stalled s hb ab hl al a = a.0

    read_exact_loop-Filled : (fuel : ℕ) → Fills (read_exact_loop io fuel len)
    unfolding read_exact_loop
    read_exact_loop-Filled zero buf attempt s hb ab a = a.0
    read_exact_loop-Filled (suc fuel) buf attempt s hb ab a =
        elim (Bool-cases (ltb (length buf) len)) [
          | inl more ↦ rw more (
              after_read-Filled (read_exact_loop io fuel len) (read_exact_loop-Filled fuel) buf
                attempt (io.read (len - length buf) s).0 (io.read (len - length buf) s).1 hb ab
                (lawful.read_length (len - length buf) s) (lawful.read_IsByte (len - length buf) s)
                (
                  lawful.read_sent (len - length buf) s ∙ a.0,
                  lawful.read_received (len - length buf) s
                      ∙ ap (λ l. l ++ bytes_of (io.read (len - length buf) s).0) a.1,
                ))
          | inr full ↦ rw full ((omega (arith, ltb→le _ _ full)), ab, a)
        ]

  -- `read_exact` on a port that keeps the contract of `Read`: when it succeeds it has filled the
  -- buffer with bytes, which are exactly those that it took from the port; it sends nothing, on
  -- success or failure.
  pub read_exact-Filled :
      (len : ℕ) (out base : List ℕ) (s : S)
      → At t out base s
      → Ensures (Filled len out base) (Quiet out) (read_exact io len s).0 (read_exact io len s).1
  unfolding read_exact
  read_exact-Filled len out base s a =
      read_exact_loop-Filled len out base (len + 11) [] 1 s (omega arith) tt
        (a.0, a.1 ∙ sym (append-nil base))

  -- Bytes `k` have been added to the vector `v`.
  abbrev pub Extended : ℕ → List ℕ → List ℕ → List ℕ → List ℕ → S → Type 0
  Extended n out base v v' s =
      (k : List ℕ) × (v' ≡ v ++ k) × (length k ≡ n) × All IsByte k × At t out (base ++ v') s

  module _ {h : Heapless} (vec : IsHeapless h) where
    -- An extension that fits, or the error `Push`.
    pub extend-post :
        (D : List ℕ → S → Type 0) (B : Option (RtuError E) → S → Type 0) (cap : ℕ)
        (slice v : List ℕ) (s : S)
        → (length v + length slice ≤ cap → D (v ++ slice) s)
        → B (some ModbusError.push) s
        → Ensures D B
            (or_push h io (h.extend_from_slice cap slice v) s).0
            (or_push h io (h.extend_from_slice cap slice v) s).1
    extend-post D B cap slice v s d b = elim (Bool-cases (ltb cap (length v + length slice))) [
      | inl over ↦ rw (vec.extend_full cap slice v (ltb→lt _ _ over)) b
      | inr fits ↦ rw (vec.extend_fits cap slice v (ltb→le _ _ fits)) (d (ltb→le _ _ fits))
    ]

    pub push-post :
        (D : List ℕ → S → Type 0) (B : Option (RtuError E) → S → Type 0) (cap b : ℕ) (v : List ℕ)
        (s : S)
        → (length v < cap → D (v ++ (b ∷ [])) s)
        → B (some ModbusError.push) s
        → Ensures D B (or_push h io (h.push cap b v) s).0 (or_push h io (h.push cap b v) s).1
    push-post D B cap b v s d e = elim (Bool-cases (ltb (length v) cap)) [
      | inl fits ↦ rw (vec.push_fits cap b v (ltb→lt _ _ fits)) (d (ltb→lt _ _ fits))
      | inr over ↦ rw (vec.push_full cap b v (ltb→le _ _ over)) e
    ]

    one_byte : (bytes : List ℕ) → length bytes ≡ 1 → bytes ≡ get_or bytes 0 0 ∷ []
    one_byte [] e = absurd (omega arith)
    one_byte (b ∷ []) e = refl
    one_byte (b ∷ c ∷ bytes) e = absurd (omega arith)

    abbrev pub Pushed : ℕ → ℕ → List ℕ → List ℕ → List ℕ → List ℕ → S → Type 0
    Pushed cap n out base v v' s = Extended n out base v v' s × (length v' ≤ cap)

    -- One more byte in front of those that the rest of the loop adds.
    Pushed-suc :
        (cap n b : ℕ) (out base v v' : List ℕ) (s : S)
        → IsByte b
        → Pushed cap n out base (v ++ (b ∷ [])) v' s
        → Pushed cap (suc n) out base v v' s
    Pushed-suc cap n b out base v v' s hb ((k, e, len, bytes, a), room) =
        ((b ∷ k, e ∙ append_assoc v (b ∷ []) k, ap suc len, (hb, bytes), a), room)

    -- The loop `for _ in 0..n` adds exactly the `n` bytes that it takes from the port, within the
    -- capacity, and sends nothing.
    pub read_bytes-Pushed :
        (cap n : ℕ) (out base v : List ℕ) (s : S)
        → length v ≤ cap
        → At t out (base ++ v) s
        → Ensures
            (Pushed cap n out base v)
            (Quiet out)
            (read_bytes h io cap n v s).0
            (read_bytes h io cap n v s).1
    unfolding read_bytes
    read_bytes-Pushed cap zero out base v s room a = (([], sym (append-nil v), refl, tt, a), room)
    read_bytes-Pushed cap (suc n) out base v s room a =
        Ensures-continue (Filled 1 out (base ++ v)) (Pushed cap (suc n) out base v) (Quiet out)
          (read_exact io 1 s).0
          (λ byte. or_push h io (h.push cap (get_or byte 0 0) v) >>= λ v'. read_bytes h io cap n v')
          (read_exact io 1 s).1 (read_exact-Filled 1 out (base ++ v) s a)
          (λ byte s' (len, bytes, a').
            let b : ℕ = get_or byte 0 0 in
            let hb : IsByte b = (rw (one_byte byte len) at bytes).0 in
            Ensures-continue
              (λ v' s''. (v' ≡ v ++ (b ∷ [])) × (length v < cap) × At t out (base ++ v') s'')
              (Pushed cap (suc n) out base v) (Quiet out) (or_push h io (h.push cap b v) s').0
              (read_bytes h io cap n) (or_push h io (h.push cap b v) s').1
              (push-post
                (λ v' s''. (v' ≡ v ++ (b ∷ [])) × (length v < cap) × At t out (base ++ v') s'')
                (Quiet out) cap b v s'
                (λ fits. (
                  refl,
                  fits,
                  (
                    a'.0,
                    a'.1
                        ∙ ap (λ l. base ++ v ++ l) (one_byte byte len)
                        ∙ append_assoc base v (b ∷ []),
                  ),
                ))
                a'.0)
              (λ v' s'' (e, fits, a'').
                Ensures-weaken (Pushed cap n out base v') (Pushed cap (suc n) out base v)
                  (Quiet out) (Quiet out) (read_bytes h io cap n v' s'').0
                  (read_bytes h io cap n v' s'').1
                  (read_bytes-Pushed cap n out base v' s''
                    (rw e (omega (arith, length-append v (b ∷ [])))) a'')
                  (λ w u p. Pushed-suc cap n b out base v w u hb (rw e at p)) (λ _ u p. p)))
