-- ===== src/Tcp/Listen.antt =====
-- `read_exact` and `listen` of src/tcp.rs: the frames that they accept.
use modbus_bridge_rs.Base.{
  ℕ, zero, suc, ◌+◌, ◌-◌, ◌≤◌, ◌<◌, ◌≡◌, refl, sym, ap, ◌∙◌, inl, inr, Option, some, List, [], ◌∷◌,
  ◌++◌, arith, length, All, IsByte, All-append, length-append, get_or-append_left, ltb, ltb→lt,
  ltb→le, Bool-cases, get_or,
}
use mathlib.Core.List.{append_assoc, append-nil}
use modbus_bridge_rs.Base.Outcome.{Outcome, done, fail, stalled, Exec, ◌>>=◌}
use modbus_bridge_rs.Base.Ensures.{Ensures, Ensures-bind, Ensures-weaken}
use modbus_bridge_rs.Error.{ModbusError}
use modbus_bridge_rs.Heapless.{Heapless, IsHeapless}
use modbus_bridge_rs.Frame.{from_be_bytes}
use modbus_bridge_rs.Io.{Io, IsIo, Traffic, At, bytes_of}
use modbus_bridge_rs.Tcp.{
  TcpError, tcp_buf, after_read, read_exact_loop, read_exact, or_push, read_bytes, listen,
}

module _ {S E : Type 0} {io : Io S E} {t : Traffic S} (lawful : IsIo io t) where
  abbrev Filled : ℕ → List ℕ → List ℕ → List ℕ → S → Type 0
  Filled len out base v s = (length v ≡ len) × All IsByte v × At t out (base ++ v) s

  -- Nothing has gone out.
  abbrev pub Quiet : List ℕ → Option (TcpError E) → S → Type 0
  Quiet out e s = t.sent s ≡ out

  module _ (len : ℕ) (out base : List ℕ) where
    abbrev Fills : (List ℕ → Exec S (TcpError E) (List ℕ)) → Type 0
    Fills rest =
        (buf : List ℕ) (s : S)
        → length buf ≤ len
        → All IsByte buf
        → At t out (base ++ buf) s
        → Ensures (Filled len out base) (Quiet out) (rest buf s).0 (rest buf s).1

    after_read-Filled :
        (rest : List ℕ → Exec S (TcpError E) (List ℕ))
        → Fills rest
        → (buf : List ℕ) (r : Outcome E (List ℕ)) (s : S) → length buf ≤ len
        → All IsByte buf
        → length (bytes_of r) ≤ len - length buf
        → All IsByte (bytes_of r)
        → At t out ((base ++ buf) ++ bytes_of r) s
        → Ensures
            (Filled len out base)
            (Quiet out)
            (after_read io rest buf r s).0
            (after_read io rest buf r s).1
    after_read-Filled rest fills buf (done []) s hb ab hl al a = a.0
    after_read-Filled rest fills buf (done (b ∷ bytes)) s hb ab hl al a =
        fills (buf ++ (b ∷ bytes)) s (omega (arith, length-append buf (b ∷ bytes)))
          (All-append IsByte buf (b ∷ bytes) ab al) (a.0, a.1 ∙ append_assoc base buf (b ∷ bytes))
    after_read-Filled rest fills buf (fail e) s hb ab hl al a = a.0
    after_read-Filled rest fills buf stalled s hb ab hl al a = a.0

    read_exact_loop-Filled : (fuel : ℕ) → Fills (read_exact_loop io fuel len)
    unfolding read_exact_loop
    read_exact_loop-Filled zero buf s hb ab a = a.0
    read_exact_loop-Filled (suc fuel) buf s hb ab a = elim (Bool-cases (ltb (length buf) len)) [
      | inl more ↦ rw more (
          after_read-Filled (read_exact_loop io fuel len) (read_exact_loop-Filled fuel) buf
            (io.read (len - length buf) s).0 (io.read (len - length buf) s).1 hb ab
            (lawful.read_length (len - length buf) s) (lawful.read_IsByte (len - length buf) s)
            (
              lawful.read_sent (len - length buf) s ∙ a.0,
              lawful.read_received (len - length buf) s
                  ∙ ap (λ l. l ++ bytes_of (io.read (len - length buf) s).0) a.1,
            ))
      | inr full ↦ rw full ((omega (arith, ltb→le _ _ full)), ab, a)
    ]

  read_exact-Filled :
      (len : ℕ) (out base : List ℕ) (s : S)
      → At t out base s
      → Ensures (Filled len out base) (Quiet out) (read_exact io len s).0 (read_exact io len s).1
  unfolding read_exact
  read_exact-Filled len out base s a =
      read_exact_loop-Filled len out base (len + 1) [] s (omega arith) tt
        (a.0, a.1 ∙ sym (append-nil base))

  module _ {h : Heapless} (vec : IsHeapless h) where
    -- Bytes `k` have been added to the vector `v`, within its capacity.
    abbrev Pushed : ℕ → List ℕ → List ℕ → List ℕ → List ℕ → S → Type 0
    Pushed n out base v v' s =
        ((k : List ℕ) × (v' ≡ v ++ k) × (length k ≡ n) × All IsByte k)
        × (length v' ≤ tcp_buf)
        × At t out (base ++ v') s

    Pushed-suc :
        (n b : ℕ) (out base v v' : List ℕ) (s : S)
        → IsByte b
        → Pushed n out base (v ++ (b ∷ [])) v' s
        → Pushed (suc n) out base v v' s
    Pushed-suc n b out base v v' s hb ((k, e, len, bytes), room, a) =
        ((b ∷ k, e ∙ append_assoc v (b ∷ []) k, ap suc len, (hb, bytes)), room, a)

    push-post :
        (D : List ℕ → S → Type 0) (B : Option (TcpError E) → S → Type 0) (b : ℕ) (v : List ℕ)
        (s : S)
        → (length v < tcp_buf → D (v ++ (b ∷ [])) s)
        → B (some ModbusError.push) s
        → Ensures D B
            (or_push h io (h.push tcp_buf b v) s).0
            (or_push h io (h.push tcp_buf b v) s).1
    push-post D B b v s d e = elim (Bool-cases (ltb (length v) tcp_buf)) [
      | inl fits ↦ rw (vec.push_fits tcp_buf b v (ltb→lt _ _ fits)) (d (ltb→lt _ _ fits))
      | inr over ↦ rw (vec.push_full tcp_buf b v (ltb→le _ _ over)) e
    ]

    one_byte : (bytes : List ℕ) → length bytes ≡ 1 → bytes ≡ get_or bytes 0 0 ∷ []
    one_byte [] e = absurd (omega arith)
    one_byte (b ∷ []) e = refl
    one_byte (b ∷ c ∷ bytes) e = absurd (omega arith)

    read_bytes-Pushed :
        (n : ℕ) (out base v : List ℕ) (s : S)
        → length v ≤ tcp_buf
        → At t out (base ++ v) s
        → Ensures
            (Pushed n out base v)
            (Quiet out)
            (read_bytes h io n v s).0
            (read_bytes h io n v s).1
    unfolding read_bytes
    read_bytes-Pushed zero out base v s room a = (([], sym (append-nil v), refl, tt), room, a)
    read_bytes-Pushed (suc n) out base v s room a =
        Ensures-bind (Filled 1 out (base ++ v)) (Pushed (suc n) out base v) (Quiet out)
          (read_exact io 1)
          (λ byte. or_push h io (h.push tcp_buf (get_or byte 0 0) v) >>= λ v'. read_bytes h io n v')
          s (read_exact-Filled 1 out (base ++ v) s a)
          (λ byte s' (len, bytes, a').
            let b : ℕ = get_or byte 0 0 in
            let hb : IsByte b = (rw (one_byte byte len) at bytes).0 in
            let D : List ℕ → S → Type 0 =
              λ v' s''. (v' ≡ v ++ (b ∷ [])) × (length v < tcp_buf) × At t out (base ++ v') s'' in
            Ensures-bind D (Pushed (suc n) out base v) (Quiet out)
              (or_push h io (h.push tcp_buf b v)) (read_bytes h io n) s'
              (push-post D (Quiet out) b v s'
                (λ fits. (
                  refl,
                  fits,
                  (
                    a'.0,
                    a'.1
                        ∙ ap (λ l. base ++ v ++ l) (one_byte byte len)
                        ∙ append_assoc base v (b ∷ []),
                  ),
                ))
                a'.0)
              (λ v' s'' (e, fits, a'').
                Ensures-weaken (Pushed n out base v') (Pushed (suc n) out base v) (Quiet out)
                  (Quiet out) (read_bytes h io n v' s'').0 (read_bytes h io n v' s'').1
                  (read_bytes-Pushed n out base v' s''
                    (rw e (omega (arith, length-append v (b ∷ [])))) a'')
                  (λ w u p. Pushed-suc n b out base v w u hb (rw e at p)) (λ _ u p. p)))

    -- A frame that `listen` returns: as long as its length field says, and its bytes are those
    -- taken from the stream.
    abbrev pub IsTcpFrame : List ℕ → List ℕ → List ℕ → S → Type 0
    IsTcpFrame out base req s =
        (length req ≡ 6 + from_be_bytes (get_or req 4 0) (get_or req 5 0))
        × (length req ≤ tcp_buf)
        × All IsByte req
        × At t out (base ++ req) s

    framed :
        (out base mbap v v' : List ℕ) (s : S)
        → length mbap ≡ 6
        → All IsByte mbap
        → v ≡ mbap
        → Pushed (from_be_bytes (get_or mbap 4 0) (get_or mbap 5 0)) out base v v' s
        → IsTcpFrame out base v' s
    framed out base mbap v v' s six bytes e ((k, joined, count, more), room, a) =
        let whole : v' ≡ mbap ++ k = joined ∙ ap (λ l. l ++ k) e in
        (
          rw
              (
                whole,
                get_or-append_left mbap k 4 0 (omega arith),
                get_or-append_left mbap k 5 0 (omega arith),
              )
              (omega (arith, length-append mbap k, six, count)),
          room,
          rw whole (All-append IsByte mbap k bytes more),
          a,
        )

    -- On a stream that keeps the contract of `Read` `listen` returns only frames of at most 261
    -- bytes whose length field states their length, and takes exactly the frame from the stream;
    -- it sends nothing.
    pub listen-IsTcpFrame :
        (out base : List ℕ) (s : S)
        → At t out base s
        → Ensures (IsTcpFrame out base) (Quiet out) (listen h io s).0 (listen h io s).1
    unfolding listen
    listen-IsTcpFrame out base s a =
        Ensures-bind (Filled 6 out base) (IsTcpFrame out base) (Quiet out) (read_exact io 6) _ s
          (read_exact-Filled 6 out base s a)
          (λ mbap s' (six, bytes, a').
            let n : ℕ = from_be_bytes (get_or mbap 4 0) (get_or mbap 5 0) in
            let D : List ℕ → S → Type 0 = λ v s''. (v ≡ mbap) × At t out (base ++ mbap) s'' in
            Ensures-bind D (IsTcpFrame out base) (Quiet out)
              (or_push h io (h.extend_from_slice tcp_buf mbap [])) (read_bytes h io n) s'
              (rw (vec.extend_fits tcp_buf mbap [] (omega arith)) (refl, a'))
              (λ v s'' (e, a'').
                Ensures-weaken (Pushed n out base v) (IsTcpFrame out base) (Quiet out) (Quiet out)
                  (read_bytes h io n v s'').0 (read_bytes h io n v s'').1
                  (read_bytes-Pushed n out base v s'' (rw e (omega arith)) (rw e a''))
                  (λ v' u p. framed out base mbap v v' u six bytes e p) (λ _ u p. p)))
