-- ===== src/Rtu/Listen.antt =====
-- `listen` of src/rtu.rs: the requests that it accepts.
use modbus_bridge_rs.Base.{
  ℕ, ◌+◌, ◌≤◌, ◌≡◌, refl, ap, ◌∙◌, inl, inr, List, [], ◌++◌, true, false, ◌||◌, ◌==◌, arith, length,
  All, IsByte, All-append, length-append, get_or-append_left, get_or-append_right, Bool-cases,
  get_or,
}
use mathlib.Core.List.{append_assoc}
use modbus_bridge_rs.Base.Outcome.{ok}
use modbus_bridge_rs.Base.Ensures.{Ensures, Ensures-bind, Ensures-weaken}
use modbus_bridge_rs.Heapless.{Heapless, IsHeapless}
use modbus_bridge_rs.Frame.{check_crc}
use modbus_bridge_rs.Io.{Io, IsIo, Traffic, At}
use modbus_bridge_rs.Rtu.{
  rtu_buf, read_exact, or_push, read_bytes, listen_data, listen_fixed, listen_rest, listen,
}
use modbus_bridge_rs.Rtu.Read.{
  Filled, Quiet, Pushed, read_exact-Filled, extend-post, read_bytes-Pushed,
}
use modbus_bridge_rs.Rtu.Frames.{request_length, check-post}

module _ {S E : Type 0} {io : Io S E} {t : Traffic S} (lawful : IsIo io t) where
  module _ {h : Heapless} (vec : IsHeapless h) where
    -- What `listen` has after the header: the frame up to its length, the CRC not yet checked.
    abbrev Listened : List ℕ → List ℕ → List ℕ → List ℕ → S → Type 0
    Listened out base hdr req s =
        (length req ≡ request_length req)
        × (length req ≤ rtu_buf)
        × All IsByte req
        × At t out (base ++ req) s

    -- A request that `listen` returns.
    abbrev pub IsRequest : List ℕ → List ℕ → List ℕ → S → Type 0
    IsRequest out base req s =
        (check_crc req ≡ ok tt)
        × (length req ≡ request_length req)
        × (length req ≤ rtu_buf)
        × All IsByte req
        × At t out (base ++ req) s

    length-fixed_request :
        (hdr rest : List ℕ)
        → length hdr ≡ 2
        → length rest ≡ 6
        → (get_or hdr 1 0 == 0x0F || get_or hdr 1 0 == 0x10) ≡ false
        → length (hdr ++ rest) ≡ request_length (hdr ++ rest)
    length-fixed_request hdr rest two six plain =
        rw (get_or-append_left hdr rest 1 0 (omega arith), plain)
          (omega (arith, length-append hdr rest))

    length-data_request :
        (hdr fixed k : List ℕ)
        → length hdr ≡ 2
        → length fixed ≡ 5
        → length k ≡ get_or fixed 4 0 + 2
        → (get_or hdr 1 0 == 0x0F || get_or hdr 1 0 == 0x10) ≡ true
        → length ((hdr ++ fixed) ++ k) ≡ request_length ((hdr ++ fixed) ++ k)
    length-data_request hdr fixed k two five count multiple =
        rw
          (
            get_or-append_left (hdr ++ fixed) k 1 0 (omega (arith, size)),
            get_or-append_left hdr fixed 1 0 (omega arith),
            multiple,
            get_or-append_left (hdr ++ fixed) k 6 0 (omega (arith, size)),
            get_or-append_right hdr fixed 6 4 0 (omega arith),
          )
          (omega (arith, length-append (hdr ++ fixed) k, size))
      where
        size : length (hdr ++ fixed) ≡ length hdr + length fixed
        size = length-append hdr fixed

    module _ (out base hdr : List ℕ) (len : length hdr ≡ 2) (bytes : All IsByte hdr) where
      listen_data-post :
          (s : S)
          → (get_or hdr 1 0 == 0x0F || get_or hdr 1 0 == 0x10) ≡ true
          → At t out (base ++ hdr) s
          → Ensures
              (Listened out base hdr)
              (Quiet lawful out)
              (listen_data h io hdr s).0
              (listen_data h io hdr s).1
      listen_data-post s multiple a =
          Ensures-bind (Filled lawful 5 out (base ++ hdr)) (Listened out base hdr)
            (Quiet lawful out) (read_exact io 5) _ s
            (read_exact-Filled lawful 5 out (base ++ hdr) s a)
            (λ fixed s' (five, more, a').
              let D : List ℕ → S → Type 0 =
                λ v s''. (v ≡ hdr ++ fixed) × (length v ≤ rtu_buf) × At t out (base ++ v) s'' in
              Ensures-bind D (Listened out base hdr) (Quiet lawful out)
                (or_push h io (h.extend_from_slice rtu_buf fixed hdr)) _ s'
                (extend-post lawful vec D (Quiet lawful out) rtu_buf fixed hdr s'
                  (λ fits. (
                    refl,
                    omega (arith, length-append hdr fixed),
                    (a'.0, a'.1 ∙ append_assoc base hdr fixed),
                  ))
                  a'.0)
                (λ v s'' (joined, room, a'').
                  Ensures-weaken (Pushed lawful vec rtu_buf (get_or fixed 4 0 + 2) out base v)
                    (Listened out base hdr) (Quiet lawful out) (Quiet lawful out)
                    (read_bytes h io rtu_buf (get_or fixed 4 0 + 2) v s'').0
                    (read_bytes h io rtu_buf (get_or fixed 4 0 + 2) v s'').1
                    (read_bytes-Pushed lawful vec rtu_buf (get_or fixed 4 0 + 2) out base v s'' room
                      a'')
                    (λ v' u ((k, longer, count, rest, last), room').
                      let whole : v' ≡ (hdr ++ fixed) ++ k = longer ∙ ap (λ l. l ++ k) joined in
                      (
                        rw whole (length-data_request hdr fixed k len five count multiple),
                        room',
                        rw whole (
                            All-append IsByte (hdr ++ fixed) k
                              (All-append IsByte hdr fixed bytes more) rest),
                        last,
                      ))
                    (λ _ u p. p)))

      listen_fixed-post :
          (s : S)
          → (get_or hdr 1 0 == 0x0F || get_or hdr 1 0 == 0x10) ≡ false
          → At t out (base ++ hdr) s
          → Ensures
              (Listened out base hdr)
              (Quiet lawful out)
              (listen_fixed h io hdr s).0
              (listen_fixed h io hdr s).1
      listen_fixed-post s plain a =
          Ensures-bind (Filled lawful 6 out (base ++ hdr)) (Listened out base hdr)
            (Quiet lawful out) (read_exact io 6) _ s
            (read_exact-Filled lawful 6 out (base ++ hdr) s a)
            (λ rest s' (six, more, a').
              extend-post lawful vec (Listened out base hdr) (Quiet lawful out) rtu_buf rest hdr s'
                (λ fits. (
                  length-fixed_request hdr rest len six plain,
                  omega (arith, length-append hdr rest),
                  All-append IsByte hdr rest bytes more,
                  (a'.0, a'.1 ∙ append_assoc base hdr rest),
                ))
                a'.0)

      listen_rest-post :
          (s : S)
          → At t out (base ++ hdr) s
          → Ensures
              (Listened out base hdr)
              (Quiet lawful out)
              (listen_rest h io (get_or hdr 1 0) hdr s).0
              (listen_rest h io (get_or hdr 1 0) hdr s).1
      listen_rest-post s a = elim (Bool-cases (get_or hdr 1 0 == 0x0F || get_or hdr 1 0 == 0x10)) [
        | inl multiple ↦ rw multiple (listen_data-post s multiple a)
        | inr plain ↦ rw plain (listen_fixed-post s plain a)
      ]

    -- On a port that keeps its contract `listen` returns only frames of at most 255 bytes with a
    -- valid CRC and the length that their code and byte count state, and takes exactly the frame
    -- from the port; it sends nothing.
    pub listen-IsRequest :
        (out base : List ℕ) (s : S)
        → At t out base s
        → Ensures (IsRequest out base) (Quiet lawful out) (listen h io s).0 (listen h io s).1
    unfolding listen
    listen-IsRequest out base s a =
        Ensures-bind (Filled lawful 2 out base) (IsRequest out base) (Quiet lawful out)
          (read_exact io 2) _ s (read_exact-Filled lawful 2 out base s a)
          (λ hdr s' (len, bytes, a').
            let D : List ℕ → S → Type 0 = λ v s''. (v ≡ hdr) × At t out (base ++ hdr) s'' in
            Ensures-bind D (IsRequest out base) (Quiet lawful out)
              (or_push h io (h.extend_from_slice rtu_buf hdr [])) _ s'
              (extend-post lawful vec D (Quiet lawful out) rtu_buf hdr [] s' (λ _. (refl, a')) a'.0)
              (λ v s'' (e, a'').
                Ensures-bind (Listened out base hdr) (IsRequest out base) (Quiet lawful out)
                  (listen_rest h io (get_or hdr 1 0) v) _ s''
                  (rw e (listen_rest-post out base hdr len bytes s'' a''))
                  (λ req u p.
                    check-post lawful (IsRequest out base) (Quiet lawful out) req u (check_crc req)
                      (λ valid. (valid, p.0, p.1, p.2, p.3)) (λ _. p.3.0))))
