-- ===== src/Rtu/Replies.antt =====
-- `listen`, `receive`, `send` and `send_and_receive` of src/rtu.rs on a port at whose other end
-- somebody answers: they return the frame that is there, and send the one that they are given.
use modbus_bridge_rs.Base.{
  ℕ, ◌+◌, ◌≤◌, ◌≡◌, refl, sym, ◌∙◌, List, [], ◌∷◌, ◌++◌, arith, ◌==◌, ◌||◌, true, false, length,
  get_or, inl, inr, Bool-cases,
}
use mathlib.Core.List.{append_assoc}
use modbus_bridge_rs.Base.Outcome.{ok}
use modbus_bridge_rs.Base.Runs.{Runs, Runs-bind}
use modbus_bridge_rs.Heapless.{Heapless, IsHeapless}
use modbus_bridge_rs.Frame.{check_crc, rtu_response_remaining, response_cap}
use modbus_bridge_rs.Io.{Io, IsIo, Traffic}
use modbus_bridge_rs.Io.Responsive.{IsResponsive, Faces}
use modbus_bridge_rs.Rtu.{
  rtu_buf, read_exact, read_bytes, receive, listen, listen_data, listen_fixed,
}
use modbus_bridge_rs.Rtu.Frames.{
  request_length, response_length, response_length_low, response_length_remaining,
}
use modbus_bridge_rs.Rtu.Success.{read_exact-runs, read_bytes-runs}

-- A response on the bus: a valid CRC and the length that the code and the byte count state.
abbrev pub IsResponseAdu : List ℕ → Type 0
IsResponseAdu resp =
    (check_crc resp ≡ ok tt) × (length resp ≡ response_length resp) × (length resp ≤ 260)

-- A request on the bus: a valid CRC and the length that the code and the byte count state.
abbrev pub IsRequestAdu : List ℕ → Type 0
IsRequestAdu req =
    (check_crc req ≡ ok tt) × (length req ≡ request_length req) × (length req ≤ rtu_buf)

module _ {S E : Type 0} {io : Io S E} {t : Traffic S} {script : S → List ℕ → List ℕ}
    (lawful : IsIo io t) (live : IsResponsive io t script) (says : List ℕ → List ℕ) {h : Heapless}
    (vec : IsHeapless h) where
  receive_frame :
      (a b c : ℕ) (out inn k more : List ℕ) (s : S)
      → length k ≡ rtu_response_remaining a b c
      → 3 + length k ≤ response_cap
      → check_crc (a ∷ b ∷ c ∷ k) ≡ ok tt
      → Faces lawful live says out inn s
      → says out ≡ inn ++ ((a ∷ b ∷ c ∷ k) ++ more)
      → Runs (receive h io) s (a ∷ b ∷ c ∷ k) (Faces lawful live says out (inn ++ (a ∷ b ∷ c ∷ k)))
  unfolding receive
  receive_frame a b c out inn k more s size fits valid f e =
      let header : List ℕ = a ∷ b ∷ c ∷ [] in
      let resp : List ℕ = a ∷ b ∷ c ∷ k in
      Runs-bind (read_exact io 3) _ s header resp (Faces lawful live says out (inn ++ header))
        (Faces lawful live says out (inn ++ resp))
        (read_exact-runs lawful live says 3 out inn header (k ++ more) s refl f e)
        (λ s' f'. rw (vec.extend_fits response_cap header [] (omega arith)) (
          Runs-bind (read_bytes h io response_cap (rtu_response_remaining a b c) header) _ s' resp
            resp (Faces lawful live says out (inn ++ header ++ k))
            (Faces lawful live says out (inn ++ resp))
            (read_bytes-runs lawful live says vec response_cap (rtu_response_remaining a b c) out
              (inn ++ header) header k more s' size (omega arith) f'
              (e ∙ sym (append_assoc inn header (k ++ more))))
            (λ s'' f''. rw valid (s'', refl, rw (append_assoc inn header k) at f''))))

  -- A response of the length that its header states and with a valid CRC.
  pub receive-runs :
      (out inn resp more : List ℕ) (s : S)
      → check_crc resp ≡ ok tt
      → length resp ≡ response_length resp
      → length resp ≤ response_cap
      → Faces lawful live says out inn s
      → says out ≡ inn ++ (resp ++ more)
      → Runs (receive h io) s resp (Faces lawful live says out (inn ++ resp))
  receive-runs out inn [] more s valid size fits =
      absurd (omega (arith, size, response_length_low []))
  receive-runs out inn (a ∷ []) more s valid size fits =
      absurd (omega (arith, size, response_length_low (a ∷ [])))
  receive-runs out inn (a ∷ b ∷ []) more s valid size fits =
      absurd (omega (arith, size, response_length_low (a ∷ b ∷ [])))
  receive-runs out inn (a ∷ b ∷ c ∷ k) more s valid size fits =
      receive_frame a b c out inn k more s (omega (arith, size ∙ response_length_remaining a b c k))
        (omega arith) valid

  listen_plain :
      (a b : ℕ) (out inn rest more : List ℕ) (s : S)
      → (b == 0x0F || b == 0x10) ≡ false
      → length rest ≡ 6
      → check_crc (a ∷ b ∷ rest) ≡ ok tt
      → Faces lawful live says out inn s
      → says out ≡ inn ++ ((a ∷ b ∷ rest) ++ more)
      → Runs (listen h io) s (a ∷ b ∷ rest) (Faces lawful live says out (inn ++ (a ∷ b ∷ rest)))
  unfolding listen
  listen_plain a b out inn rest more s plain six valid f e =
      let hdr : List ℕ = a ∷ b ∷ [] in
      let req : List ℕ = a ∷ b ∷ rest in
      Runs-bind (read_exact io 2) _ s hdr req (Faces lawful live says out (inn ++ hdr))
        (Faces lawful live says out (inn ++ req))
        (read_exact-runs lawful live says 2 out inn hdr (rest ++ more) s refl f e)
        (λ s' f'.
          rw (vec.extend_fits rtu_buf hdr [] (omega arith), plain)
            (Runs-bind (listen_fixed h io hdr) _ s' req req
              (Faces lawful live says out (inn ++ hdr ++ rest))
              (Faces lawful live says out (inn ++ req))
              (Runs-bind (read_exact io 6) _ s' rest req
                (Faces lawful live says out (inn ++ hdr ++ rest))
                (Faces lawful live says out (inn ++ hdr ++ rest))
                (read_exact-runs lawful live says 6 out (inn ++ hdr) rest more s' six f'
                  (e ∙ sym (append_assoc inn hdr (rest ++ more))))
                (λ u g. rw (vec.extend_fits rtu_buf rest hdr (omega arith)) (u, refl, g)))
              (λ u g. rw valid (u, refl, rw (append_assoc inn hdr rest) at g))))

  listen_multiple :
      (a b c d x y n : ℕ) (out inn k more : List ℕ) (s : S)
      → (b == 0x0F || b == 0x10) ≡ true
      → length k ≡ n + 2
      → 7 + length k ≤ rtu_buf
      → check_crc (a ∷ b ∷ c ∷ d ∷ x ∷ y ∷ n ∷ k) ≡ ok tt
      → Faces lawful live says out inn s
      → says out ≡ inn ++ ((a ∷ b ∷ c ∷ d ∷ x ∷ y ∷ n ∷ k) ++ more)
      → Runs
          (listen h io)
          s
          (a ∷ b ∷ c ∷ d ∷ x ∷ y ∷ n ∷ k)
          (Faces lawful live says out (inn ++ (a ∷ b ∷ c ∷ d ∷ x ∷ y ∷ n ∷ k)))
  unfolding listen
  listen_multiple a b c d x y n out inn k more s multiple size fits valid f e =
      let hdr : List ℕ = a ∷ b ∷ [] in
      let fixed : List ℕ = c ∷ d ∷ x ∷ y ∷ n ∷ [] in
      let head : List ℕ = a ∷ b ∷ c ∷ d ∷ x ∷ y ∷ n ∷ [] in
      let req : List ℕ = a ∷ b ∷ c ∷ d ∷ x ∷ y ∷ n ∷ k in
      Runs-bind (read_exact io 2) _ s hdr req (Faces lawful live says out (inn ++ hdr))
        (Faces lawful live says out (inn ++ req))
        (read_exact-runs lawful live says 2 out inn hdr (fixed ++ k ++ more) s refl f e)
        (λ s' f'.
          rw (vec.extend_fits rtu_buf hdr [] (omega arith), multiple)
            (Runs-bind (listen_data h io hdr) _ s' req req
              (Faces lawful live says out (inn ++ head ++ k))
              (Faces lawful live says out (inn ++ req))
              (Runs-bind (read_exact io 5) _ s' fixed req
                (Faces lawful live says out (inn ++ hdr ++ fixed))
                (Faces lawful live says out (inn ++ head ++ k))
                (read_exact-runs lawful live says 5 out (inn ++ hdr) fixed (k ++ more) s' refl f'
                  (e ∙ sym (append_assoc inn hdr (fixed ++ k ++ more))))
                (λ u g. rw (vec.extend_fits rtu_buf fixed hdr (omega arith)) (
                  read_bytes-runs lawful live says vec rtu_buf (n + 2) out (inn ++ head) head k more
                    u size (omega arith) (rw (append_assoc inn hdr fixed) at g)
                    (e ∙ sym (append_assoc inn head (k ++ more))))))
              (λ u g. rw valid (u, refl, rw (append_assoc inn head k) at g))))

  -- A request of the length that its code and its byte count state and with a valid CRC.
  pub listen-runs :
      (out inn req more : List ℕ) (s : S)
      → check_crc req ≡ ok tt
      → length req ≡ request_length req
      → length req ≤ rtu_buf
      → Faces lawful live says out inn s
      → says out ≡ inn ++ (req ++ more)
      → Runs (listen h io) s req (Faces lawful live says out (inn ++ req))
  listen-runs out inn req more s valid size fits =
      elim (Bool-cases (get_or req 1 0 == 0x0F || get_or req 1 0 == 0x10)) [
        | inl multiple ↦ by_data req multiple (rw multiple at size) fits valid
        | inr plain ↦ by_code req plain (rw plain at size) valid
      ]
    where
      by_code :
          (req : List ℕ)
          → (get_or req 1 0 == 0x0F || get_or req 1 0 == 0x10) ≡ false
          → length req ≡ 8
          → check_crc req ≡ ok tt
          → Faces lawful live says out inn s
          → says out ≡ inn ++ (req ++ more)
          → Runs (listen h io) s req (Faces lawful live says out (inn ++ req))
      by_code [] plain size valid = absurd (omega arith)
      by_code (a ∷ []) plain size valid = absurd (omega arith)
      by_code (a ∷ b ∷ rest) plain size valid =
          listen_plain a b out inn rest more s plain (omega arith) valid

      by_data :
          (req : List ℕ)
          → (get_or req 1 0 == 0x0F || get_or req 1 0 == 0x10) ≡ true
          → length req ≡ 9 + get_or req 6 0
          → length req ≤ rtu_buf
          → check_crc req ≡ ok tt
          → Faces lawful live says out inn s
          → says out ≡ inn ++ (req ++ more)
          → Runs (listen h io) s req (Faces lawful live says out (inn ++ req))
      by_data [] m size fits valid = absurd (omega arith)
      by_data (a ∷ []) m size fits valid = absurd (omega arith)
      by_data (a ∷ b ∷ []) m size fits valid = absurd (omega arith)
      by_data (a ∷ b ∷ c ∷ []) m size fits valid = absurd (omega arith)
      by_data (a ∷ b ∷ c ∷ d ∷ []) m size fits valid = absurd (omega arith)
      by_data (a ∷ b ∷ c ∷ d ∷ x ∷ []) m size fits valid = absurd (omega arith)
      by_data (a ∷ b ∷ c ∷ d ∷ x ∷ y ∷ []) m size fits valid = absurd (omega arith)
      by_data (a ∷ b ∷ c ∷ d ∷ x ∷ y ∷ n ∷ k) m size fits valid =
          listen_multiple a b c d x y n out inn k more s m (omega arith) (omega arith) valid
