-- ===== src/Tcp/Success.antt =====
-- The transport of src/tcp.rs on a stream at whose other end somebody answers: every call returns.
use modbus_bridge_rs.Base.{
  ℕ, zero, suc, ◌+◌, ◌-◌, ◌≤◌, ◌<◌, ◌≡◌, refl, sym, ap, ◌∙◌, List, [], ◌∷◌, ◌++◌, arith, length,
  take, drop, take-append-drop, append-take-drop, length-append, length-drop, length-take, le→ltb,
  lt→ltb, get_or,
}
use mathlib.Core.List.{append_assoc, append-nil}
use modbus_bridge_rs.Base.Outcome.{done, Exec, ◌>>=◌}
use modbus_bridge_rs.Base.Runs.{Runs, Runs-weaken, Runs-bind}
use modbus_bridge_rs.Heapless.{Heapless, IsHeapless}
use modbus_bridge_rs.Io.{Io, IsIo, Traffic}
use modbus_bridge_rs.Io.Responsive.{IsResponsive, Faces, read_part-runs}
use modbus_bridge_rs.Tcp.{
  TcpError, tcp_buf, after_read, read_exact_loop, read_exact, or_push, read_bytes, listen,
}
use modbus_bridge_rs.Frame.{from_be_bytes}

-- A frame that `listen` takes and the conversions accept: an MBAP header that states the length,
-- a PDU, and at most 261 bytes.
abbrev pub IsTcpAdu : List ℕ → Type 0
IsTcpAdu adu =
    (7 ≤ length adu)
    × (length adu ≡ 6 + from_be_bytes (get_or adu 4 0) (get_or adu 5 0))
    × (length adu ≤ tcp_buf)

module _ {S E : Type 0} {io : Io S E} {t : Traffic S} {script : S → List ℕ → List ℕ}
    (lawful : IsIo io t) (live : IsResponsive io t script) (says : List ℕ → List ℕ) where
  -- One answer of the stream, then the rest of the loop.
  after_read-runs :
      (rest : List ℕ → Exec S (TcpError E) (List ℕ)) (len b k : ℕ) (out inn buf w more : List ℕ)
      (s s' : S)
      → ((buf' w' inn' : List ℕ) (s'' : S)
          → length buf' + length w' ≡ len
          → length w' ≤ length w
          → Faces lawful live says out inn' s''
          → says out ≡ inn' ++ (w' ++ more)
          → Runs (rest buf') s'' (buf' ++ w') (Faces lawful live says out (inn' ++ w')))
      → length buf + suc (length w) ≡ len
      → k ≤ length w
      → io.read (len - length buf) s ≡ (done (b ∷ take k w), s')
      → Faces lawful live says out (inn ++ (b ∷ take k w)) s'
      → says out ≡ inn ++ (b ∷ (w ++ more))
      → Runs
          (λ u.
            after_read io rest buf
              (io.read (len - length buf) u).0
              (io.read (len - length buf) u).1)
          s
          (buf ++ (b ∷ w))
          (Faces lawful live says out (inn ++ (b ∷ w)))
  after_read-runs rest len b k out inn buf w more s s' runs size small gives a e =
      let (s'', goes, a') =
        rw (append-take-drop buf b k w, append-take-drop inn b k w) at
          (runs (buf ++ (b ∷ take k w)) (drop k w) (inn ++ (b ∷ take k w)) s'
            (omega (arith, length-append buf (b ∷ take k w), length-take k w, length-drop k w))
            (omega (arith, length-drop k w)) a
            (e
              ∙ ap (λ l. inn ++ (b ∷ (l ++ more))) (sym (take-append-drop k w))
              ∙ ap (λ l. inn ++ (b ∷ l)) (append_assoc (take k w) (drop k w) more)
              ∙ sym (append_assoc inn (b ∷ take k w) (drop k w ++ more)))) in
      (s'', ap (λ r. after_read io rest buf r.0 r.1) gives ∙ goes, a')

  read_exact_loop-runs :
      (fuel len : ℕ) (out inn buf w more : List ℕ) (s : S)
      → length buf + length w ≡ len
      → length w < fuel
      → Faces lawful live says out inn s
      → says out ≡ inn ++ (w ++ more)
      → Runs (read_exact_loop io fuel len buf) s (buf ++ w) (Faces lawful live says out (inn ++ w))
  unfolding read_exact_loop
  read_exact_loop-runs zero len out inn buf w more s size h a e = absurd (omega arith)
  read_exact_loop-runs (suc fuel) len out inn buf [] more s size h a e =
      rw (le→ltb (length buf) len (omega arith)) (s, rw append-nil, rw append-nil a)
  read_exact_loop-runs (suc fuel) len out inn buf (b ∷ w) more s size h a e =
      let (k, small, (s', gives, a')) =
        read_part-runs lawful live says out inn b w more (len - length buf) s (omega arith) a e in
      rw (lt→ltb (length buf) len (omega arith)) (
        after_read-runs (read_exact_loop io fuel len) len b k out inn buf w more s s'
          (λ buf' w' inn' u size' short a'' e'.
            read_exact_loop-runs fuel len out inn' buf' w' more u size' (omega arith) a'' e')
          size small gives a' e)

  -- The next `len` bytes, however the stream parts them.
  pub read_exact-runs :
      (len : ℕ) (out inn w more : List ℕ) (s : S)
      → length w ≡ len
      → Faces lawful live says out inn s
      → says out ≡ inn ++ (w ++ more)
      → Runs (read_exact io len) s w (Faces lawful live says out (inn ++ w))
  unfolding read_exact
  read_exact-runs len out inn w more s size =
      read_exact_loop-runs (len + 1) len out inn [] w more s (omega arith) (omega arith)

  module _ {h : Heapless} (vec : IsHeapless h) where
    -- The next bytes, one at a time.
    pub read_bytes-runs :
        (n : ℕ) (out inn v w more : List ℕ) (s : S)
        → length w ≡ n
        → length v + n ≤ tcp_buf
        → Faces lawful live says out inn s
        → says out ≡ inn ++ (w ++ more)
        → Runs (read_bytes h io n v) s (v ++ w) (Faces lawful live says out (inn ++ w))
    unfolding read_bytes
    read_bytes-runs zero out inn v [] more s size fits a e = (s, rw append-nil, rw append-nil a)
    read_bytes-runs zero out inn v (b ∷ w) more s size fits a e = absurd (omega arith)
    read_bytes-runs (suc n) out inn v [] more s size fits a e = absurd (omega arith)
    read_bytes-runs (suc n) out inn v (b ∷ w) more s size fits a e =
        Runs-bind (read_exact io 1)
          (λ byte. or_push h io (h.push tcp_buf (get_or byte 0 0) v) >>= λ v'. read_bytes h io n v')
          s (b ∷ []) (v ++ (b ∷ w)) (Faces lawful live says out (inn ++ (b ∷ [])))
          (Faces lawful live says out (inn ++ (b ∷ w)))
          (read_exact-runs 1 out inn (b ∷ []) (w ++ more) s refl a e)
          (λ s' a'. rw (vec.push_fits tcp_buf b v (omega arith)) (
            rw (append_assoc v (b ∷ []) w, append_assoc inn (b ∷ []) w) at
              (read_bytes-runs n out (inn ++ (b ∷ [])) (v ++ (b ∷ [])) w more s' (omega arith)
                (omega (arith, length-append v (b ∷ []))) a'
                (e ∙ sym (append_assoc inn (b ∷ []) (w ++ more))))))

    listen_frame :
        (a b c d hi lo : ℕ) (out inn k more : List ℕ) (s : S)
        → length k ≡ from_be_bytes hi lo
        → 6 + length k ≤ tcp_buf
        → Faces lawful live says out inn s
        → says out ≡ inn ++ ((a ∷ b ∷ c ∷ d ∷ hi ∷ lo ∷ k) ++ more)
        → Runs
            (listen h io)
            s
            (a ∷ b ∷ c ∷ d ∷ hi ∷ lo ∷ k)
            (Faces lawful live says out (inn ++ (a ∷ b ∷ c ∷ d ∷ hi ∷ lo ∷ k)))
    unfolding listen
    listen_frame a b c d hi lo out inn k more s size fits f e =
        let mbap : List ℕ = a ∷ b ∷ c ∷ d ∷ hi ∷ lo ∷ [] in
        let req : List ℕ = a ∷ b ∷ c ∷ d ∷ hi ∷ lo ∷ k in
        Runs-bind (read_exact io 6) _ s mbap req (Faces lawful live says out (inn ++ mbap))
          (Faces lawful live says out (inn ++ req))
          (read_exact-runs 6 out inn mbap (k ++ more) s refl f e)
          (λ s' f'. rw (vec.extend_fits tcp_buf mbap [] (omega arith)) (
            Runs-weaken (read_bytes h io (from_be_bytes hi lo) mbap) s' req
              (Faces lawful live says out (inn ++ mbap ++ k))
              (Faces lawful live says out (inn ++ req))
              (read_bytes-runs (from_be_bytes hi lo) out (inn ++ mbap) mbap k more s' size
                (omega arith) f' (e ∙ sym (append_assoc inn mbap (k ++ more))))
              (λ u g. rw (append_assoc inn mbap k) at g)))

    -- A frame of the length that its header states, if it fits the buffer.
    pub listen-runs :
        (out inn req more : List ℕ) (s : S)
        → length req ≡ 6 + from_be_bytes (get_or req 4 0) (get_or req 5 0)
        → length req ≤ tcp_buf
        → Faces lawful live says out inn s
        → says out ≡ inn ++ (req ++ more)
        → Runs (listen h io) s req (Faces lawful live says out (inn ++ req))
    listen-runs out inn [] more s size fits = absurd (omega arith)
    listen-runs out inn (a ∷ []) more s size fits = absurd (omega arith)
    listen-runs out inn (a ∷ b ∷ []) more s size fits = absurd (omega arith)
    listen-runs out inn (a ∷ b ∷ c ∷ []) more s size fits = absurd (omega arith)
    listen-runs out inn (a ∷ b ∷ c ∷ d ∷ []) more s size fits = absurd (omega arith)
    listen-runs out inn (a ∷ b ∷ c ∷ d ∷ hi ∷ []) more s size fits = absurd (omega arith)
    listen-runs out inn (a ∷ b ∷ c ∷ d ∷ hi ∷ lo ∷ k) more s size fits =
        listen_frame a b c d hi lo out inn k more s (omega arith) (omega arith)
