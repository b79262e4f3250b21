-- ===== src/Tcp/Order.antt =====
-- The order of the bytes on the stream in src/tcp.rs: `send` only sends, and `listen` only reads.
use modbus_bridge_rs.Base.{
  ℕ, zero, suc, ◌+◌, ◌-◌, ◌≤◌, ◌≡◌, inl, inr, sym, ap, ◌∙◌, Bool, true, false, Option, List, [],
  ◌∷◌, ◌++◌, length, get_or, ltb, Bool-cases, map,
}
use mathlib.Core.List.{append-nil}
use modbus_bridge_rs.Base.Outcome.{Outcome, done, fail, stalled, Exec}
use modbus_bridge_rs.Base.Ensures.{Ensures, Ensures-weaken}
use modbus_bridge_rs.Heapless.{Heapless, IsHeapless}
use modbus_bridge_rs.Frame.{from_be_bytes}
use modbus_bridge_rs.Io.{Io, IsIo, At, write_all}
use modbus_bridge_rs.Io.WriteAll.{WroteSome, write_all-wrote}
use modbus_bridge_rs.Io.Order.{
  Move, sends, receives, sent_of, received_of, traffic_of, IsLogged, Keeps, bind-Keeps, Ensures-and,
  write_all-Keeps, Heard, Told, told, heard, read-Heard, write-Told,
}
use modbus_bridge_rs.Tcp.{
  TcpError, tcp_buf, after_read, read_exact_loop, read_exact, or_push, read_bytes, listen,
}
use modbus_bridge_rs.Tcp.Listen.{IsTcpFrame, Quiet, listen-IsTcpFrame}

module _ {S E : Type 0} (io : Io S E) (P : S → Type 0) (kept : (n : ℕ) → Keeps P (io.read n)) where
  after_read-Keeps :
      (rest : List ℕ → Exec S (TcpError E) (List ℕ)) (buf : List ℕ) (r : Outcome E (List ℕ))
      → ((buf' : List ℕ) → Keeps P (rest buf'))
      → Keeps P (after_read io rest buf r)
  after_read-Keeps rest buf (done []) k s p = p
  after_read-Keeps rest buf (done (b ∷ bytes)) k s p = k (buf ++ (b ∷ bytes)) s p
  after_read-Keeps rest buf (fail e) k s p = p
  after_read-Keeps rest buf stalled k s p = p

  read_exact_loop-Keeps : (fuel len : ℕ) (buf : List ℕ) → Keeps P (read_exact_loop io fuel len buf)
  unfolding read_exact_loop
  read_exact_loop-Keeps zero len buf s p = p
  read_exact_loop-Keeps (suc fuel) len buf s p = elim (Bool-cases (ltb (length buf) len)) [
    | inl more ↦ rw more (
        after_read-Keeps (read_exact_loop io fuel len) buf (io.read (len - length buf) s).0
          (read_exact_loop-Keeps fuel len) (io.read (len - length buf) s).1
          (kept (len - length buf) s p))
    | inr full ↦ rw full p
  ]

  read_exact-Keeps : (len : ℕ) → Keeps P (read_exact io len)
  unfolding read_exact
  read_exact-Keeps len = read_exact_loop-Keeps (len + 1) len []

  module _ (h : Heapless) where
    or_push-Keeps : (x : Bool × List ℕ) → Keeps P (or_push h io x)
    or_push-Keeps (true, v) s p = p
    or_push-Keeps (false, v) s p = p

    read_bytes-Keeps : (n : ℕ) (v : List ℕ) → Keeps P (read_bytes h io n v)
    unfolding read_bytes
    read_bytes-Keeps zero v s p = p
    read_bytes-Keeps (suc n) v s p =
        bind-Keeps P (read_exact io 1) _ (read_exact-Keeps 1)
          (λ byte.
            bind-Keeps P (or_push h io (h.push tcp_buf (get_or byte 0 0) v))
              (λ v'. read_bytes h io n v') (or_push-Keeps (h.push tcp_buf (get_or byte 0 0) v))
              (λ v'. read_bytes-Keeps n v'))
          s p

    -- What every read keeps, `listen` keeps.
    listen-Keeps : Keeps P (listen h io)
    unfolding listen
    listen-Keeps = bind-Keeps P (read_exact io 6) _ (read_exact-Keeps 6) (λ mbap.
        let pdu_len : ℕ = from_be_bytes (get_or mbap 4 0) (get_or mbap 5 0) in
        bind-Keeps P (or_push h io (h.extend_from_slice tcp_buf mbap []))
          (λ req. read_bytes h io pdu_len req) (or_push-Keeps (h.extend_from_slice tcp_buf mbap []))
          (λ req. read_bytes-Keeps pdu_len req))

module _ {S E : Type 0} {io : Io S E} {log : S → List Move} (logged : IsLogged io log)
    (lawful : IsIo io (traffic_of log)) where
  abbrev Anything : Option E → S → Type 0
  Anything _ _ = Unit {0}

  -- The data is all that is added to the log.
  pub write_all-Logged :
      (l : List Move) (bytes : List ℕ) (s : S)
      → log s ≡ l
      → Ensures
          (λ _ s'. log s' ≡ l ++ map sends bytes)
          Anything
          (write_all io bytes s).0
          (write_all io bytes s).1
  write_all-Logged l bytes s e =
      let out : List ℕ = sent_of l in
      let inn : List ℕ = received_of l in
      let run = write_all io bytes s in
      Ensures-weaken (λ _ s'. At (traffic_of log) (out ++ bytes) inn s' × Told logged l s')
        (λ _ s'. log s' ≡ l ++ map sends bytes)
        (λ e' s'. WroteSome lawful out inn bytes e' s' × Told logged l s') Anything run.0 run.1
        (Ensures-and (Told logged l) (λ _ s'. At (traffic_of log) (out ++ bytes) inn s')
          (WroteSome lawful out inn bytes) run.0 run.1
          (write_all-wrote lawful out inn bytes s (ap sent_of e, ap received_of e))
          (write_all-Keeps io (Told logged l) (write-Told logged l) bytes s
            ([], e ∙ sym (append-nil l))))
        (λ _ s' (a, (w, k)). told l w bytes (log s') k a.0) (λ _ _ _. tt)

  module _ {h : Heapless} (vec : IsHeapless h) where
    -- A frame that `listen` returns, which is all that is added to the log.
    abbrev pub Read : List Move → List ℕ → S → Type 0
    Read l frame s =
        (length frame ≡ 6 + from_be_bytes (get_or frame 4 0) (get_or frame 5 0))
        × (length frame ≤ tcp_buf)
        × (log s ≡ l ++ map receives frame)

    pub listen-Logged :
        (l : List Move) (s : S)
        → log s ≡ l
        → Ensures (Read l) (λ _ _. Unit {0}) (listen h io s).0 (listen h io s).1
    listen-Logged l s e =
        let out : List ℕ = sent_of l in
        let inn : List ℕ = received_of l in
        let run = listen h io s in
        Ensures-weaken (λ frame s'. IsTcpFrame lawful vec out inn frame s' × Heard logged l s')
          (Read l) (λ e' s'. Quiet lawful out e' s' × Heard logged l s') (λ _ _. Unit {0}) run.0
          run.1
          (Ensures-and (Heard logged l) (IsTcpFrame lawful vec out inn) (Quiet lawful out) run.0
            run.1 (listen-IsTcpFrame lawful vec out inn s (ap sent_of e, ap received_of e))
            (listen-Keeps io (Heard logged l) (read-Heard logged l) h s
              ([], e ∙ sym (append-nil l))))
          (λ frame s' ((size, room, _, a), (w, k)). (size, room, heard l w frame (log s') k a.1))
          (λ _ _ _. tt)
