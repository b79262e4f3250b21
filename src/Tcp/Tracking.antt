-- ===== src/Tcp/Tracking.antt =====
-- The transport of src/tcp.rs on a stream that follows another one until it is cut off: it does
-- the same until then.
use modbus_bridge_rs.Base.{
  ℕ, zero, suc, ◌+◌, ◌-◌, refl, inl, inr, none, List, [], ◌∷◌, ◌++◌, Bool, true, false, ltb, length,
  get_or, Bool-cases,
}
use modbus_bridge_rs.Base.Outcome.{Outcome, done, fail, stalled, Exec}
use modbus_bridge_rs.Base.Tracks.{Tracks, Matches, bind-Tracks}
use modbus_bridge_rs.Heapless.{Heapless}
use modbus_bridge_rs.Frame.{from_be_bytes}
use modbus_bridge_rs.Io.{Io}
use modbus_bridge_rs.Io.Tracking.{IsFollower}
use modbus_bridge_rs.Tcp.{
  TcpError, tcp_buf, after_read, read_exact_loop, read_exact, or_push, read_bytes, listen,
}

module _ {S' S E : Type 0} {R : S' → S → Type 0} {io' : Io S' E} {io : Io S E}
    (follows : IsFollower R io' io) where
  after_read-Matches :
      (rest' : List ℕ → Exec S' (TcpError E) (List ℕ))
      (rest : List ℕ → Exec S (TcpError E) (List ℕ))
      → ((buf : List ℕ) → Tracks R none (rest' buf) (rest buf))
      → (buf : List ℕ) (x' : Outcome E (List ℕ) × S') (x : Outcome E (List ℕ) × S)
      → Matches R none x' x
      → Matches R none (after_read io' rest' buf x'.0 x'.1) (after_read io rest buf x.0 x.1)
  after_read-Matches rest' rest q buf x' x (inl cut) = rw cut (inl refl)
  after_read-Matches rest' rest q buf x' x (inr (same, r)) = rw same (go x.0 x'.1 x.1 r)
    where
      go :
          (o : Outcome E (List ℕ)) (s' : S') (s : S)
          → R s' s
          → Matches R none (after_read io' rest' buf o s') (after_read io rest buf o s)
      go (done []) s' s r = inr (refl, r)
      go (done (b ∷ bytes)) s' s r = q (buf ++ (b ∷ bytes)) s' s r
      go (fail e) s' s r = inr (refl, r)
      go stalled s' s r = inl refl

  read_exact_loop-Tracks :
      (fuel len : ℕ) (buf : List ℕ)
      → Tracks R none (read_exact_loop io' fuel len buf) (read_exact_loop io fuel len buf)
  unfolding read_exact_loop
  read_exact_loop-Tracks zero len buf s' s r = inl refl
  read_exact_loop-Tracks (suc fuel) len buf s' s r = elim (Bool-cases (ltb (length buf) len)) [
    | inl more ↦ rw more (
        after_read-Matches (read_exact_loop io' fuel len) (read_exact_loop io fuel len)
          (read_exact_loop-Tracks fuel len) buf (io'.read (len - length buf) s')
          (io.read (len - length buf) s) (follows.read_tracks (len - length buf) s' s r))
    | inr full ↦ rw full (inr (refl, r))
  ]

  read_exact-Tracks : (len : ℕ) → Tracks R none (read_exact io' len) (read_exact io len)
  unfolding read_exact
  read_exact-Tracks len = read_exact_loop-Tracks (len + 1) len []

  module _ (h : Heapless) where
    or_push-Tracks : (x : Bool × List ℕ) → Tracks R none (or_push h io' x) (or_push h io x)
    or_push-Tracks (true, v) s' s r = inr (refl, r)
    or_push-Tracks (false, v) s' s r = inr (refl, r)

    read_bytes-Tracks :
        (n : ℕ) (v : List ℕ) → Tracks R none (read_bytes h io' n v) (read_bytes h io n v)
    unfolding read_bytes
    read_bytes-Tracks zero v s' s r = inr (refl, r)
    read_bytes-Tracks (suc n) v s' s r =
        bind-Tracks R none (read_exact io' 1) (read_exact io 1) _ _ (read_exact-Tracks 1)
          (λ byte.
            bind-Tracks R none (or_push h io' (h.push tcp_buf (get_or byte 0 0) v))
              (or_push h io (h.push tcp_buf (get_or byte 0 0) v)) (read_bytes h io' n)
              (read_bytes h io n) (or_push-Tracks (h.push tcp_buf (get_or byte 0 0) v))
              (read_bytes-Tracks n))
          s' s r

    pub listen-Tracks : Tracks R none (listen h io') (listen h io)
    unfolding listen
    listen-Tracks =
        bind-Tracks R none (read_exact io' 6) (read_exact io 6) _ _ (read_exact-Tracks 6) (λ mbap.
          let n : ℕ = from_be_bytes (get_or mbap 4 0) (get_or mbap 5 0) in
          bind-Tracks R none (or_push h io' (h.extend_from_slice tcp_buf mbap []))
            (or_push h io (h.extend_from_slice tcp_buf mbap [])) (read_bytes h io' n)
            (read_bytes h io n) (or_push-Tracks (h.extend_from_slice tcp_buf mbap []))
            (read_bytes-Tracks n))
