-- ===== src/Rtu/Tracking.antt =====
-- The transport of src/rtu.rs on a port that follows another one until it is cut off: it does the
-- same until then.
use modbus_bridge_rs.Base.{
  ℕ, zero, suc, ◌+◌, ◌-◌, ◌≡◌, refl, ap, inl, inr, none, List, [], ◌∷◌, ◌++◌, Bool, true, false,
  ltb, ◌==◌, ◌||◌, length, get_or, Bool-cases,
}
use modbus_bridge_rs.Base.Outcome.{Result, ok, err, Outcome, done, fail, stalled, Exec, map_fail}
use modbus_bridge_rs.Base.Tracks.{Tracks, Matches, bind-Tracks, map_fail-Tracks}
use modbus_bridge_rs.Error.{ModbusError}
use modbus_bridge_rs.Heapless.{Heapless}
use modbus_bridge_rs.Frame.{FrameError, check_crc, rtu_response_remaining, response_cap}
use modbus_bridge_rs.Io.{Io, OutputPin, write_all}
use modbus_bridge_rs.Io.Tracking.{IsFollower, write_all-Tracks}
use modbus_bridge_rs.Rtu.{
  ModbusRtu, RtuError, rtu_buf, after_read, read_exact_loop, read_exact, checked, or_push,
  read_bytes, listen_rest, listen, receive, on_serial, drive_high, drive_low, send,
  send_and_receive,
}

module _ {S' S E : Type 0} {R : S' → S → Type 0} {io' : Io S' E} {io : Io S E}
    (follows : IsFollower R io' io) where
  after_read-Matches :
      (rest' : List ℕ → ℕ → Exec S' (RtuError E) (List ℕ))
      (rest : List ℕ → ℕ → Exec S (RtuError E) (List ℕ))
      → ((buf : List ℕ) (attempt : ℕ) → Tracks R none (rest' buf attempt) (rest buf attempt))
      → (buf : List ℕ) (attempt : ℕ) (x' : Outcome E (List ℕ) × S') (x : Outcome E (List ℕ) × S)
      → Matches R none x' x
      → Matches R none
          (after_read io' rest' buf attempt x'.0 x'.1)
          (after_read io rest buf attempt x.0 x.1)
  after_read-Matches rest' rest q buf attempt x' x (inl cut) = rw cut (inl refl)
  after_read-Matches rest' rest q buf attempt x' x (inr (same, r)) = rw same (go x.0 x'.1 x.1 r)
    where
      go :
          (o : Outcome E (List ℕ)) (s' : S') (s : S)
          → R s' s
          → Matches R none
              (after_read io' rest' buf attempt o s')
              (after_read io rest buf attempt o s)
      go (done []) s' s r = inr (refl, r)
      go (done (b ∷ bytes)) s' s r = q (buf ++ (b ∷ bytes)) attempt s' s r
      go (fail e) s' s r = elim (Bool-cases (ltb 10 attempt)) [
        | inl over ↦ rw over (inr (refl, r))
        | inr again ↦ rw again (q buf (attempt + 1) s' s r)
      ]
      go stalled s' s r = inl refl

  read_exact_loop-Tracks :
      (fuel len : ℕ) (buf : List ℕ) (attempt : ℕ)
      → Tracks R none
          (read_exact_loop io' fuel len buf attempt)
          (read_exact_loop io fuel len buf attempt)
  unfolding read_exact_loop
  read_exact_loop-Tracks zero len buf attempt s' s r = inl refl
  read_exact_loop-Tracks (suc fuel) len buf attempt s' s r =
      elim (Bool-cases (ltb (length buf) len)) [
        | inl more ↦ rw more (
            after_read-Matches (read_exact_loop io' fuel len) (read_exact_loop io fuel len)
              (read_exact_loop-Tracks fuel len) buf attempt (io'.read (len - length buf) s')
              (io.read (len - length buf) s) (follows.read_tracks (len - length buf) s' s r))
        | inr full ↦ rw full (inr (refl, r))
      ]

  read_exact-Tracks : (len : ℕ) → Tracks R none (read_exact io' len) (read_exact io len)
  unfolding read_exact
  read_exact-Tracks len = read_exact_loop-Tracks (len + 11) len [] 1

  checked-Tracks :
      (x : Result FrameError (Unit {0})) (v : List ℕ)
      → Tracks R none (checked {SE = E} x v) (checked {SE = E} x v)
  checked-Tracks (ok _) v s' s r = inr (refl, r)
  checked-Tracks (err e) v s' s r = inr (refl, r)

  module _ (h : Heapless) where
    or_push-Tracks : (x : Bool × List ℕ) → Tracks R none (or_push h io' x) (or_push h io x)
    or_push-Tracks (true, v) s' s r = inr (refl, r)
    or_push-Tracks (false, v) s' s r = inr (refl, r)

    read_bytes-Tracks :
        (cap n : ℕ) (v : List ℕ)
        → Tracks R none (read_bytes h io' cap n v) (read_bytes h io cap n v)
    unfolding read_bytes
    read_bytes-Tracks cap zero v s' s r = inr (refl, r)
    read_bytes-Tracks cap (suc n) v s' s r =
        bind-Tracks R none (read_exact io' 1) (read_exact io 1) _ _ (read_exact-Tracks 1)
          (λ byte.
            bind-Tracks R none (or_push h io' (h.push cap (get_or byte 0 0) v))
              (or_push h io (h.push cap (get_or byte 0 0) v)) (read_bytes h io' cap n)
              (read_bytes h io cap n) (or_push-Tracks (h.push cap (get_or byte 0 0) v))
              (read_bytes-Tracks cap n))
          s' s r

    pub receive-Tracks : Tracks R none (receive h io') (receive h io)
    unfolding receive
    receive-Tracks =
        bind-Tracks R none (read_exact io' 3) (read_exact io 3) _ _ (read_exact-Tracks 3) (λ header.
          let n : ℕ =
            rtu_response_remaining (get_or header 0 0) (get_or header 1 0) (get_or header 2 0) in
          bind-Tracks R none (or_push h io' (h.extend_from_slice response_cap header []))
            (or_push h io (h.extend_from_slice response_cap header [])) _ _
            (or_push-Tracks (h.extend_from_slice response_cap header []))
            (λ resp.
              bind-Tracks R none (read_bytes h io' response_cap n resp)
                (read_bytes h io response_cap n resp) (λ v. checked (check_crc v) v)
                (λ v. checked (check_crc v) v) (read_bytes-Tracks response_cap n resp)
                (λ v. checked-Tracks (check_crc v) v)))

    listen_rest-Tracks :
        (fc : ℕ) (req : List ℕ) → Tracks R none (listen_rest h io' fc req) (listen_rest h io fc req)
    listen_rest-Tracks fc req = elim (Bool-cases (fc == 0x0F || fc == 0x10)) [
      | inl multiple ↦ rw multiple (
          bind-Tracks R none (read_exact io' 5) (read_exact io 5) _ _ (read_exact-Tracks 5)
            (λ fixed.
              bind-Tracks R none (or_push h io' (h.extend_from_slice rtu_buf fixed req))
                (or_push h io (h.extend_from_slice rtu_buf fixed req))
                (read_bytes h io' rtu_buf (get_or fixed 4 0 + 2))
                (read_bytes h io rtu_buf (get_or fixed 4 0 + 2))
                (or_push-Tracks (h.extend_from_slice rtu_buf fixed req))
                (read_bytes-Tracks rtu_buf (get_or fixed 4 0 + 2))))
      | inr plain ↦ rw plain (
          bind-Tracks R none (read_exact io' 6) (read_exact io 6)
            (λ rest. or_push h io' (h.extend_from_slice rtu_buf rest req))
            (λ rest. or_push h io (h.extend_from_slice rtu_buf rest req)) (read_exact-Tracks 6)
            (λ rest. or_push-Tracks (h.extend_from_slice rtu_buf rest req)))
    ]

    pub listen-Tracks : Tracks R none (listen h io') (listen h io)
    unfolding listen
    listen-Tracks =
        bind-Tracks R none (read_exact io' 2) (read_exact io 2) _ _ (read_exact-Tracks 2) (λ hdr.
          bind-Tracks R none (or_push h io' (h.extend_from_slice rtu_buf hdr []))
            (or_push h io (h.extend_from_slice rtu_buf hdr [])) _ _
            (or_push-Tracks (h.extend_from_slice rtu_buf hdr []))
            (λ req.
              bind-Tracks R none (listen_rest h io' (get_or hdr 1 0) req)
                (listen_rest h io (get_or hdr 1 0) req) (λ v. checked (check_crc v) v)
                (λ v. checked (check_crc v) v) (listen_rest-Tracks (get_or hdr 1 0) req)
                (λ v. checked-Tracks (check_crc v) v)))

  module _ {TX : Type 0} (pin : OutputPin TX) where
    -- Drivers on ports that follow each other, with their pins alike.
    abbrev pub Alike : ModbusRtu S' TX → ModbusRtu S TX → Type 0
    Alike d' d = R d'.serial d.serial × (d'.tx_en ≡ d.tx_en)

    pub on_serial-Tracks :
        {F A : Type 0} (m' : Exec S' F A) (m : Exec S F A)
        → Tracks R none m' m
        → Tracks Alike none (on_serial m') (on_serial m)
    on_serial-Tracks m' m q d' d (r, t) = elim (q d'.serial d.serial r) [
      | inl cut ↦ inl cut
      | inr (same, r') ↦ inr (same, (r', t))
    ]

    drive_high-Tracks : Tracks Alike none (drive_high io' pin) (drive_high io pin)
    drive_high-Tracks d' d (r, t) = inr (refl, (r, ap (λ x. (pin.set_high x).1) t))

    drive_low-Tracks : Tracks Alike none (drive_low io' pin) (drive_low io pin)
    drive_low-Tracks d' d (r, t) = inr (refl, (r, ap (λ x. (pin.set_low x).1) t))

    pub send-Tracks :
        (payload : List ℕ) → Tracks Alike none (send io' pin payload) (send io pin payload)
    unfolding send
    send-Tracks payload =
        bind-Tracks Alike none (on_serial io'.flush) (on_serial io.flush) _ _
          (on_serial-Tracks io'.flush io.flush follows.flush_tracks)
          (λ _.
            bind-Tracks Alike none (drive_high io' pin) (drive_high io pin) _ _ drive_high-Tracks
              (λ _.
                bind-Tracks Alike none (on_serial (write_all io' payload))
                  (on_serial (write_all io payload)) _ _
                  (on_serial-Tracks (write_all io' payload) (write_all io payload)
                    (write_all-Tracks follows payload))
                  (λ _.
                    bind-Tracks Alike none (on_serial io'.flush) (on_serial io.flush) _ _
                      (on_serial-Tracks io'.flush io.flush follows.flush_tracks)
                      (λ _. drive_low-Tracks))))

    pub send_and_receive-Tracks :
        (h : Heapless) (req : List ℕ)
        → Tracks Alike none (send_and_receive h io' pin req) (send_and_receive h io pin req)
    unfolding send_and_receive
    send_and_receive-Tracks h req =
        bind-Tracks Alike none (map_fail ModbusError.serial (send io' pin req))
          (map_fail ModbusError.serial (send io pin req)) (λ _. on_serial (receive h io'))
          (λ _. on_serial (receive h io))
          (map_fail-Tracks Alike ModbusError.serial (send io' pin req) (send io pin req)
            (send-Tracks req))
          (λ _. on_serial-Tracks (receive h io') (receive h io) (receive-Tracks h))
