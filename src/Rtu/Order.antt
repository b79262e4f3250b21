-- ===== src/Rtu/Order.antt =====
-- The order of the bytes on the bus in `send_and_receive` of src/rtu.rs.
use modbus_bridge_rs.Base.{
  ℕ, zero, suc, ◌+◌, ◌-◌, ◌≤◌, ◌≡◌, ◌⊎◌, inl, inr, refl, sym, ap, ◌∙◌, Bool, true, false, Option,
  List, [], ◌∷◌, ◌++◌, arith, length, take, take_all, get_or, ltb, Bool-cases, map,
}
use mathlib.Core.List.{append_assoc, append-nil}
use modbus_bridge_rs.Base.Outcome.{
  Result, ok, err, Outcome, done, fail, stalled, Exec, ◌>>◌, map_fail,
}
use modbus_bridge_rs.Base.Ensures.{Ensures, Ensures-bind, Ensures-weaken, Ensures-map_fail}
use modbus_bridge_rs.Error.{ModbusError}
use modbus_bridge_rs.Heapless.{Heapless, IsHeapless}
use modbus_bridge_rs.Frame.{FrameError, check_crc, rtu_response_remaining, response_cap}
use modbus_bridge_rs.Io.{Io, IsIo, OutputPin, write_all}
use modbus_bridge_rs.Io.Order.{
  Move, sends, receives, sent_of, received_of, traffic_of, IsLogged, Keeps, bind-Keeps, Ensures-and,
  write_all-Keeps, Heard, Told, told, heard, read-Heard, write-Told, flush-Told,
}
use modbus_bridge_rs.Rtu.{
  ModbusRtu, RtuError, after_read, read_exact_loop, read_exact, checked, or_push, read_bytes,
  receive, on_serial, drive_high, drive_low, send, send_and_receive,
}
use modbus_bridge_rs.Rtu.Frames.{response_length, IsResponse, receive-IsResponse}
use modbus_bridge_rs.Rtu.Read.{Quiet}
use modbus_bridge_rs.Rtu.Send.{Transmitted, Broken, Broken-prefix, send-Transmitted, on_serial-post}

module _ {S E : Type 0} (io : Io S E) (P : S → Type 0) (kept : (n : ℕ) → Keeps P (io.read n)) where
  after_read-Keeps :
      (rest : List ℕ → ℕ → Exec S (RtuError E) (List ℕ)) (buf : List ℕ) (attempt : ℕ)
      (r : Outcome E (List ℕ))
      → ((buf' : List ℕ) (attempt' : ℕ) → Keeps P (rest buf' attempt'))
      → Keeps P (after_read io rest buf attempt r)
  after_read-Keeps rest buf attempt (done []) k s p = p
  after_read-Keeps rest buf attempt (done (b ∷ bytes)) k s p = k (buf ++ (b ∷ bytes)) attempt s p
  after_read-Keeps rest buf attempt (fail e) k s p = elim (Bool-cases (ltb 10 attempt)) [
    | inl over ↦ rw over p
    | inr more ↦ rw more (k buf (attempt + 1) s p)
  ]
  after_read-Keeps rest buf attempt stalled k s p = p

  read_exact_loop-Keeps :
      (fuel len : ℕ) (buf : List ℕ) (attempt : ℕ)
      → Keeps P (read_exact_loop io fuel len buf attempt)
  unfolding read_exact_loop
  read_exact_loop-Keeps zero len buf attempt s p = p
  read_exact_loop-Keeps (suc fuel) len buf attempt s p = elim (Bool-cases (ltb (length buf) len)) [
    | inl more ↦ rw more (
        after_read-Keeps (read_exact_loop io fuel len) buf attempt (io.read (len - length buf) s).0
          (read_exact_loop-Keeps fuel len) (io.read (len - length buf) s).1
          (kept (len - length buf) s p))
    | inr full ↦ rw full p
  ]

  read_exact-Keeps : (len : ℕ) → Keeps P (read_exact io len)
  unfolding read_exact
  read_exact-Keeps len = read_exact_loop-Keeps (len + 11) len [] 1

  checked-Keeps : (x : Result FrameError (Unit {0})) (v : List ℕ) → Keeps P (checked {SE = E} x v)
  checked-Keeps (ok _) v s p = p
  checked-Keeps (err e) v s p = p

  module _ (h : Heapless) where
    or_push-Keeps : (x : Bool × List ℕ) → Keeps P (or_push h io x)
    or_push-Keeps (true, v) s p = p
    or_push-Keeps (false, v) s p = p

    read_bytes-Keeps : (cap n : ℕ) (v : List ℕ) → Keeps P (read_bytes h io cap n v)
    unfolding read_bytes
    read_bytes-Keeps cap zero v s p = p
    read_bytes-Keeps cap (suc n) v s p =
        bind-Keeps P (read_exact io 1) _ (read_exact-Keeps 1)
          (λ byte.
            bind-Keeps P (or_push h io (h.push cap (get_or byte 0 0) v))
              (λ v'. read_bytes h io cap n v') (or_push-Keeps (h.push cap (get_or byte 0 0) v))
              (λ v'. read_bytes-Keeps cap n v'))
          s p

    -- What every read keeps, `receive` keeps.
    receive-Keeps : Keeps P (receive h io)
    unfolding receive
    receive-Keeps = bind-Keeps P (read_exact io 3) _ (read_exact-Keeps 3) (λ header.
        bind-Keeps P (or_push h io (h.extend_from_slice response_cap header [])) _
          (or_push-Keeps (h.extend_from_slice response_cap header []))
          (λ resp.
            let n : ℕ =
              rtu_response_remaining (get_or header 0 0) (get_or header 1 0) (get_or header 2 0) in
            bind-Keeps P (read_bytes h io response_cap n resp) (λ v. checked (check_crc v) v)
              (read_bytes-Keeps response_cap n resp) (λ v. checked-Keeps (check_crc v) v)))

module _ {S TX E : Type 0} (io : Io S E) (pin : OutputPin TX) (P : S → Type 0)
    (written : (bytes : List ℕ) → Keeps P (io.write bytes)) (flushed : Keeps P io.flush) where
  abbrev OnPort : ModbusRtu S TX → Type 0
  OnPort r = P r.serial

  abbrev lower : Exec (ModbusRtu S TX) E (Unit {0})
  lower = on_serial io.flush >> drive_low io pin

  abbrev transmit : List ℕ → Exec (ModbusRtu S TX) E (Unit {0})
  transmit payload = on_serial (write_all io payload) >> lower

  abbrev raise_pin : List ℕ → Exec (ModbusRtu S TX) E (Unit {0})
  raise_pin payload = drive_high io pin >> transmit payload

  -- What every write and flush keeps, `send` keeps.
  send-Keeps : (payload : List ℕ) → Keeps OnPort (send io pin payload)
  unfolding send
  send-Keeps payload =
      bind-Keeps OnPort (on_serial io.flush) (λ _. raise_pin payload) (λ r. flushed r.serial)
        (λ _.
          bind-Keeps OnPort (drive_high io pin) (λ _. transmit payload) (λ _ k. k)
            (λ _.
              bind-Keeps OnPort (on_serial (write_all io payload)) (λ _. lower)
                (λ r. write_all-Keeps io P written payload r.serial)
                (λ _.
                  bind-Keeps OnPort (on_serial io.flush) (λ _. drive_low io pin)
                    (λ r. flushed r.serial) (λ _ _ k. k))))

module _ {S TX E : Type 0} {io : Io S E} (pin : OutputPin TX) {log : S → List Move}
    (logged : IsLogged io log) (lawful : IsIo io (traffic_of log)) {h : Heapless}
    (vec : IsHeapless h) where
  -- The request has gone out, and after it the response has come in, with the pin driven low again.
  abbrev pub Answered : List Move → List ℕ → TX → List ℕ → ModbusRtu S TX → Type 0
  Answered l req tx resp r =
      (check_crc resp ≡ ok tt)
      × (length resp ≡ response_length resp)
      × (length resp ≤ 260)
      × (r.tx_en ≡ (pin.set_low (pin.set_high tx).1).1)
      × (log r.serial ≡ l ++ (map sends req ++ map receives resp))

  -- A prefix of the request has gone out, and only if it is whole some bytes have come in.
  abbrev pub Interrupted : List Move → List ℕ → Option (RtuError E) → ModbusRtu S TX → Type 0
  Interrupted l req e r =
      (n : ℕ) × (w : List ℕ) × ((w ≡ []) ⊎ (length req ≡ n))
      × (log r.serial ≡ l ++ (map sends (take n req) ++ map receives w))

  abbrev Sent : List Move → List ℕ → TX → Unit {0} → ModbusRtu S TX → Type 0
  Sent l req tx _ r =
      (log r.serial ≡ l ++ map sends req) × (r.tx_en ≡ (pin.set_low (pin.set_high tx).1).1)

  send-Sent :
      (l : List Move) (req : List ℕ) (r : ModbusRtu S TX)
      → log r.serial ≡ l
      → Ensures
          (Sent l req r.tx_en)
          (Interrupted l req)
          (map_fail {F = RtuError E} ModbusError.serial (send io pin req) r).0
          (map_fail {F = RtuError E} ModbusError.serial (send io pin req) r).1
  send-Sent l req r e =
      let Whole : Unit {0} → ModbusRtu S TX → Type 0 = λ _ r'.
        Transmitted pin lawful (sent_of l) (received_of l) req r.tx_en r'
        × Told logged l r'.serial in
      let Part : Option E → ModbusRtu S TX → Type 0 = λ e' r'.
        Broken pin lawful (sent_of l) (received_of l) req r.tx_en e' r' × Told logged l r'.serial in
      let run = send io pin req r in
      Ensures-map_fail ModbusError.serial (Sent l req r.tx_en) Part (Interrupted l req) run.0 run.1
        (Ensures-weaken Whole (Sent l req r.tx_en) Part Part run.0 run.1
          (Ensures-and (λ r'. Told logged l r'.serial)
            (λ _ r'. Transmitted pin lawful (sent_of l) (received_of l) req r.tx_en r')
            (Broken pin lawful (sent_of l) (received_of l) req r.tx_en) run.0 run.1
            (send-Transmitted pin lawful (sent_of l) (received_of l) req r.tx_en r
              (ap sent_of e, ap received_of e) refl)
            (send-Keeps io pin (Told logged l) (write-Told logged l) (flush-Told logged l) req r
              ([], e ∙ sym (append-nil l))))
          (λ _ r' (t, (w, e')). (told l w req (log r'.serial) e' t.0.0, t.1)) (λ _ _ q. q))
        (λ e' e'' r' (b, (w, k)).
          let (n, a) = Broken-prefix pin lawful (sent_of l) (received_of l) req r.tx_en e' r' b in
          (
            n,
            [],
            inl refl,
            rw (append-nil (map sends (take n req))) (told l w (take n req) (log r'.serial) k a.0),
          ))

  receive-Answered :
      (l : List Move) (req : List ℕ) (tx : TX) (r : ModbusRtu S TX)
      → Sent l req tx tt r
      → Ensures
          (Answered l req tx)
          (Interrupted l req)
          (on_serial (receive h io) r).0
          (on_serial (receive h io) r).1
  receive-Answered l req tx r (e, low) =
      let l' : List Move = l ++ map sends req in
      let run = receive h io r.serial in
      let Resp : List ℕ → S → Type 0 = IsResponse lawful (sent_of l') (received_of l') in
      let Calm : Option (RtuError E) → S → Type 0 = Quiet lawful (sent_of l') in
      let D : List ℕ → S → Type 0 = λ resp s. Resp resp s × Heard logged l' s in
      let B : Option (RtuError E) → S → Type 0 = λ e' s. Calm e' s × Heard logged l' s in
      Ensures-weaken (λ resp r'. D resp r'.serial × (r'.tx_en ≡ r.tx_en)) (Answered l req tx)
        (λ e' r'. B e' r'.serial × (r'.tx_en ≡ r.tx_en)) (Interrupted l req)
        (on_serial (receive h io) r).0 (on_serial (receive h io) r).1
        (on_serial-post D B (receive h io) r (
          Ensures-and (Heard logged l') Resp Calm run.0 run.1
            (receive-IsResponse lawful vec (sent_of l') (received_of l') r.serial
              (ap sent_of e, ap received_of e))
            (receive-Keeps io (Heard logged l') (read-Heard logged l') h r.serial
              ([], e ∙ sym (append-nil l')))))
        (λ resp r' (((valid, size, fits, _, a), (w, k)), same). (
          valid,
          size,
          fits,
          same ∙ low,
          heard l' w resp (log r'.serial) k a.1
              ∙ append_assoc l (map sends req) (map receives resp),
        ))
        (λ e' r' ((_, (w, k)), same). (
          length req,
          w,
          inr refl,
          rw (take_all (length req) req (omega arith))
              (k ∙ append_assoc l (map sends req) (map receives w)),
        ))

  -- On a port that logs the bytes in the order in which they go over the bus, `send_and_receive`
  -- sends the whole request and then reads the response, and nothing else: its result is a
  -- response with a valid CRC and of the length that its code and byte count state, read after the
  -- last byte of the request had been sent, with the pin driven high and low again. When it fails
  -- or stalls a prefix of the request has been sent, and nothing has been read unless that is the
  -- whole of it.
  pub send_and_receive-Answered :
      (l : List Move) (req : List ℕ) (r : ModbusRtu S TX)
      → log r.serial ≡ l
      → Ensures
          (Answered l req r.tx_en)
          (Interrupted l req)
          (send_and_receive h io pin req r).0
          (send_and_receive h io pin req r).1
  unfolding send_and_receive
  send_and_receive-Answered l req r e =
      Ensures-bind (Sent l req r.tx_en) (Answered l req r.tx_en) (Interrupted l req)
        (map_fail ModbusError.serial (send io pin req)) (λ _. on_serial (receive h io)) r
        (send-Sent l req r e) (λ _ r' q. receive-Answered l req r.tx_en r' q)
