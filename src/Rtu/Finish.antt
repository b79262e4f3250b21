-- ===== src/Rtu/Finish.antt =====
-- The calls of src/rtu.rs end, on a port whose calls complete.
use modbus_bridge_rs.Base.{
  ℕ, zero, suc, ◌+◌, Bool, true, false, List, [], ◌||◌, ◌==◌, inl, inr, Bool-cases, get_or,
}
use modbus_bridge_rs.Base.Outcome.{Result, ok, err, Exec, ◌>>◌, map_fail}
use modbus_bridge_rs.Base.Completes.{Completes, bind-Completes, then-Completes, map_fail-Completes}
use modbus_bridge_rs.Error.{ModbusError}
use modbus_bridge_rs.Heapless.{Heapless}
use modbus_bridge_rs.Frame.{FrameError, check_crc, response_cap}
use modbus_bridge_rs.Io.{Io, IsIo, IsPrompt, OutputPin, Traffic, write_all}
use modbus_bridge_rs.Io.WriteAll.{write_all-completes}
use modbus_bridge_rs.Rtu.{
  ModbusRtu, rtu_buf, on_serial, read_exact, or_push, read_bytes, checked, listen_data,
  listen_fixed, listen_rest, listen, receive, drive_high, drive_low, send, send_and_receive,
}
use modbus_bridge_rs.Rtu.Retry.{read_exact-completes}

module _ {S E : Type 0} {io : Io S E} {t : Traffic S} (lawful : IsIo io t) (prompt : IsPrompt io)
    (h : Heapless) where
  exact : (len : ℕ) → Completes (read_exact io len)
  exact = read_exact-completes lawful prompt

  or_push-Completes : (v : Bool × List ℕ) → Completes (or_push h io v)
  or_push-Completes (true, v) s = λ x. cc
  or_push-Completes (false, v) s = λ x. cc

  checked-Completes :
      (r : Result FrameError (Unit {0})) (v : List ℕ) → Completes (checked {S = S} {SE = E} r v)
  checked-Completes (ok _) v s = λ x. cc
  checked-Completes (err e) v s = λ x. cc

  read_bytes-Completes : (cap n : ℕ) (v : List ℕ) → Completes (read_bytes h io cap n v)
  unfolding read_bytes
  read_bytes-Completes cap zero v = λ s x. cc
  read_bytes-Completes cap (suc n) v = bind-Completes (read_exact io 1) _ (exact 1) (λ byte.
      bind-Completes (or_push h io (h.push cap (get_or byte 0 0) v)) (read_bytes h io cap n)
        (or_push-Completes (h.push cap (get_or byte 0 0) v)) (read_bytes-Completes cap n))

  listen_data-Completes : (req : List ℕ) → Completes (listen_data h io req)
  listen_data-Completes req = bind-Completes (read_exact io 5) _ (exact 5) (λ fixed.
      bind-Completes (or_push h io (h.extend_from_slice rtu_buf fixed req)) _
        (or_push-Completes (h.extend_from_slice rtu_buf fixed req))
        (read_bytes-Completes rtu_buf (get_or fixed 4 0 + 2)))

  listen_fixed-Completes : (req : List ℕ) → Completes (listen_fixed h io req)
  listen_fixed-Completes req =
      bind-Completes (read_exact io 6) _ (exact 6)
        (λ rest. or_push-Completes (h.extend_from_slice rtu_buf rest req))

  listen_rest-Completes : (fc : ℕ) (req : List ℕ) → Completes (listen_rest h io fc req)
  listen_rest-Completes fc req = elim (Bool-cases (fc == 0x0F || fc == 0x10)) [
    | inl multiple ↦ rw multiple (listen_data-Completes req)
    | inr plain ↦ rw plain (listen_fixed-Completes req)
  ]

  -- On a port that keeps its contract and whose calls complete, `listen` ends, with a frame or an
  -- error, whatever bytes come in and whatever the vector answers.
  pub listen-Completes : Completes (listen h io)
  unfolding listen
  listen-Completes = bind-Completes (read_exact io 2) _ (exact 2) (λ hdr.
      bind-Completes (or_push h io (h.extend_from_slice rtu_buf hdr [])) _
        (or_push-Completes (h.extend_from_slice rtu_buf hdr []))
        (λ req.
          bind-Completes (listen_rest h io (get_or hdr 1 0) req) _
            (listen_rest-Completes (get_or hdr 1 0) req)
            (λ req'. checked-Completes (check_crc req') req')))

  receive-Completes : Completes (receive h io)
  unfolding receive
  receive-Completes = bind-Completes (read_exact io 3) _ (exact 3) (λ header.
      bind-Completes (or_push h io (h.extend_from_slice response_cap header [])) _
        (or_push-Completes (h.extend_from_slice response_cap header []))
        (λ resp.
          bind-Completes (read_bytes h io response_cap _ resp) _
            (read_bytes-Completes response_cap _ resp)
            (λ resp'. checked-Completes (check_crc resp') resp')))

  module _ {TX : Type 0} (pin : OutputPin TX) where
    -- On such a port `send` ends, with the pin driven by any calls.
    pub send-Completes : (payload : List ℕ) → Completes (send io pin payload)
    unfolding send
    send-Completes payload =
        let lower : Exec (ModbusRtu S TX) E (Unit {0}) = on_serial io.flush >> drive_low io pin in
        let transmit : Exec (ModbusRtu S TX) E (Unit {0}) =
          on_serial (write_all io payload) >> lower in
        let flushed : Completes (on_serial {S = S} {TX = TX} io.flush) =
          λ r. prompt.flush_completes r.serial in
        then-Completes (on_serial io.flush) (drive_high io pin >> transmit) flushed (
          then-Completes (drive_high io pin) transmit (λ r x. cc)
            (then-Completes (on_serial (write_all io payload)) lower
              (λ r. write_all-completes lawful prompt payload r.serial)
              (then-Completes (on_serial io.flush) (drive_low io pin) flushed (λ r x. cc))))

    pub send_and_receive-Completes : (req : List ℕ) → Completes (send_and_receive h io pin req)
    unfolding send_and_receive
    send_and_receive-Completes req =
        bind-Completes (map_fail ModbusError.serial (send io pin req)) _
          (map_fail-Completes ModbusError.serial (send io pin req) (send-Completes req))
          (λ _ r. receive-Completes r.serial)
