-- ===== src/Rtu/Exchange.antt =====
-- `send_and_receive` of src/rtu.rs: one request and its response on the bus.
use modbus_bridge_rs.Base.{
  ℕ, ◌≡◌, refl, sym, ap, ◌∙◌, inl, inr, Option, List, ◌++◌, arith, take, length, take_all,
}
use mathlib.Core.List.{append-nil}
use modbus_bridge_rs.Base.Outcome.{map_fail}
use modbus_bridge_rs.Base.Ensures.{Ensures, Ensures-bind, Ensures-weaken, Ensures-map_fail}
use modbus_bridge_rs.Error.{ModbusError}
use modbus_bridge_rs.Heapless.{Heapless, IsHeapless}
use modbus_bridge_rs.Io.{Io, IsIo, OutputPin, Traffic, At}
use modbus_bridge_rs.Rtu.{ModbusRtu, RtuError, on_serial, send, receive, send_and_receive}
use modbus_bridge_rs.Rtu.Read.{Quiet}
use modbus_bridge_rs.Rtu.Frames.{IsResponse, receive-IsResponse}
use modbus_bridge_rs.Rtu.Send.{Transmitted, Broken, send-Transmitted, on_serial-post}

module _ {S TX E : Type 0} {io : Io S E} (pin : OutputPin TX) {t : Traffic S}
    (lawful : IsIo io t) where
  -- The request has gone out and a valid response has come in, with the pin driven low again.
  abbrev pub Exchanged : List ℕ → List ℕ → List ℕ → TX → List ℕ → ModbusRtu S TX → Type 0
  Exchanged out base req tx resp r =
      IsResponse lawful (out ++ req) base resp r.serial
      × (r.tx_en ≡ (pin.set_low (pin.set_high tx).1).1)

  -- A prefix of the request has gone out, and nothing else.
  abbrev pub Partial : List ℕ → List ℕ → Option (RtuError E) → ModbusRtu S TX → Type 0
  Partial out req e r = (n : ℕ) × (t.sent r.serial ≡ out ++ take n req)

  Broken-Partial :
      (out base req : List ℕ) (tx : TX) (e : Option E) (e' : Option (RtuError E))
      (r : ModbusRtu S TX)
      → Broken pin lawful out base req tx e r
      → Partial out req e' r
  Broken-Partial out base req tx e e' r (inl (n, a, p)) = (n, a.0)
  Broken-Partial out base req tx e e' r (inr (a, p)) = (0, a.0 ∙ sym (append-nil out))

  module _ {h : Heapless} (vec : IsHeapless h) where
    -- `send_and_receive` sends the request once, whole if it succeeds and a prefix of it if not,
    -- and its result is a response with a valid CRC, which is all that has been read.
    pub send_and_receive-Exchanged :
        (out base req : List ℕ) (r : ModbusRtu S TX)
        → At t out base r.serial
        → Ensures
            (Exchanged out base req r.tx_en)
            (Partial out req)
            (send_and_receive h io pin req r).0
            (send_and_receive h io pin req r).1
    unfolding send_and_receive
    send_and_receive-Exchanged out base req r a =
        Ensures-bind (λ _ r'. Transmitted pin lawful out base req r.tx_en r')
          (Exchanged out base req r.tx_en) (Partial out req)
          (map_fail ModbusError.serial (send io pin req)) (λ _. on_serial (receive h io)) r
          (Ensures-map_fail ModbusError.serial
            (λ _ r'. Transmitted pin lawful out base req r.tx_en r')
            (Broken pin lawful out base req r.tx_en) (Partial out req) (send io pin req r).0
            (send io pin req r).1 (send-Transmitted pin lawful out base req r.tx_en r a refl)
            (λ e e' r' b. Broken-Partial out base req r.tx_en e e' r' b))
          (λ _ r' (a', p').
            Ensures-weaken
              (λ resp r''.
                IsResponse lawful (out ++ req) base resp r''.serial × (r''.tx_en ≡ r'.tx_en))
              (Exchanged out base req r.tx_en)
              (λ e r''. Quiet lawful (out ++ req) e r''.serial × (r''.tx_en ≡ r'.tx_en))
              (Partial out req) (on_serial (receive h io) r').0 (on_serial (receive h io) r').1
              (on_serial-post (IsResponse lawful (out ++ req) base) (Quiet lawful (out ++ req))
                (receive h io) r' (receive-IsResponse lawful vec (out ++ req) base r'.serial a'))
              (λ resp r'' q. (q.0, q.1 ∙ p'))
              (λ e r'' q. (
                length req,
                q.0 ∙ ap (λ l. out ++ l) (sym (take_all (length req) req (omega arith))),
              )))
