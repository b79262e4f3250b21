-- ===== src/Connection/Silent.antt =====
-- src/connection.rs with a response timeout, before a device that speaks only when it is asked.
use modbus_bridge_rs.Base.{ℕ, ◌≡◌, ◌<◌, ◌^◌, refl, sym, ◌∙◌, ap, List, some, false}
use modbus_bridge_rs.Base.Outcome.{Result, ok, err, done, ◌>>=◌, ◌>>◌, lift, map_err}
use modbus_bridge_rs.Base.Ensures.{Ensures, Ensures-bind, Ensures-always}
use modbus_bridge_rs.Io.{ReadReady, DelayNs}
use modbus_bridge_rs.Ports.{Ports}
use modbus_bridge_rs.Frame.{tcp_to_rtu}
use modbus_bridge_rs.Event.{BridgeError, BridgeEvent, rtu_io}
use modbus_bridge_rs.Timing.Poll.{wait_ready-silent}
use modbus_bridge_rs.Connection.{Connection, Cycle, read_request, answer, exchange, relay, overflow}
use modbus_bridge_rs.Connection.Timed
use modbus_bridge_rs.Connection.Timed.{wait_stream, wait_serial}

module _ {S TX TS D SE TE : Type 0} (p : Ports S TX TS SE TE) (serial_ready : ReadReady S SE)
    (stream_ready : ReadReady TS TE) (clock : DelayNs D) where
  -- The bus and the settings are as they were.
  abbrev Untouched : Connection S TX TS D → Connection S TX TS D → Type 0
  Untouched c c' =
      (c'.bridge.rtu ≡ c.bridge.rtu) × (c'.bridge.rtu_timeout_ms ≡ c.bridge.rtu_timeout_ms)

  abbrev Unasked :
      {A : Type 0} → Connection S TX TS D → Cycle S TX TS D SE TE A → Connection S TX TS D → Type 0
  Unasked {A} c m c' = Ensures {A = A} (λ _ _. ⊥) (λ _ c''. Untouched c c'') (m c').0 (m c').1

  module _ (c : Connection S TX TS D) (timeout_ms : ℕ) (small : timeout_ms < 2 ^ 32)
      (set : c.bridge.rtu_timeout_ms ≡ some timeout_ms)
      (silent : serial_ready.read_ready c.bridge.rtu.serial
        ≡ (done false, c.bridge.rtu.serial)) where
    wait_serial-times_out :
        (c' : Connection S TX TS D)
        → Untouched c c'
        → Unasked c (wait_serial p serial_ready stream_ready clock) c'
    unfolding wait_serial
    wait_serial-times_out c' (same, kept) =
        rw
          (
            kept ∙ set,
            ap (λ r. r.serial) same,
            wait_ready-silent {SE = SE} {TE = TE} serial_ready clock rtu_io c.bridge.rtu.serial
                silent timeout_ms small c'.bridge.delay,
          )
          (
            ap (λ x. record { serial = c.bridge.rtu.serial; tx_en = x }) (ap (λ r. r.tx_en) same),
            sym set,
          )

    relayed :
        (req : List ℕ) (c' : Connection S TX TS D) (r : Result (BridgeError SE TE) (List ℕ × ℕ))
        → Untouched c c'
        → Unasked c
            (lift r >>= λ x.
              (wait_serial p serial_ready stream_ready clock >> exchange p x.0) >>= relay p req x.1)
            c'
    relayed req c' (err e) u = u
    relayed req c' (ok x) u =
        Ensures-bind (λ _ _. ⊥) (λ _ _. ⊥) (λ _ c''. Untouched c c'')
          (wait_serial p serial_ready stream_ready clock >> exchange p x.0) (relay p req x.1) c'
          (Ensures-bind (λ _ _. ⊥) (λ _ _. ⊥) (λ _ c''. Untouched c c'')
            (wait_serial p serial_ready stream_ready clock) (λ _. exchange p x.0) c'
            (wait_serial-times_out c' u) (λ _ _ q. absurd q))
          (λ _ _ q. absurd q)

    -- With a response timeout set, `next` asks the port for readiness before it sends the request:
    -- before a device that stays silent until it is asked no call returns an event, whatever the
    -- client sends, and no call touches the bus.
    pub timed_next-silent :
        Ensures {A = BridgeEvent}
          (λ _ _. ⊥)
          (λ _ c'.
            (c'.bridge.rtu ≡ c.bridge.rtu) × (c'.bridge.rtu_timeout_ms ≡ c.bridge.rtu_timeout_ms))
          (Timed.next p serial_ready stream_ready clock c).0
          (Timed.next p serial_ready stream_ready clock c).1
    unfolding Timed.next answer wait_stream read_request
    timed_next-silent =
        Ensures-bind (λ _ c'. Untouched c c') (λ _ _. ⊥) (λ _ c'. Untouched c c')
          (wait_stream p serial_ready stream_ready clock) _ c
          (Ensures-always (Untouched c) (wait_stream p serial_ready stream_ready clock c).0
            (wait_stream p serial_ready stream_ready clock c).1 (refl, refl))
          (λ _ c' u.
            Ensures-bind (λ _ c''. Untouched c c'') (λ _ _. ⊥) (λ _ c''. Untouched c c'')
              (read_request p) _ c'
              (Ensures-always (Untouched c) (read_request p c').0 (read_request p c').1 u)
              (λ req c'' u'. relayed req c'' (map_err overflow (tcp_to_rtu p.vec req)) u'))
