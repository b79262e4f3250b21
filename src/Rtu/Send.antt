-- ===== src/Rtu/Send.antt =====
-- `send` and `send_and_receive` of src/rtu.rs: the bytes on the bus and the transmit-enable pin.
use modbus_bridge_rs.Base.{
  ℕ, ◌≡◌, ◌≢◌, refl, sym, ap, ◌∙◌, ◌⊎◌, inl, inr, Option, List, ◌++◌, arith, take, length, take_all,
}
use mathlib.Core.List.{append-nil}
use modbus_bridge_rs.Base.Outcome.{Outcome, done, fail, stalled, Exec, ◌>>◌}
use modbus_bridge_rs.Base.Ensures.{Ensures, Ensures-bind, Ensures-weaken}
use modbus_bridge_rs.Io.{Io, IsIo, OutputPin, Traffic, At, write_all}
use modbus_bridge_rs.Io.WriteAll.{WroteSome, write_all-wrote}
use modbus_bridge_rs.Rtu.{ModbusRtu, on_serial, drive_high, drive_low, send}

module _ {S TX E A : Type 0} where
  -- A method that touches only the port leaves the pin alone.
  pub on_serial-post :
      (D : A → S → Type 0) (B : Option E → S → Type 0) (m : Exec S E A) (r : ModbusRtu S TX)
      → Ensures D B (m r.serial).0 (m r.serial).1
      → Ensures
          (λ a r'. D a r'.serial × (r'.tx_en ≡ r.tx_en))
          (λ e r'. B e r'.serial × (r'.tx_en ≡ r.tx_en))
          (on_serial m r).0
          (on_serial m r).1
  on_serial-post D B m r p = keep (m r.serial).0 (m r.serial).1 p
    where
      keep :
          (o : Outcome E A) (s : S)
          → Ensures D B o s
          → Ensures
              (λ a r'. D a r'.serial × (r'.tx_en ≡ r.tx_en))
              (λ e r'. B e r'.serial × (r'.tx_en ≡ r.tx_en))
              o
              (record r { serial = s })
      keep (done a) s p = (p, refl)
      keep (fail e) s p = (p, refl)
      keep stalled s p = (p, refl)

module _ {S TX E : Type 0} {io : Io S E} (pin : OutputPin TX) {t : Traffic S}
    (lawful : IsIo io t) where
  flush-post :
      (out inn : List ℕ) (s : S)
      → At t out inn s
      → Ensures (λ _ s'. At t out inn s') (λ _ s'. At t out inn s') (io.flush s).0 (io.flush s).1
  flush-post out inn s a =
      always (io.flush s).0 (io.flush s).1
        (lawful.flush_sent s ∙ a.0, lawful.flush_received s ∙ a.1)
    where
      always :
          (o : Outcome E (Unit {0})) (s' : S)
          → At t out inn s'
          → Ensures (λ _ u. At t out inn u) (λ _ u. At t out inn u) o s'
      always (done _) s' p = p
      always (fail e) s' p = p
      always stalled s' p = p

  -- The pin after a transmission that was broken off: not yet raised, with nothing sent, or high.
  abbrev pub Broken : List ℕ → List ℕ → List ℕ → TX → Option E → ModbusRtu S TX → Type 0
  Broken out inn payload tx e r =
      ((n : ℕ) × At t (out ++ take n payload) inn r.serial × (r.tx_en ≡ (pin.set_high tx).1))
      ⊎ (At t out inn r.serial × (r.tx_en ≡ tx))

  pub Broken-prefix :
      (out inn payload : List ℕ) (tx : TX) (e : Option E) (r : ModbusRtu S TX)
      → Broken out inn payload tx e r
      → (n : ℕ) × At t (out ++ take n payload) inn r.serial
  Broken-prefix out inn payload tx e r (inl (n, a, _)) = (n, a)
  Broken-prefix out inn payload tx e r (inr (a, _)) = (0, rw (append-nil out) a)

  abbrev pub Transmitted : List ℕ → List ℕ → List ℕ → TX → ModbusRtu S TX → Type 0
  Transmitted out inn payload tx r =
      At t (out ++ payload) inn r.serial × (r.tx_en ≡ (pin.set_low (pin.set_high tx).1).1)

  module _ (out inn payload : List ℕ) (tx : TX) where
    abbrev Drv : List ℕ → TX → Unit {0} → ModbusRtu S TX → Type 0
    Drv out' tx' _ r = At t out' inn r.serial × (r.tx_en ≡ tx')

    -- A call on the port with the pin at `tx'`, in the middle of a transmission.
    port_step :
        (out' : List ℕ) (tx' : TX) (B : Option E → S → Type 0) (m : Exec S E (Unit {0}))
        (r : ModbusRtu S TX)
        → r.tx_en ≡ tx'
        → Ensures (λ _ s'. At t out' inn s') B (m r.serial).0 (m r.serial).1
        → ((e : Option E) (r' : ModbusRtu S TX)
            → B e r'.serial
            → r'.tx_en ≡ tx'
            → Broken out inn payload tx e r')
        → Ensures (Drv out' tx') (Broken out inn payload tx) (on_serial m r).0 (on_serial m r).1
    port_step out' tx' B m r p e broken =
        Ensures-weaken (λ _ r'. At t out' inn r'.serial × (r'.tx_en ≡ r.tx_en)) (Drv out' tx')
          (λ e' r'. B e' r'.serial × (r'.tx_en ≡ r.tx_en)) (Broken out inn payload tx)
          (on_serial m r).0 (on_serial m r).1 (on_serial-post (λ _ s'. At t out' inn s') B m r e)
          (λ _ r' q. (q.0, q.1 ∙ p)) (λ e' r' q. broken e' r' q.0 (q.1 ∙ p))

    sent_all : {s : S} → At t (out ++ payload) inn s → (n : ℕ) × At t (out ++ take n payload) inn s
    sent_all a =
        (length payload, (a.0 ∙ ap (λ l. out ++ l) (sym (take_all _ payload (omega arith))), a.1))

    abbrev Sends : Unit {0} → ModbusRtu S TX → Type 0
    Sends _ r = Transmitted out inn payload tx r

    abbrev Breaks : Option E → ModbusRtu S TX → Type 0
    Breaks = Broken out inn payload tx

    abbrev high : TX
    high = (pin.set_high tx).1

    abbrev lower : Exec (ModbusRtu S TX) E (Unit {0})
    lower = on_serial io.flush >> drive_low io pin

    abbrev transmit : Exec (ModbusRtu S TX) E (Unit {0})
    transmit = on_serial (write_all io payload) >> lower

    lower-post :
        (r : ModbusRtu S TX)
        → Drv (out ++ payload) high tt r
        → Ensures Sends Breaks (lower r).0 (lower r).1
    lower-post r (a, p) =
        Ensures-bind (Drv (out ++ payload) high) Sends Breaks (on_serial io.flush)
          (λ _. drive_low io pin) r
          (port_step (out ++ payload) high (λ _ s'. At t (out ++ payload) inn s') io.flush r p
            (flush-post (out ++ payload) inn r.serial a)
            (λ e r' b q. inl ((sent_all b).0, (sent_all b).1, q)))
          (λ _ r' (a', p'). (a', ap (λ x. (pin.set_low x).1) p'))

    transmit-post :
        (r : ModbusRtu S TX)
        → Drv out high tt r
        → Ensures Sends Breaks (transmit r).0 (transmit r).1
    transmit-post r (a, p) =
        Ensures-bind (Drv (out ++ payload) high) Sends Breaks (on_serial (write_all io payload))
          (λ _. lower) r
          (port_step (out ++ payload) high (WroteSome lawful out inn payload) (write_all io payload)
            r p (write_all-wrote lawful out inn payload r.serial a)
            (λ e r' (n, b) q. inl (n, b, q)))
          (λ _ r' d. lower-post r' d)

    -- `send` on a port that keeps its contract, from any state of the pin: when it succeeds the
    -- payload has gone out and the pin has been driven high and then low; when it does not, a
    -- prefix has gone out with the pin driven high and not low again, or nothing and the pin is
    -- untouched.
    pub send-Transmitted :
        (r : ModbusRtu S TX)
        → At t out inn r.serial
        → r.tx_en ≡ tx
        → Ensures
            (λ _ r'. Transmitted out inn payload tx r')
            (Broken out inn payload tx)
            (send io pin payload r).0
            (send io pin payload r).1
    unfolding send
    send-Transmitted r a p =
        Ensures-bind (Drv out tx) Sends Breaks (on_serial io.flush)
          (λ _. drive_high io pin >> transmit) r
          (port_step out tx (λ _ s'. At t out inn s') io.flush r p (flush-post out inn r.serial a)
            (λ e r' b q. inr (b, q)))
          (λ _ r' (a', p').
            transmit-post (record r' { tx_en = (pin.set_high r'.tx_en).1 })
              (a', ap (λ x. (pin.set_high x).1) p'))

module _ {S TX E : Type 0} (io : Io S E) (pin : OutputPin TX) where
  abbrev Pin : TX → Option E → ModbusRtu S TX → Type 0
  Pin tx _ r = r.tx_en ≡ tx

  port_keeps_Pin :
      (m : Exec S E (Unit {0})) (r : ModbusRtu S TX) (tx : TX)
      → r.tx_en ≡ tx
      → Ensures (λ _ r'. r'.tx_en ≡ tx) (Pin tx) (on_serial m r).0 (on_serial m r).1
  port_keeps_Pin m r tx p = keep (m r.serial).0
    where
      keep :
          (o : Outcome E (Unit {0}))
          → Ensures (λ _ r'. r'.tx_en ≡ tx) (Pin tx) o (record r { serial = (m r.serial).1 })
      keep (done a) = p
      keep (fail e) = p
      keep stalled = p

  abbrev Whatever : Unit {0} → ModbusRtu S TX → Type 0
  Whatever _ _ = Unit {0}

  transmit_pin :
      (payload : List ℕ) (r : ModbusRtu S TX) (tx : TX)
      → r.tx_en ≡ tx
      → let m = on_serial (write_all io payload) >> (on_serial io.flush >> drive_low io pin) in
        Ensures Whatever (Pin tx) (m r).0 (m r).1
  transmit_pin payload r tx p =
      Ensures-bind (λ _ r'. r'.tx_en ≡ tx) Whatever (Pin tx) (on_serial (write_all io payload))
        (λ _. on_serial io.flush >> drive_low io pin) r
        (port_keeps_Pin (write_all io payload) r tx p)
        (λ _ r' p'.
          Ensures-bind (λ _ r''. r''.tx_en ≡ tx) Whatever (Pin tx) (on_serial io.flush)
            (λ _. drive_low io pin) r' (port_keeps_Pin io.flush r' tx p') (λ _ _ _. tt))

  not_done :
      (tx : TX) (o : Outcome E (Unit {0})) (r : ModbusRtu S TX)
      → Ensures Whatever (Pin tx) o r
      → o ≢ done tt
      → r.tx_en ≡ tx
  not_done tx (done _) r p n = absurd (n refl)
  not_done tx (fail e) r p n = p
  not_done tx stalled r p n = p

  -- Broken off at any point after its first flush, by an error or a stall, `send` leaves the pin
  -- as it drove it for the transmission: high.
  pub send_broken_high :
      (payload : List ℕ) (r : ModbusRtu S TX)
      → (io.flush r.serial).0 ≡ done tt
      → (send io pin payload r).0 ≢ done tt
      → (send io pin payload r).1.tx_en ≡ (pin.set_high r.tx_en).1
  unfolding send
  send_broken_high payload r flushed broken =
      let r' : ModbusRtu S TX = record {
        serial = (io.flush r.serial).1;
        tx_en = (pin.set_high r.tx_en).1;
      } in
      let m = on_serial (write_all io payload) >> (on_serial io.flush >> drive_low io pin) in
      rw flushed (
        not_done (pin.set_high r.tx_en).1 (m r').0 (m r').1
          (transmit_pin payload r' (pin.set_high r.tx_en).1 refl) (rw flushed at broken))
