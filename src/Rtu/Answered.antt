-- ===== src/Rtu/Answered.antt =====
-- `send` and `send_and_receive` of src/rtu.rs on a port at whose other end somebody answers.
use modbus_bridge_rs.Base.{ℕ, ◌≤◌, ◌≡◌, refl, List, ◌++◌, length}
use modbus_bridge_rs.Base.Outcome.{Exec, ok, map_fail}
use modbus_bridge_rs.Base.Runs.{Runs, Runs-then, Runs-map_fail, Runs-zoom}
use modbus_bridge_rs.Error.{ModbusError}
use modbus_bridge_rs.Heapless.{Heapless, IsHeapless}
use modbus_bridge_rs.Frame.{check_crc, response_cap}
use modbus_bridge_rs.Io.{Io, IsIo, OutputPin, Traffic, write_all}
use modbus_bridge_rs.Io.Responsive.{IsResponsive, Faces, flush-runs, write_all-runs}
use modbus_bridge_rs.Rtu.{ModbusRtu, on_serial, drive_high, send, receive, send_and_receive}
use modbus_bridge_rs.Rtu.Frames.{response_length}
use modbus_bridge_rs.Rtu.Replies.{receive-runs}

module _ {S TX E : Type 0} {io : Io S E} (pin : OutputPin TX) {t : Traffic S}
    {script : S → List ℕ → List ℕ} (lawful : IsIo io t) (live : IsResponsive io t script)
    (says : List ℕ → List ℕ) where
  -- A method that touches only the port.
  pub on_serial-runs :
      {A F : Type 0} (m : Exec S F A) (r : ModbusRtu S TX) (a : A) (out inn : List ℕ)
      → Runs m r.serial a (Faces lawful live says out inn)
      → Runs (on_serial m) r a (λ r'. Faces lawful live says out inn r'.serial)
  on_serial-runs m r a out inn runs =
      Runs-zoom (λ u. u.serial) (λ s u. record u { serial = s }) m r a
        (Faces lawful live says out inn) (λ r'. Faces lawful live says out inn r'.serial) runs
        (λ _ p. p)

  abbrev On : List ℕ → List ℕ → ModbusRtu S TX → Type 0
  On out inn r = Faces lawful live says out inn r.serial

  pub send-runs :
      (out inn payload : List ℕ) (r : ModbusRtu S TX)
      → On out inn r
      → Runs (send io pin payload) r tt (On (out ++ payload) inn)
  unfolding send
  send-runs out inn payload r a =
      let driven : ModbusRtu S TX → ModbusRtu S TX =
        λ r'. record r' { tx_en = (pin.set_high r'.tx_en).1 } in
      Runs-then (on_serial io.flush) _ r tt tt (On out inn) (On (out ++ payload) inn)
        (on_serial-runs io.flush r tt out inn (flush-runs lawful live says out inn r.serial a))
        (λ r' a'.
          Runs-then (drive_high io pin) _ r' tt tt (On out inn) (On (out ++ payload) inn)
            (driven r', refl, a')
            (λ u b.
              Runs-then (on_serial (write_all io payload)) _ u tt tt (On (out ++ payload) inn)
                (On (out ++ payload) inn)
                (on_serial-runs (write_all io payload) u tt (out ++ payload) inn
                  (write_all-runs lawful live says out inn payload u.serial b))
                (λ v c.
                  Runs-then (on_serial io.flush) _ v tt tt (On (out ++ payload) inn)
                    (On (out ++ payload) inn)
                    (on_serial-runs io.flush v tt (out ++ payload) inn
                      (flush-runs lawful live says (out ++ payload) inn v.serial c))
                    (λ w d. (record w { tx_en = (pin.set_low w.tx_en).1 }, refl, d)))))

  -- The device answers once it has been told the request.
  pub send_and_receive-runs :
      {h : Heapless} (vec : IsHeapless h) (out inn req resp more : List ℕ) (r : ModbusRtu S TX)
      → check_crc resp ≡ ok tt
      → length resp ≡ response_length resp
      → length resp ≤ response_cap
      → On out inn r
      → says (out ++ req) ≡ inn ++ (resp ++ more)
      → Runs (send_and_receive h io pin req) r resp (On (out ++ req) (inn ++ resp))
  unfolding send_and_receive
  send_and_receive-runs {h} vec out inn req resp more r valid size fits a e =
      Runs-then (map_fail ModbusError.serial (send io pin req)) (on_serial (receive h io)) r tt resp
        (On (out ++ req) inn) (On (out ++ req) (inn ++ resp))
        (Runs-map_fail ModbusError.serial (send io pin req) r tt (On (out ++ req) inn)
          (send-runs out inn req r a))
        (λ r' a'. on_serial-runs (receive h io) r' resp (out ++ req) (inn ++ resp) (
          receive-runs lawful live says vec (out ++ req) inn resp more r'.serial valid size fits a'
            e))
