-- ===== src/Connection/Parts.antt =====
-- The parts of a cycle of src/connection.rs: the relay, and calls on one of the two lines.
use modbus_bridge_rs.Base.{ℕ, ◌≤◌, ◌≡◌, refl, Option, none, List, arith, length}
use modbus_bridge_rs.Base.Outcome.{ok, Exec}
use modbus_bridge_rs.Base.Ensures.{Ensures, Ensures-zoom}
use modbus_bridge_rs.Heapless.{Heapless, IsHeapless}
use modbus_bridge_rs.Frame.{check_crc}
use modbus_bridge_rs.Frame.Check.{body, check_crc-ok}
use modbus_bridge_rs.Frame.Convert.{mbap_frame}
use modbus_bridge_rs.Frame.RoundTrip.{rtu_resp_to_tcp_fits}
use modbus_bridge_rs.Rtu.{ModbusRtu}
use modbus_bridge_rs.Connection.{Connection, on_rtu, on_tcp, relay_response}

-- A response with a valid CRC is relayed under the request's id, with no warning.
pub relay_response-valid :
    {SE TE : Type 0} {h : Heapless} (vec : IsHeapless h) (resp : List ℕ) (tid : ℕ)
    → check_crc resp ≡ ok tt
    → length resp ≤ 260
    → relay_response {SE = SE} {TE = TE} h resp tid ≡ ok (mbap_frame tid (body resp), none)
unfolding relay_response
relay_response-valid vec resp tid valid short =
    rw (rtu_resp_to_tcp_fits vec resp tid (check_crc-ok resp valid).0 (omega arith))

module _ {S TX TS D E A : Type 0} where
  pub on_tcp-post :
      (P : A → TS → Type 0) (B : Option E → TS → Type 0) (m : Exec TS E A)
      (c : Connection S TX TS D)
      → Ensures P B (m c.tcp.stream).0 (m c.tcp.stream).1
      → Ensures
          (λ a c'. P a c'.tcp.stream × (c'.bridge ≡ c.bridge))
          (λ e c'. B e c'.tcp.stream × (c'.bridge ≡ c.bridge))
          (on_tcp m c).0
          (on_tcp m c).1
  on_tcp-post P B m c p =
      Ensures-zoom (λ c'. c'.tcp.stream) (λ s c'. record c' { tcp = record c'.tcp { stream = s } })
        (λ _ _. refl) P B (λ c'. c'.bridge ≡ c.bridge) m c (λ _. refl) p

  pub on_rtu-post :
      (P : A → ModbusRtu S TX → Type 0) (B : Option E → ModbusRtu S TX → Type 0)
      (m : Exec (ModbusRtu S TX) E A) (c : Connection S TX TS D)
      → Ensures P B (m c.bridge.rtu).0 (m c.bridge.rtu).1
      → Ensures
          (λ a c'. P a c'.bridge.rtu × (c'.tcp ≡ c.tcp))
          (λ e c'. B e c'.bridge.rtu × (c'.tcp ≡ c.tcp))
          (on_rtu m c).0
          (on_rtu m c).1
  on_rtu-post P B m c p =
      Ensures-zoom (λ c'. c'.bridge.rtu)
        (λ r c'. record c' { bridge = record c'.bridge { rtu = r } }) (λ _ _. refl) P B
        (λ c'. c'.tcp ≡ c.tcp) m c (λ _. refl) p
