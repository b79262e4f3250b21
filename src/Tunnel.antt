-- ===== src/Tunnel.antt =====
-- A session of src/client_session.rs and a connection of src/connection.rs back to back: an RTU
-- master whose requests reach an RTU device over TCP, through both of them.
use modbus_bridge_rs.Base.{
  ℕ, ◌-◌, ◌≤◌, ◌≡◌, refl, sym, ap, none, Option, List, ◌++◌, arith, length, ==_refl, All, map,
  concat_map, length-map, map-map, concat_map-map,
}
use modbus_bridge_rs.Base.Outcome.{ok, calls}
use modbus_bridge_rs.Base.Runs.{Runs}
use modbus_bridge_rs.Frame.{check_crc, parse_rtu_request}
use modbus_bridge_rs.Frame.Crc.{IsU16}
use modbus_bridge_rs.Frame.Check.{body, check_crc-ok}
use modbus_bridge_rs.Frame.Convert.{mbap_frame}
use modbus_bridge_rs.Frame.Parse.{parse_mbap}
use modbus_bridge_rs.Frame.RoundTrip.{request_tid-mbap, length-body}
use modbus_bridge_rs.Io.{Traffic}
use modbus_bridge_rs.Ports.{Ports, IsPorts, IsLive}
use modbus_bridge_rs.Tcp.Success.{IsTcpAdu}
use modbus_bridge_rs.Event.{BridgeEvent}
use modbus_bridge_rs.Connection
use modbus_bridge_rs.Connection.{Connection, or_zero, completed}
use modbus_bridge_rs.Connection.Success as Cycle
use modbus_bridge_rs.Connection.Success.{bus_frame, net_frame, request_event}
use modbus_bridge_rs.Connection.Conversation as Server
use modbus_bridge_rs.ClientSession
use modbus_bridge_rs.ClientSession.{ClientSession}
use modbus_bridge_rs.ClientSession.Relay.{tid_warning}
use modbus_bridge_rs.ClientSession.Success as Session
use modbus_bridge_rs.ClientSession.Conversation as Client

-- A short enough frame with a valid CRC, wrapped for TCP, is one that the other side takes.
wrapped-IsTcpAdu :
    (tid : ℕ) (rtu : List ℕ)
    → check_crc rtu ≡ ok tt
    → length rtu ≤ 257
    → IsTcpAdu (mbap_frame tid (body rtu))
wrapped-IsTcpAdu tid rtu valid short =
    let lo : 4 ≤ length rtu = (check_crc-ok rtu valid).0 in
    let size : length (body rtu) ≡ length rtu - 2 = length-body rtu in
    (omega arith, omega arith, omega arith)

-- Unwrapped, it is the frame again.
unwrapped :
    (tid : ℕ) (rtu : List ℕ) → check_crc rtu ≡ ok tt → bus_frame (mbap_frame tid (body rtu)) ≡ rtu
unwrapped tid rtu valid = sym (check_crc-ok rtu valid).1

no_warning :
    (tid : ℕ) (rtu : List ℕ) → IsU16 tid → tid_warning tid (mbap_frame tid (body rtu)) ≡ none
no_warning tid rtu h = rw (request_tid-mbap tid (body rtu) h, ==_refl tid)

-- A request of the master, the transaction id that the session gives it, and the response of the
-- device.
pub record Trip : Type 0 where
  pub id : ℕ
  pub req : List ℕ
  pub resp : List ℕ

-- Both frames have a valid CRC and fit a TCP frame.
abbrev pub IsTrip : Trip → Type 0
IsTrip x =
    IsU16 x.id
    × (check_crc x.req ≡ ok tt)
    × (length x.req ≤ 257)
    × (check_crc x.resp ≡ ok tt)
    × (length x.resp ≤ 257)

-- What the session sees of it, and what the connection sees of it.
abbrev pub at_session : Trip → Client.Turn
at_session x = record { id = x.id; req = x.req; resp = mbap_frame x.id (body x.resp) }

abbrev pub at_connection : Trip → Server.Turn
at_connection x = record { req = mbap_frame x.id (body x.req); resp = x.resp }

-- What both of them report.
abbrev pub trip_event : Trip → BridgeEvent
trip_event x = completed (or_zero (parse_rtu_request x.req)) none

at_connection-event :
    (x : Trip) → IsTrip x → request_event (mbap_frame x.id (body x.req)) ≡ trip_event x
at_connection-event x h = rw (parse_mbap x.id x.req)

at_connection-net :
    (x : Trip)
    → IsTrip x
    → net_frame (mbap_frame x.id (body x.req)) x.resp ≡ mbap_frame x.id (body x.resp)
at_connection-net x h = rw (request_tid-mbap x.id (body x.req) h.0)

module _ {S TX TS D SE TE : Type 0} {S' TX' TS' D' SE' TE' : Type 0} {p : Ports S TX TS SE TE}
    {p' : Ports S' TX' TS' SE' TE'} {bus : Traffic S} {net : Traffic TS} {bus' : Traffic S'}
    {net' : Traffic TS'} {bus_script : S → List ℕ → List ℕ} {net_script : TS → List ℕ → List ℕ}
    {bus_script' : S' → List ℕ → List ℕ} {net_script' : TS' → List ℕ → List ℕ}
    (lawful : IsPorts p bus net) (live : IsLive p bus net bus_script net_script)
    (lawful' : IsPorts p' bus' net') (live' : IsLive p' bus' net' bus_script' net_script')
    (master server device client : List ℕ → List ℕ) (limits limits' : Option ℕ × Option ℕ) where
  -- A session and a connection back to back are a wire. A master and a device that take trips of
  -- at most 257 bytes each way are both served, if the session hears the frames that the
  -- connection sends and the other way round: the device gets exactly the master's requests,
  -- byte for byte and CRC included, the master gets exactly the device's responses, and both
  -- sides report the same transactions, in order and without a warning.
  pub tunnel :
      (id : ℕ) (master_out master_in out inn device_out device_in out' inn' : List ℕ)
      (trips : List Trip) (s : ClientSession S TX TS D) (c : Connection S' TX' TS' D')
      → All IsTrip trips
      → Client.Talk master server id master_out master_in out inn (map at_session trips)
      → Server.Talk device client device_out device_in out' inn' (map at_connection trips)
      → Session.Between lawful live master server limits id master_out master_in out inn s
      → Cycle.Between lawful' live' device client limits' device_out device_in out' inn' c
      → Runs (calls (length trips) (ClientSession.next p)) s (map trip_event trips) (
          Session.Between lawful live master server limits
            (Client.last_id id (map at_session trips))
            (master_out ++ concat_map (λ x. x.resp) trips)
            (master_in ++ concat_map (λ x. x.req) trips)
            (out ++ concat_map (λ x. mbap_frame x.id (body x.req)) trips)
            (inn ++ concat_map (λ x. mbap_frame x.id (body x.resp)) trips))
        × Runs (calls (length trips) (Connection.next p')) c (map trip_event trips) (
            Cycle.Between lawful' live' device client limits'
              (device_out ++ concat_map (λ x. x.req) trips)
              (device_in ++ concat_map (λ x. x.resp) trips)
              (out' ++ concat_map (λ x. mbap_frame x.id (body x.resp)) trips)
              (inn' ++ concat_map (λ x. mbap_frame x.id (body x.req)) trips))
  tunnel id master_out master_in out inn device_out device_in out' inn' trips s c fit asks gives fs
        fc =
      (
        rw
            (
              length-map at_session trips,
              map-map IsTrip at_session Client.turn_event trip_event trips
                  (λ x h.
                    ap (completed (or_zero (parse_rtu_request x.req))) (no_warning x.id x.resp h.0))
                  fit,
              concat_map-map IsTrip at_session (λ y. bus_frame y.resp) (λ x. x.resp) trips
                  (λ x h. unwrapped x.id x.resp h.3) fit,
              concat_map-map IsTrip at_session (λ y. y.req) (λ x. x.req) trips (λ x h. refl) fit,
              concat_map-map IsTrip at_session (λ y. mbap_frame y.id (body y.req))
                  (λ x. mbap_frame x.id (body x.req)) trips (λ x h. refl) fit,
              concat_map-map IsTrip at_session (λ y. y.resp) (λ x. mbap_frame x.id (body x.resp))
                  trips (λ x h. refl) fit,
            )
            at
            (Client.session_calls-serve lawful live master server limits id master_out master_in out
              inn (map at_session trips) s asks fs),
        rw
            (
              length-map at_connection trips,
              map-map IsTrip at_connection (λ y. request_event y.req) trip_event trips
                  at_connection-event fit,
              concat_map-map IsTrip at_connection (λ y. bus_frame y.req) (λ x. x.req) trips
                  (λ x h. unwrapped x.id x.req h.1) fit,
              concat_map-map IsTrip at_connection (λ y. y.resp) (λ x. x.resp) trips (λ x h. refl)
                  fit,
              concat_map-map IsTrip at_connection (λ y. net_frame y.req y.resp)
                  (λ x. mbap_frame x.id (body x.resp)) trips at_connection-net fit,
              concat_map-map IsTrip at_connection (λ y. y.req) (λ x. mbap_frame x.id (body x.req))
                  trips (λ x h. refl) fit,
            )
            at
            (Server.calls-serve lawful' live' device client limits' device_out device_in out' inn'
              (map at_connection trips) c gives fc),
      )
