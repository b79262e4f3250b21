-- ===== src/Connection/Conversation.antt =====
-- Cycle after cycle of src/connection.rs: a conversation of one client with one device.
use modbus_bridge_rs.Base.{ℕ, ◌≡◌, refl, Option, List, [], ◌∷◌, ◌++◌, length, map, concat_map}
use mathlib.Core.List.{append_assoc, append-nil}
use modbus_bridge_rs.Base.Outcome.{calls}
use modbus_bridge_rs.Base.Runs.{Runs, calls-suc}
use modbus_bridge_rs.Io.{Traffic}
use modbus_bridge_rs.Ports.{Ports, IsPorts, IsLive}
use modbus_bridge_rs.Rtu.Replies.{IsResponseAdu}
use modbus_bridge_rs.Tcp.Success.{IsTcpAdu}
use modbus_bridge_rs.Event.{BridgeEvent}
use modbus_bridge_rs.Connection.{Connection, Cycle, next}
use modbus_bridge_rs.Connection.Success.{
  bus_frame, net_frame, request_event, Between, Serves, next-Serves,
}

-- A request of the client and the response of the device.
pub record Turn : Type 0 where
  pub req : List ℕ
  pub resp : List ℕ

-- From the given traffic on, the client asks these requests and the device answers them, in turn.
-- A request may depend on the responses before it, and each side may have said more already.
pub data Talk (device client : List ℕ → List ℕ)
    : List ℕ → List ℕ → List ℕ → List ℕ → List Turn → Type 0 where
  over :
      (bus_out bus_in net_out net_in : List ℕ) → Talk device client bus_out bus_in net_out net_in []
  turn :
      (bus_out bus_in net_out net_in : List ℕ) (req resp more_bus more_net : List ℕ)
      (turns : List Turn)
      → IsTcpAdu req
      → IsResponseAdu resp
      → client net_out ≡ net_in ++ (req ++ more_net)
      → device (bus_out ++ bus_frame req) ≡ bus_in ++ (resp ++ more_bus)
      → Talk device client
          (bus_out ++ bus_frame req)
          (bus_in ++ resp)
          (net_out ++ net_frame req resp)
          (net_in ++ req)
          turns
      → Talk device client bus_out bus_in net_out net_in (record { req = req; resp = resp } ∷ turns)

module _ {S TX TS D SE TE : Type 0} {p : Ports S TX TS SE TE} {bus : Traffic S} {net : Traffic TS}
    {bus_script : S → List ℕ → List ℕ} {net_script : TS → List ℕ → List ℕ}
    (lawful : IsPorts p bus net) (live : IsLive p bus net bus_script net_script)
    (device client : List ℕ → List ℕ) (limits : Option ℕ × Option ℕ) where
  -- The traffic after the given turns.
  abbrev pub After : List ℕ → List ℕ → List ℕ → List ℕ → List Turn → Connection S TX TS D → Type 0
  After bus_out bus_in net_out net_in turns =
      Between lawful live device client limits (bus_out ++ concat_map (λ x. bus_frame x.req) turns)
        (bus_in ++ concat_map (λ x. x.resp) turns)
        (net_out ++ concat_map (λ x. net_frame x.req x.resp) turns)
        (net_in ++ concat_map (λ x. x.req) turns)

  -- Calls that serve one turn each serve a conversation.
  pub calls_of-serve :
      (m : Cycle S TX TS D SE TE BridgeEvent)
      → Serves lawful live device client limits m
      → (bus_out bus_in net_out net_in : List ℕ) (turns : List Turn) (c : Connection S TX TS D)
      → Talk device client bus_out bus_in net_out net_in turns
      → Between lawful live device client limits bus_out bus_in net_out net_in c
      → Runs
          (calls (length turns) m)
          c
          (map (λ x. request_event x.req) turns)
          (After bus_out bus_in net_out net_in turns)
  calls_of-serve m serves bus_out bus_in net_out net_in [] c talk f =
      (c, refl, rw (append-nil bus_out, append-nil bus_in, append-nil net_out, append-nil net_in) f)
  calls_of-serve m serves bus_out bus_in net_out net_in (_ ∷ _) c
        (turn _ _ _ _ req resp more_bus more_net turns asked answers en eb rest) f =
      calls-suc m (length turns) c (request_event req) (map (λ x. request_event x.req) turns)
        (Between lawful live device client limits (bus_out ++ bus_frame req) (bus_in ++ resp)
          (net_out ++ net_frame req resp) (net_in ++ req))
        (After bus_out bus_in net_out net_in (record { req = req; resp = resp } ∷ turns))
        (serves bus_out bus_in net_out net_in req resp more_bus more_net c asked answers f en eb)
        (λ c' f'.
          rw
            (
              append_assoc bus_out (bus_frame req) (concat_map (λ x. bus_frame x.req) turns),
              append_assoc bus_in resp (concat_map (λ x. x.resp) turns),
              append_assoc net_out (net_frame req resp)
                  (concat_map (λ x. net_frame x.req x.resp) turns),
              append_assoc net_in req (concat_map (λ x. x.req) turns),
            )
            at
            (calls_of-serve m serves (bus_out ++ bus_frame req) (bus_in ++ resp)
              (net_out ++ net_frame req resp) (net_in ++ req) turns c' rest f'))

  -- As many calls of `next` as a client and a device have turns return the events of the
  -- requests, in their order; every request has gone to the device once, and every response to
  -- the client once, in the order of the requests and each under the id of its own request.
  pub calls-serve :
      (bus_out bus_in net_out net_in : List ℕ) (turns : List Turn) (c : Connection S TX TS D)
      → Talk device client bus_out bus_in net_out net_in turns
      → Between lawful live device client limits bus_out bus_in net_out net_in c
      → Runs
          (calls (length turns) (next p))
          c
          (map (λ x. request_event x.req) turns)
          (After bus_out bus_in net_out net_in turns)
  calls-serve = calls_of-serve (next p) (next-Serves lawful live device client limits)
