-- ===== src/ClientSession/Conversation.antt =====
-- Cycle after cycle of src/client_session.rs: a conversation of one master with one server.
use modbus_bridge_rs.Base.{ℕ, ◌≡◌, refl, Option, List, [], ◌∷◌, ◌++◌, length, map, concat_map}
use mathlib.Core.List.{append_assoc, append-nil}
use modbus_bridge_rs.Base.Outcome.{calls}
use modbus_bridge_rs.Base.Runs.{Runs, calls-suc}
use modbus_bridge_rs.Io.{Traffic}
use modbus_bridge_rs.Ports.{Ports, IsPorts, IsLive}
use modbus_bridge_rs.Rtu.Replies.{IsRequestAdu}
use modbus_bridge_rs.Tcp.Success.{IsTcpAdu}
use modbus_bridge_rs.Event.{BridgeEvent}
use modbus_bridge_rs.ClientSession.{ClientSession, Cycle, next}
use modbus_bridge_rs.ClientSession.Success.{
  bus_frame, net_frame, cycle_event, id_after, Between, Serves,
}
use modbus_bridge_rs.ClientSession.Serving.{session_next-Serves}

-- A request of the master, the transaction id that it is sent under, and the server's response.
pub record Turn : Type 0 where
  pub id : ℕ
  pub req : List ℕ
  pub resp : List ℕ

-- The id of the last turn.
abbrev pub last_id : ℕ → List Turn → ℕ
last_id id [] = id
last_id id (x ∷ turns) = last_id x.id turns

-- From the given traffic and transaction id on, the master asks these requests and the server
-- answers them, in turn, and the ids count up and wrap around.
pub data Talk (master server : List ℕ → List ℕ)
    : ℕ → List ℕ → List ℕ → List ℕ → List ℕ → List Turn → Type 0 where
  over :
      (id : ℕ) (bus_out bus_in net_out net_in : List ℕ)
      → Talk master server id bus_out bus_in net_out net_in []
  turn :
      (id : ℕ) (bus_out bus_in net_out net_in : List ℕ) (req resp more_bus more_net : List ℕ)
      (turns : List Turn)
      → IsRequestAdu req
      → IsTcpAdu resp
      → master bus_out ≡ bus_in ++ (req ++ more_bus)
      → server (net_out ++ net_frame (id_after id) req) ≡ net_in ++ (resp ++ more_net)
      → Talk master server
          (id_after id)
          (bus_out ++ bus_frame resp)
          (bus_in ++ req)
          (net_out ++ net_frame (id_after id) req)
          (net_in ++ resp)
          turns
      → Talk master server id bus_out bus_in net_out net_in
          (record { id = id_after id; req = req; resp = resp } ∷ turns)

-- The event of a turn.
abbrev pub turn_event : Turn → BridgeEvent
turn_event x = cycle_event x.id x.req x.resp

module _ {S TX TS D SE TE : Type 0} {p : Ports S TX TS SE TE} {bus : Traffic S} {net : Traffic TS}
    {bus_script : S → List ℕ → List ℕ} {net_script : TS → List ℕ → List ℕ}
    (lawful : IsPorts p bus net) (live : IsLive p bus net bus_script net_script)
    (master server : List ℕ → List ℕ) (limits : Option ℕ × Option ℕ) where
  -- The traffic after the given turns, and the last transaction id.
  abbrev pub After :
      ℕ → List ℕ → List ℕ → List ℕ → List ℕ → List Turn → ClientSession S TX TS D → Type 0
  After id bus_out bus_in net_out net_in turns =
      Between lawful live master server limits (last_id id turns)
        (bus_out ++ concat_map (λ x. bus_frame x.resp) turns)
        (bus_in ++ concat_map (λ x. x.req) turns)
        (net_out ++ concat_map (λ x. net_frame x.id x.req) turns)
        (net_in ++ concat_map (λ x. x.resp) turns)

  -- Calls that serve one turn each serve a conversation.
  pub calls_of-serve :
      (m : Cycle S TX TS D SE TE BridgeEvent)
      → Serves lawful live master server limits m
      → (id : ℕ) (bus_out bus_in net_out net_in : List ℕ) (turns : List Turn)
        (c : ClientSession S TX TS D)
      → Talk master server id bus_out bus_in net_out net_in turns
      → Between lawful live master server limits id bus_out bus_in net_out net_in c
      → Runs
          (calls (length turns) m)
          c
          (map turn_event turns)
          (After id bus_out bus_in net_out net_in turns)
  calls_of-serve m serves id bus_out bus_in net_out net_in [] c talk f =
      (c, refl, rw (append-nil bus_out, append-nil bus_in, append-nil net_out, append-nil net_in) f)
  calls_of-serve m serves id bus_out bus_in net_out net_in (_ ∷ _) c
        (turn _ _ _ _ _ req resp more_bus more_net turns asked answers eb en rest) f =
      let x : Turn = record { id = id_after id; req = req; resp = resp } in
      calls-suc m (length turns) c (turn_event x) (map turn_event turns)
        (Between lawful live master server limits (id_after id) (bus_out ++ bus_frame resp)
          (bus_in ++ req) (net_out ++ net_frame (id_after id) req) (net_in ++ resp))
        (After id bus_out bus_in net_out net_in (x ∷ turns))
        (serves id bus_out bus_in net_out net_in req resp more_bus more_net c asked answers f eb en)
        (λ c' f'.
          rw
            (
              append_assoc bus_out (bus_frame resp) (concat_map (λ y. bus_frame y.resp) turns),
              append_assoc bus_in req (concat_map (λ y. y.req) turns),
              append_assoc net_out (net_frame (id_after id) req)
                  (concat_map (λ y. net_frame y.id y.req) turns),
              append_assoc net_in resp (concat_map (λ y. y.resp) turns),
            )
            at
            (calls_of-serve m serves (id_after id) (bus_out ++ bus_frame resp) (bus_in ++ req)
              (net_out ++ net_frame (id_after id) req) (net_in ++ resp) turns c' rest f'))

  -- As many calls of `next` as a master and a server have turns return the events of the turns, in
  -- their order; every request has gone to the server once, in order and under consecutive
  -- transaction ids modulo 2 ^ 16, and every response to the master once, in order.
  pub session_calls-serve :
      (id : ℕ) (bus_out bus_in net_out net_in : List ℕ) (turns : List Turn)
      (c : ClientSession S TX TS D)
      → Talk master server id bus_out bus_in net_out net_in turns
      → Between lawful live master server limits id bus_out bus_in net_out net_in c
      → Runs
          (calls (length turns) (next p))
          c
          (map turn_event turns)
          (After id bus_out bus_in net_out net_in turns)
  session_calls-serve =
      calls_of-serve (next p) (session_next-Serves lawful live master server limits)
