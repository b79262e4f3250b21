-- ===== src/Tests/Punctual.antt =====
-- Conversations over the blocking halves of src/connection.rs and src/client_session.rs with
-- timeouts, on ports that take two polls to say that something is there.
use modbus_bridge_rs.Base.{ℕ, refl, List, [], ◌∷◌, none, some, Bool, arith}
use modbus_bridge_rs.Base.Outcome.{calls}
use modbus_bridge_rs.Base.Runs.{Runs}
use modbus_bridge_rs.Connection.{Connection}
use modbus_bridge_rs.Connection.Timed as ConnectionTimed
use modbus_bridge_rs.Connection.Success as Server
use modbus_bridge_rs.Connection.Conversation as Answering
use modbus_bridge_rs.Connection.Punctual.{timed_calls-serve}
use modbus_bridge_rs.ClientSession.{ClientSession}
use modbus_bridge_rs.ClientSession.Timed as SessionTimed
use modbus_bridge_rs.ClientSession.Conversation as Asking
use modbus_bridge_rs.ClientSession.Punctual.{timed_session_calls-serve}
use modbus_bridge_rs.Tests.Devices.{counter}
use modbus_bridge_rs.Tests.Frames.{read_tcp}
use modbus_bridge_rs.Tests.Peers.{
  Peer, script, peers, peers-IsPorts, peers-IsLive, peer_ready, peer_ready-IsPunctual, quiet_peer,
}
use modbus_bridge_rs.Tests.Conversations.{
  asking, device, exchange_turn, two_turns, master, server, session_turn, two_session_turns,
}

abbrev connection : Connection Peer (List Bool) Peer ℕ
connection = record {
  bridge = record {
    rtu = record { serial = quiet_peer device; tx_en = [] };
    rtu_timeout_ms = none;
    tcp_timeout_ms = some 3;
    delay = 0;
  };
  tcp = record { stream = quiet_peer asking; transaction_id = 0 };
}

timed_calls-serve_example :
    Runs
      (calls 2 (ConnectionTimed.next peers peer_ready peer_ready counter))
      connection
      (Server.request_event read_tcp ∷ Server.request_event read_tcp ∷ [])
      (Answering.After peers-IsPorts peers-IsLive
        (script (quiet_peer device))
        (script (quiet_peer asking))
        (none, some 3)
        []
        []
        []
        []
        (exchange_turn ∷ exchange_turn ∷ []))
timed_calls-serve_example =
    timed_calls-serve peers-IsPorts peers-IsLive peer_ready peer_ready-IsPunctual counter
      (script (quiet_peer device)) (script (quiet_peer asking)) (none, some 3) refl
      (omega arith, omega arith) [] [] [] [] (exchange_turn ∷ exchange_turn ∷ []) connection
      two_turns (refl, ((refl, refl), λ _. refl), ((refl, refl), λ _. refl))

abbrev session : ClientSession Peer (List Bool) Peer ℕ
session = record {
  client = record {
    rtu = record { serial = quiet_peer master; tx_en = [] };
    rtu_timeout_ms = some 3;
    tcp_timeout_ms = some 20;
    delay = 0;
  };
  tcp = record { stream = quiet_peer server; transaction_id = 0 };
}

timed_session_calls-serve_example :
    Runs
      (calls 2 (SessionTimed.next peers peer_ready peer_ready counter))
      session
      (Asking.turn_event (session_turn 1) ∷ Asking.turn_event (session_turn 2) ∷ [])
      (Asking.After peers-IsPorts peers-IsLive
        (script (quiet_peer master))
        (script (quiet_peer server))
        (some 3, some 20)
        0
        []
        []
        []
        []
        (session_turn 1 ∷ session_turn 2 ∷ []))
timed_session_calls-serve_example =
    timed_session_calls-serve peers-IsPorts peers-IsLive peer_ready-IsPunctual peer_ready-IsPunctual
      counter (script (quiet_peer master)) (script (quiet_peer server)) (some 3, some 20)
      (omega arith, omega arith) (omega arith, omega arith) 0 [] [] [] []
      (session_turn 1 ∷ session_turn 2 ∷ []) session two_session_turns
      (refl, refl, ((refl, refl), λ _. refl), ((refl, refl), λ _. refl))
