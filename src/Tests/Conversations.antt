-- ===== src/Tests/Conversations.antt =====
-- Conversations over src/connection.rs and src/client_session.rs.
use modbus_bridge_rs.Base.{ℕ, ◌≡◌, refl, List, [], ◌∷◌, ◌++◌, none, Bool, arith}
use modbus_bridge_rs.Base.Outcome.{ok, calls}
use modbus_bridge_rs.Base.Runs.{Runs}
use modbus_bridge_rs.Frame.{crc, crc_bit, crc_byte, check_crc, rtu_response_remaining}
use modbus_bridge_rs.Frame.Check.{body}
use modbus_bridge_rs.Frame.Convert.{mbap_frame}
use modbus_bridge_rs.Rtu.Replies.{IsRequestAdu, IsResponseAdu}
use modbus_bridge_rs.Tcp.Success.{IsTcpAdu}
use modbus_bridge_rs.Bridge.{NoDelay, no_delay}
use modbus_bridge_rs.Connection
use modbus_bridge_rs.Connection.{Connection}
use modbus_bridge_rs.Connection.Success as Server
use modbus_bridge_rs.Connection.Conversation as Answering
use modbus_bridge_rs.Connection.Conversation.{calls-serve}
use modbus_bridge_rs.ClientSession
use modbus_bridge_rs.ClientSession.{ClientSession}
use modbus_bridge_rs.ClientSession.Conversation as Asking
use modbus_bridge_rs.ClientSession.Conversation.{session_calls-serve}
use modbus_bridge_rs.Tests.Frames.{read_frame, read_tcp, check_crc-read_frame}
use modbus_bridge_rs.Tests.Transport.{response_frame}
use modbus_bridge_rs.Tests.Peers.{
  Peer, script, peers, peers-IsPorts, peers-IsLive, answering, quiet_peer,
}

pub check_crc-response_frame : check_crc response_frame ≡ ok tt
unfolding check_crc crc crc_byte crc_bit
check_crc-response_frame = refl

pub response_frame-IsResponseAdu : IsResponseAdu response_frame
unfolding rtu_response_remaining
response_frame-IsResponseAdu = (check_crc-response_frame, refl, omega arith)

read_tcp-IsTcpAdu : IsTcpAdu read_tcp
read_tcp-IsTcpAdu = (omega arith, refl, omega arith)

-- A client that asks twice under the same id, and a device that answers each request of 8 bytes.
abbrev pub asking : List ℕ → List ℕ
asking out = read_tcp ++ read_tcp

abbrev pub device : List ℕ → List ℕ
device = answering 8 (response_frame ∷ response_frame ∷ [])

abbrev pub connection : Connection Peer (List Bool) Peer NoDelay
connection = record {
  bridge = record {
    rtu = record { serial = quiet_peer device; tx_en = [] };
    rtu_timeout_ms = none;
    tcp_timeout_ms = none;
    delay = no_delay;
  };
  tcp = record { stream = quiet_peer asking; transaction_id = 0 };
}

abbrev pub exchange_turn : Answering.Turn
exchange_turn = record { req = read_tcp; resp = response_frame }

-- Two requests and their responses.
pub two_turns :
    Answering.Talk
      (script (quiet_peer device))
      (script (quiet_peer asking))
      []
      []
      []
      []
      (exchange_turn ∷ exchange_turn ∷ [])
unfolding crc crc_byte crc_bit
two_turns =
    Answering.turn [] [] [] [] read_tcp response_frame [] read_tcp (exchange_turn ∷ [])
      read_tcp-IsTcpAdu response_frame-IsResponseAdu refl refl
      (Answering.turn _ _ _ _ read_tcp response_frame [] [] [] read_tcp-IsTcpAdu
        response_frame-IsResponseAdu refl refl (Answering.over _ _ _ _))

calls-serve_example :
    Runs
      (calls 2 (Connection.next peers))
      connection
      (Server.request_event read_tcp ∷ Server.request_event read_tcp ∷ [])
      (Answering.After peers-IsPorts peers-IsLive
        (script (quiet_peer device))
        (script (quiet_peer asking))
        (none, none)
        []
        []
        []
        []
        (exchange_turn ∷ exchange_turn ∷ []))
calls-serve_example =
    calls-serve peers-IsPorts peers-IsLive (script (quiet_peer device)) (script (quiet_peer asking))
      (none, none) [] [] [] [] (exchange_turn ∷ exchange_turn ∷ []) connection two_turns
      (refl, ((refl, refl), λ _. refl), ((refl, refl), λ _. refl))

-- A master that asks twice, and a server that answers each request of 12 bytes, under the ids
-- that the session counts.
abbrev pub master : List ℕ → List ℕ
master out = read_frame ++ read_frame

abbrev pub reply_frame : ℕ → List ℕ
reply_frame id = mbap_frame id (body response_frame)

abbrev pub server : List ℕ → List ℕ
server = answering 12 (reply_frame 1 ∷ reply_frame 2 ∷ [])

abbrev pub session : ClientSession Peer (List Bool) Peer NoDelay
session = record {
  client = record {
    rtu = record { serial = quiet_peer master; tx_en = [] };
    rtu_timeout_ms = none;
    tcp_timeout_ms = none;
    delay = no_delay;
  };
  tcp = record { stream = quiet_peer server; transaction_id = 0 };
}

reply_frame-IsTcpAdu : (id : ℕ) → IsTcpAdu (reply_frame id)
reply_frame-IsTcpAdu id = (omega arith, refl, omega arith)

read_frame-IsRequestAdu : IsRequestAdu read_frame
read_frame-IsRequestAdu = (check_crc-read_frame, refl, omega arith)

abbrev pub session_turn : ℕ → Asking.Turn
session_turn id = record { id = id; req = read_frame; resp = reply_frame id }

pub two_session_turns :
    Asking.Talk
      (script (quiet_peer master))
      (script (quiet_peer server))
      0
      []
      []
      []
      []
      (session_turn 1 ∷ session_turn 2 ∷ [])
two_session_turns =
    Asking.turn 0 [] [] [] [] read_frame (reply_frame 1) read_frame [] (session_turn 2 ∷ [])
      read_frame-IsRequestAdu (reply_frame-IsTcpAdu 1) refl refl
      (Asking.turn 1 _ _ _ _ read_frame (reply_frame 2) [] [] [] read_frame-IsRequestAdu
        (reply_frame-IsTcpAdu 2) refl refl (Asking.over 2 _ _ _ _))

session_calls-serve_example :
    Runs
      (calls 2 (ClientSession.next peers))
      session
      (Asking.turn_event (session_turn 1) ∷ Asking.turn_event (session_turn 2) ∷ [])
      (Asking.After peers-IsPorts peers-IsLive
        (script (quiet_peer master))
        (script (quiet_peer server))
        (none, none)
        0
        []
        []
        []
        []
        (session_turn 1 ∷ session_turn 2 ∷ []))
session_calls-serve_example =
    session_calls-serve peers-IsPorts peers-IsLive (script (quiet_peer master))
      (script (quiet_peer server)) (none, none) 0 [] [] [] [] (session_turn 1 ∷ session_turn 2 ∷ [])
      session two_session_turns (refl, refl, ((refl, refl), λ _. refl), ((refl, refl), λ _. refl))
