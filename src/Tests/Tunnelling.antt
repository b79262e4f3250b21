-- ===== src/Tests/Tunnelling.antt =====
-- A session of src/client_session.rs and a connection of src/connection.rs back to back.
use modbus_bridge_rs.Base.{ℕ, refl, List, [], ◌∷◌, ◌++◌, none, Bool, arith, All}
use modbus_bridge_rs.Base.Outcome.{calls}
use modbus_bridge_rs.Base.Runs.{Runs}
use modbus_bridge_rs.Frame.{crc, crc_bit, crc_byte}
use modbus_bridge_rs.Frame.Convert.{mbap_frame}
use modbus_bridge_rs.Tcp.Success.{IsTcpAdu}
use modbus_bridge_rs.Bridge.{NoDelay}
use modbus_bridge_rs.Connection
use modbus_bridge_rs.Connection.{Connection}
use modbus_bridge_rs.Connection.Success as Server
use modbus_bridge_rs.Connection.Conversation as Answering
use modbus_bridge_rs.Connection.Conversation.{calls-serve}
use modbus_bridge_rs.ClientSession
use modbus_bridge_rs.ClientSession.{ClientSession}
use modbus_bridge_rs.ClientSession.Success as Session
use modbus_bridge_rs.Tunnel
use modbus_bridge_rs.Tunnel.{Trip, tunnel}
use modbus_bridge_rs.Tests.Frames.{read_pdu, read_frame, check_crc-read_frame}
use modbus_bridge_rs.Tests.Transport.{response_frame}
use modbus_bridge_rs.Tests.Peers.{Peer, script, peers, peers-IsPorts, peers-IsLive, quiet_peer}
use modbus_bridge_rs.Tests.Conversations.{
  check_crc-response_frame, response_frame-IsResponseAdu, connection, session, master, server,
  device, reply_frame, two_session_turns,
}

-- The same session, and a connection that its requests come to.
abbrev tunnelled : List ℕ → List ℕ
tunnelled out = mbap_frame 1 read_pdu ++ mbap_frame 2 read_pdu

abbrev far_connection : Connection Peer (List Bool) Peer NoDelay
far_connection = record connection {
  tcp = record { stream = quiet_peer tunnelled; transaction_id = 0 };
}

abbrev trip : ℕ → Trip
trip id = record { id = id; req = read_frame; resp = response_frame }

trips-IsTrip : All Tunnel.IsTrip (trip 1 ∷ trip 2 ∷ [])
trips-IsTrip = (
  (omega arith, check_crc-read_frame, omega arith, check_crc-response_frame, omega arith),
  ((omega arith, check_crc-read_frame, omega arith, check_crc-response_frame, omega arith), tt),
)

wrapped-IsTcpAdu : (id : ℕ) → IsTcpAdu (mbap_frame id read_pdu)
wrapped-IsTcpAdu id = (omega arith, refl, omega arith)

far_turns :
    Answering.Talk
      (script (quiet_peer device))
      (script (quiet_peer tunnelled))
      []
      []
      []
      []
      (Tunnel.at_connection (trip 1) ∷ Tunnel.at_connection (trip 2) ∷ [])
unfolding crc crc_byte crc_bit
far_turns =
    Answering.turn [] [] [] [] (mbap_frame 1 read_pdu) response_frame [] (mbap_frame 2 read_pdu)
      (Tunnel.at_connection (trip 2) ∷ []) (wrapped-IsTcpAdu 1) response_frame-IsResponseAdu refl
      refl
      (Answering.turn _ _ _ _ (mbap_frame 2 read_pdu) response_frame [] [] [] (wrapped-IsTcpAdu 2)
        response_frame-IsResponseAdu refl refl (Answering.over _ _ _ _))

tunnel_example :
    Runs
      (calls 2 (ClientSession.next peers))
      session
      (Tunnel.trip_event (trip 1) ∷ Tunnel.trip_event (trip 2) ∷ [])
      (Session.Between peers-IsPorts peers-IsLive
        (script (quiet_peer master))
        (script (quiet_peer server))
        (none, none)
        2
        (response_frame ++ response_frame)
        (read_frame ++ read_frame)
        (mbap_frame 1 read_pdu ++ mbap_frame 2 read_pdu)
        (reply_frame 1 ++ reply_frame 2))
    × Runs
        (calls 2 (Connection.next peers))
        far_connection
        (Tunnel.trip_event (trip 1) ∷ Tunnel.trip_event (trip 2) ∷ [])
        (Server.Between peers-IsPorts peers-IsLive
          (script (quiet_peer device))
          (script (quiet_peer tunnelled))
          (none, none)
          (read_frame ++ read_frame)
          (response_frame ++ response_frame)
          (reply_frame 1 ++ reply_frame 2)
          (mbap_frame 1 read_pdu ++ mbap_frame 2 read_pdu))
tunnel_example =
    tunnel peers-IsPorts peers-IsLive peers-IsPorts peers-IsLive (script (quiet_peer master))
      (script (quiet_peer server)) (script (quiet_peer device)) (script (quiet_peer tunnelled))
      (none, none) (none, none) 0 [] [] [] [] [] [] [] [] (trip 1 ∷ trip 2 ∷ []) session
      far_connection trips-IsTrip two_session_turns far_turns
      (refl, refl, ((refl, refl), λ _. refl), ((refl, refl), λ _. refl))
      (refl, ((refl, refl), λ _. refl), ((refl, refl), λ _. refl))
