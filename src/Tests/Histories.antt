-- ===== src/Tests/Histories.antt =====
-- Call after call of src/connection.rs and src/client_session.rs, on ports that log one line.
use modbus_bridge_rs.Base.{ℕ, ◌+◌, refl, List, [], Bool, some}
use modbus_bridge_rs.Base.Outcome.{calls}
use modbus_bridge_rs.Base.Ensures.{Ensures}
use modbus_bridge_rs.Io.{ReadReady}
use modbus_bridge_rs.Io.Order.{Move}
use modbus_bridge_rs.Ports.{Ports, IsBusLogged, IsNetLogged}
use modbus_bridge_rs.Timing.Poll.{IsUnlogged}
use modbus_bridge_rs.Timing.Race.{AsyncDelay}
use modbus_bridge_rs.Connection
use modbus_bridge_rs.Connection.{Connection}
use modbus_bridge_rs.Connection.Timed as ConnectionTimed
use modbus_bridge_rs.Connection.Raced as ConnectionRaced
use modbus_bridge_rs.Connection.History as ConnectionHistory
use modbus_bridge_rs.Connection.History.{calls-Relayed, timed_calls-Relayed, raced_calls-Relayed}
use modbus_bridge_rs.ClientSession
use modbus_bridge_rs.ClientSession.{ClientSession}
use modbus_bridge_rs.ClientSession.Timed as SessionTimed
use modbus_bridge_rs.ClientSession.Raced as SessionRaced
use modbus_bridge_rs.ClientSession.History as SessionHistory
use modbus_bridge_rs.ClientSession.History.{
  session_calls-Relayed, timed_session_calls-Relayed, raced_session_calls-Relayed,
}
use modbus_bridge_rs.Tests.Devices.{counter, pin, vector, vector-IsHeapless}
use modbus_bridge_rs.Tests.Peers.{
  Peer, peer, peer_traffic, peer-IsIo, peer_ready, peer_ready-IsPunctual, quiet_peer,
}
use modbus_bridge_rs.Tests.Recorded.{recorded, record_of, recorded-IsLogged, recorded-IsIo}
use modbus_bridge_rs.Tests.Conversations.{asking, device, master, server}

abbrev Recording : Type 0
Recording = Peer × List Move

-- Asking a recorded peer.
abbrev recorded_ready : ReadReady Recording (Unit {0})
recorded_ready = record {
  read_ready = λ sl. ((peer_ready.read_ready sl.0).0, ((peer_ready.read_ready sl.0).1, sl.1));
}

recorded_ready-IsUnlogged : IsUnlogged recorded_ready (record_of peer)
recorded_ready-IsUnlogged = record { ready_log = λ sl. refl }

-- A delay within which hundreds of calls complete.
abbrev late : AsyncDelay ℕ
late = record { delay_ms = λ ms d. (500, d + ms) }

abbrev bus_ports : Ports Recording (List Bool) Peer (Unit {0}) (Unit {0})
bus_ports = record { vec = vector; serial = recorded peer; stream = peer; pin = pin }

bus_ports-IsBusLogged : IsBusLogged bus_ports (record_of peer) peer_traffic
bus_ports-IsBusLogged = record {
  vec_lawful = vector-IsHeapless;
  serial_lawful = recorded-IsIo peer peer-IsIo;
  serial_logged = recorded-IsLogged peer;
  stream_lawful = peer-IsIo;
}

abbrev connection : Connection Recording (List Bool) Peer ℕ
connection = record {
  bridge = record {
    rtu = record { serial = (quiet_peer device, []); tx_en = [] };
    rtu_timeout_ms = some 20;
    tcp_timeout_ms = some 30;
    delay = 0;
  };
  tcp = record { stream = quiet_peer asking; transaction_id = 0 };
}

calls-Relayed_example :
    Ensures
      (ConnectionHistory.Relayed bus_ports-IsBusLogged 2 [] [] [])
      (ConnectionHistory.Stopped bus_ports-IsBusLogged 2 [] [] [])
      (calls 2 (Connection.next bus_ports) connection).0
      (calls 2 (Connection.next bus_ports) connection).1
calls-Relayed_example =
    calls-Relayed bus_ports-IsBusLogged 2 [] [] [] connection (refl, (refl, refl))

timed_calls-Relayed_example :
    Ensures
      (ConnectionHistory.Relayed bus_ports-IsBusLogged 2 [] [] [])
      (ConnectionHistory.Stopped bus_ports-IsBusLogged 2 [] [] [])
      (calls 2 (ConnectionTimed.next bus_ports recorded_ready peer_ready counter) connection).0
      (calls 2 (ConnectionTimed.next bus_ports recorded_ready peer_ready counter) connection).1
timed_calls-Relayed_example =
    timed_calls-Relayed bus_ports-IsBusLogged counter recorded_ready-IsUnlogged
      peer_ready-IsPunctual.quiet 2 [] [] [] connection (refl, (refl, refl))

raced_calls-Relayed_example :
    Ensures
      (ConnectionHistory.Relayed bus_ports-IsBusLogged 2 [] [] [])
      (ConnectionHistory.Stopped bus_ports-IsBusLogged 2 [] [] [])
      (calls 2 (ConnectionRaced.next bus_ports late) connection).0
      (calls 2 (ConnectionRaced.next bus_ports late) connection).1
raced_calls-Relayed_example =
    raced_calls-Relayed bus_ports-IsBusLogged late 2 [] [] [] connection (refl, (refl, refl))

abbrev net_ports : Ports Peer (List Bool) Recording (Unit {0}) (Unit {0})
net_ports = record { vec = vector; serial = peer; stream = recorded peer; pin = pin }

net_ports-IsNetLogged : IsNetLogged net_ports peer_traffic (record_of peer)
net_ports-IsNetLogged = record {
  vec_lawful = vector-IsHeapless;
  serial_lawful = peer-IsIo;
  stream_lawful = recorded-IsIo peer peer-IsIo;
  stream_logged = recorded-IsLogged peer;
}

abbrev session : ClientSession Peer (List Bool) Recording ℕ
session = record {
  client = record {
    rtu = record { serial = quiet_peer master; tx_en = [] };
    rtu_timeout_ms = some 20;
    tcp_timeout_ms = some 30;
    delay = 0;
  };
  tcp = record { stream = (quiet_peer server, []); transaction_id = 0 };
}

session_calls-Relayed_example :
    Ensures
      (SessionHistory.Relayed net_ports-IsNetLogged 2 0 [] [] [])
      (SessionHistory.Stopped net_ports-IsNetLogged 2 0 [] [] [])
      (calls 2 (ClientSession.next net_ports) session).0
      (calls 2 (ClientSession.next net_ports) session).1
session_calls-Relayed_example =
    session_calls-Relayed net_ports-IsNetLogged 2 0 [] [] [] session refl ((refl, refl), refl)

timed_session_calls-Relayed_example :
    Ensures
      (SessionHistory.Relayed net_ports-IsNetLogged 2 0 [] [] [])
      (SessionHistory.Stopped net_ports-IsNetLogged 2 0 [] [] [])
      (calls 2 (SessionTimed.next net_ports peer_ready recorded_ready counter) session).0
      (calls 2 (SessionTimed.next net_ports peer_ready recorded_ready counter) session).1
timed_session_calls-Relayed_example =
    timed_session_calls-Relayed net_ports-IsNetLogged counter peer_ready-IsPunctual.quiet
      recorded_ready-IsUnlogged 2 0 [] [] [] session refl ((refl, refl), refl)

raced_session_calls-Relayed_example :
    Ensures
      (SessionHistory.Relayed net_ports-IsNetLogged 2 0 [] [] [])
      (SessionHistory.Stopped net_ports-IsNetLogged 2 0 [] [] [])
      (calls 2 (SessionRaced.next net_ports late) session).0
      (calls 2 (SessionRaced.next net_ports late) session).1
raced_session_calls-Relayed_example =
    raced_session_calls-Relayed net_ports-IsNetLogged late 2 0 [] [] [] session refl
      ((refl, refl), refl)
