-- ===== src/Ports.antt =====
-- The external code that the sessions of src/connection.rs and src/client_session.rs run on: the
-- vectors, the serial port, the TCP stream and the transmit-enable pin.
use modbus_bridge_rs.Base.{ℕ, List}
use modbus_bridge_rs.Heapless.{Heapless, IsHeapless}
use modbus_bridge_rs.Io.{Io, IsIo, OutputPin, Traffic}
use modbus_bridge_rs.Io.Order.{Move, traffic_of, IsLogged}
use modbus_bridge_rs.Io.Responsive.{IsResponsive}

pub record Ports (S TX TS SE TE : Type 0) : Type 0 where
  pub vec : Heapless
  pub serial : Io S SE
  pub stream : Io TS TE
  pub pin : OutputPin TX

-- All of it does what its documentation says, with the traffic on the two lines observed.
pub record IsPorts {S TX TS SE TE : Type 0} (p : Ports S TX TS SE TE) (bus : Traffic S)
    (net : Traffic TS) : Type 0 where
  pub vec_lawful : IsHeapless p.vec
  pub serial_lawful : IsIo p.serial bus
  pub stream_lawful : IsIo p.stream net

-- On both lines somebody answers: what the bus and the net say is a function of what they have
-- been told.
pub record IsLive {S TX TS SE TE : Type 0} (p : Ports S TX TS SE TE) (bus : Traffic S)
    (net : Traffic TS) (bus_script : S → List ℕ → List ℕ) (net_script : TS → List ℕ → List ℕ)
    : Type 0 where
  pub serial_live : IsResponsive p.serial bus bus_script
  pub stream_live : IsResponsive p.stream net net_script

-- The ports of a bridge whose serial port logs the order of the bytes on the bus.
pub record IsBusLogged {S TX TS SE TE : Type 0} (p : Ports S TX TS SE TE) (log : S → List Move)
    (net : Traffic TS) : Type 0 where
  pub vec_lawful : IsHeapless p.vec
  pub serial_lawful : IsIo p.serial (traffic_of log)
  pub serial_logged : IsLogged p.serial log
  pub stream_lawful : IsIo p.stream net

-- The ports of a client whose stream logs the order of the bytes on the net.
pub record IsNetLogged {S TX TS SE TE : Type 0} (p : Ports S TX TS SE TE) (bus : Traffic S)
    (log : TS → List Move) : Type 0 where
  pub vec_lawful : IsHeapless p.vec
  pub serial_lawful : IsIo p.serial bus
  pub stream_lawful : IsIo p.stream (traffic_of log)
  pub stream_logged : IsLogged p.stream log
