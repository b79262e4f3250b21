-- ===== src/Tests/Recorded.antt =====
-- A device that logs its traffic, around any other one.
use modbus_bridge_rs.Base.{refl, List, [], ◌++◌, take, map, Bool}
use modbus_bridge_rs.Base.Ensures.{Ensures}
use modbus_bridge_rs.Io.{Io, IsIo, Traffic, bytes_of, count_of}
use modbus_bridge_rs.Io.Order.{
  Move, sends, receives, traffic_of, IsLogged, sent_of-sends, sent_of-receives, received_of-sends,
  received_of-receives,
}
use modbus_bridge_rs.Rtu.{ModbusRtu, send_and_receive}
use modbus_bridge_rs.Rtu.Order.{Answered, Interrupted, send_and_receive-Answered}
use modbus_bridge_rs.Tests.Devices.{Port, port, port-IsIo, pin, fresh, vector, vector-IsHeapless}
use modbus_bridge_rs.Tests.Frames.{read_frame}
use modbus_bridge_rs.Tests.Transport.{response_frame}

module _ {S E : Type 0} (io : Io S E) where
  abbrev pub recorded : Io (S × List Move) E
  recorded = record {
    read = λ n sl. (
      (io.read n sl.0).0,
      ((io.read n sl.0).1, sl.1 ++ map receives (bytes_of (io.read n sl.0).0)),
    );
    write = λ bytes sl. (
      (io.write bytes sl.0).0,
      ((io.write bytes sl.0).1, sl.1 ++ map sends (take (count_of (io.write bytes sl.0).0) bytes)),
    );
    flush = λ sl. ((io.flush sl.0).0, ((io.flush sl.0).1, sl.1));
  }

  abbrev pub record_of : S × List Move → List Move
  record_of sl = sl.1

  pub recorded-IsLogged : IsLogged recorded record_of
  recorded-IsLogged = record {
    read_log = λ n s. refl;
    write_log = λ bytes s. refl;
    flush_log = λ s. refl;
  }

  pub recorded-IsIo : {t : Traffic S} → IsIo io t → IsIo recorded (traffic_of record_of)
  recorded-IsIo lawful = record {
    read_length = λ n sl. lawful.read_length n sl.0;
    read_IsByte = λ n sl. lawful.read_IsByte n sl.0;
    read_received = λ n sl. received_of-receives sl.1 (bytes_of (io.read n sl.0).0);
    read_sent = λ n sl. sent_of-receives sl.1 (bytes_of (io.read n sl.0).0);
    write_count = λ bytes sl. lawful.write_count bytes sl.0;
    write_progress = λ b bytes sl. lawful.write_progress b bytes sl.0;
    write_sent = λ bytes sl. sent_of-sends sl.1 (take (count_of (io.write bytes sl.0).0) bytes);
    write_received =
        λ bytes sl. received_of-sends sl.1 (take (count_of (io.write bytes sl.0).0) bytes);
    flush_sent = λ sl. refl;
    flush_received = λ sl. refl;
  }

abbrev driver : ModbusRtu (Port × List Move) (List Bool)
driver = record { serial = (fresh response_frame, []); tx_en = [] }

send_and_receive-Answered_example :
    Ensures
      (Answered pin
        (recorded-IsLogged port)
        (recorded-IsIo port port-IsIo)
        vector-IsHeapless
        []
        read_frame
        [])
      (Interrupted pin
        (recorded-IsLogged port)
        (recorded-IsIo port port-IsIo)
        vector-IsHeapless
        []
        read_frame)
      (send_and_receive vector (recorded port) pin read_frame driver).0
      (send_and_receive vector (recorded port) pin read_frame driver).1
send_and_receive-Answered_example =
    send_and_receive-Answered pin (recorded-IsLogged port) (recorded-IsIo port port-IsIo)
      vector-IsHeapless [] read_frame driver refl
