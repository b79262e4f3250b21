-- ===== src/Lib.antt =====
-- A model of modbus-bridge-rs, a bridge between Modbus TCP and Modbus RTU over a serial line.
--
-- A `Bridge` owns a serial port with an RS-485 transmit-enable pin. `Connection::next` takes one
-- request from a TCP client, sends it on the bus, and answers with the device's response.
-- A `Client` is the mirror image: `ClientSession::next` takes a request from an RTU master on the
-- bus and forwards it to a TCP server. Both stand on the framing functions and on a driver for
-- each of the two lines. Paths are from the repository's root.
--
--   Base        lists, Booleans, `bit_xor`; `Base.Outcome`, how code with I/O ends;
--               `Base.Ensures`, postconditions for every way in which it can end; `Base.Runs`,
--               that it returns a given value; `Base.Tracks`, two runs side by side; and
--               `Base.Text`, how `core::fmt` writes numbers
--   Error       src/error.rs: `ModbusError`, its `Display`, and its widening conversions
--   Heapless    the vectors of the crate heapless, a parameter with laws
--   Frame       src/frame.rs: CRC, MBAP frames, conversions, parsers; its children hold the proofs
--   Io          the traits of embedded_io and embedded_hal, parameters with laws; `write_all`;
--               in `Io.Responsive` a device at whose other end somebody answers, and in `Io.Order`
--               one that logs the bytes in the order in which they go over the line
--   Rtu         src/rtu.rs: `ModbusRtu`, with `send`, `listen`, `receive`, `send_and_receive`
--   Tcp         src/tcp.rs: `ModbusTcp`, with `send`, `listen`, `next_transaction_id`
--   Event       src/event.rs: `FunctionCode`, `BridgeEvent`, `BridgeError`; their texts are
--               `Event.Display`
--   Capacity    src/capacity.rs: `rtu_capacity`, `tcp_capacity` and the named sizes
--   Bridge      src/bridge.rs, src/builder.rs, and `NoPin` and `NoDelay` of src/lib.rs
--   Client      src/client.rs, src/client_builder.rs
--   Timing      the two ways to bound a wait in src/connection.rs and src/client_session.rs: the
--               polling loop, in `Timing.Race` the `select` of a future and a delay, and in
--               `Timing.Punctual` a port that soon says that something is there
--   Ports       the external code that a cycle runs on, in one record, with its laws
--   Connection  src/connection.rs; `Connection.Timed` is the blocking `next` with timeouts, and
--               `Connection.Raced` the async one; `Connection.History` and
--               `Connection.Conversation` are about call after call of `next`, and
--               `Connection.Cutoff` about the async `next` against the one without timeouts, and
--               `Connection.Punctual` about timeouts that are long enough
--   ClientSession  src/client_session.rs, likewise
--   Tunnel      a session and a connection back to back: a master reaches a device over TCP
--   Tests       concrete devices, runs, and uses of the theorems
--
-- State. A driver is a record of the source's fields, and a call is a function from a state to an
-- outcome and the state afterwards: `done` with a value, `fail` with an error, or `stalled` for a
-- call that never completes. What a call did before it failed stays done. A device is any type of
-- states with the functions of the trait; the bytes that it has sent and received are observed
-- through `Traffic`, and `IsIo` is what embedded_io documents: a read gives at most what was asked
-- for, a write takes a prefix and makes progress, an error moves no byte. Where the order of what
-- goes out and what comes in matters, a device has a log of both, which `IsLogged` extends at its
-- end with the bytes of each call. The async and the
-- blocking half of src/rtu.rs and of src/tcp.rs, and the two forms of `next` without timeouts, are
-- the same code but for `await`, and are one definition each.
--
-- The other end. What a device gives is a function of what it has been told, which a call does not
-- change: a read gives some of what is pending, and no call fails. That is `IsResponsive`, and a
-- master, a client, a server and a device are such functions, so a request may depend on the
-- responses before it. `Talk` is a conversation in which one side asks and the other answers.
--
-- Bounds and fuel. Numbers are natural numbers; a byte is a number below 256, and a `u16` wraps
-- around at 2 ^ 16. `write_all` has the length of the data as fuel and each write that makes
-- progress takes a byte. `read_exact` has the length of the buffer, and in src/rtu.rs eleven
-- attempts more; each round fills a byte or uses up an attempt. The polling loop has one round
-- more than its timeout has milliseconds. A number has at most as many decimal digits as it
-- counts. The vectors hold 512, 255 and 261 bytes, as in the source.
--
-- Deadlines. A future in a `select` is a run of I/O calls, and how many complete before the delay
-- fires is an answer of the delay provider, so the race is a run of the same code on a device with
-- that many calls left. A call that is dropped while it is pending is taken to have moved no byte,
-- which the traits leave to the device. Once the port is ready the blocking code reads without a
-- deadline, so it may still stall.
--
-- Not modelled: log output, which the macros of src/lib.rs write; the socket buffer constants of
-- src/lib.rs, which are advice to the caller; and a formatter that refuses what is written to it.
pub mod Base
pub mod Error
pub mod Heapless
pub mod Frame
pub mod Io
pub mod Rtu
pub mod Tcp
pub mod Event
pub mod Bridge
pub mod Timing
pub mod Tunnel
pub mod Ports
pub mod Connection
pub mod Capacity
pub mod Client
pub mod ClientSession
pub mod Tests
