-- ===== src/Tcp.antt =====
-- src/tcp.rs: the TCP transport. Its async and its blocking half are the same code.
-- The methods that touch only `self.stream` act on the state of the stream, and `on_stream`
-- carries them over to the driver.
pub mod Listen
pub mod Order
pub mod Finish
pub mod Success
pub mod Tracking
pub mod Ids
use modbus_bridge_rs.Base.{
  ℕ, zero, suc, ◌+◌, ◌-◌, ◌%◌, ◌^◌, Bool, List, [], ◌∷◌, ◌++◌, ltb, if◌then◌else◌, length, get_or,
}
use modbus_bridge_rs.Base.Outcome.{Outcome, done, fail, stalled, Exec, ◌>>=◌, pure, raise}
use modbus_bridge_rs.Error.{Infallible, ModbusError}
use modbus_bridge_rs.Heapless.{Heapless}
use modbus_bridge_rs.Frame.{from_be_bytes}
use modbus_bridge_rs.Io.{Io, write_all}

pub record ModbusTcp (TS : Type 0) : Type 0 where
  pub stream : TS
  pub transaction_id : ℕ

-- `TCP_BUF`
abbrev pub tcp_buf : ℕ
tcp_buf = 261

-- `ModbusError<Infallible, S::Error>`
abbrev pub TcpError : Type 0 → Type 0
TcpError TE = ModbusError Infallible TE

module _ {TS E A : Type 0} where
  abbrev pub on_stream : Exec TS E A → Exec (ModbusTcp TS) E A
  on_stream m c = ((m c.stream).0, record c { stream = (m c.stream).1 })

module _ {TS : Type 0} where
  -- `ModbusTcp::new`
  unfoldable pub new : TS → ModbusTcp TS
  new stream = record { stream = stream; transaction_id = 0 }

  unfoldable pub into_inner : ModbusTcp TS → TS
  into_inner c = c.stream

  -- `wrapping_add(1)` on a `u16`; the new value is stored and returned.
  unfoldable pub next_transaction_id : ModbusTcp TS → ℕ × ModbusTcp TS
  next_transaction_id c =
      let id = (c.transaction_id + 1) % 2 ^ 16 in (id, record c { transaction_id = id })

module _ {TS TE : Type 0} (io : Io TS TE) where
  -- One answer of the stream, with the buffer so far and the rest of the loop.
  abbrev pub after_read :
      (List ℕ → Exec TS (TcpError TE) (List ℕ))
      → List ℕ
      → Outcome TE (List ℕ)
      → Exec TS (TcpError TE) (List ℕ)
  after_read rest buf (done []) s = (fail ModbusError.payload_too_short, s)
  after_read rest buf (done (b ∷ bytes)) s = rest (buf ++ (b ∷ bytes)) s
  after_read rest buf (fail e) s = (fail (ModbusError.tcp e), s)
  after_read rest buf stalled s = (stalled, s)

  -- `buf` is the part of the buffer that is filled. Each round that goes on fills a byte.
  unfoldable pub read_exact_loop : ℕ → ℕ → List ℕ → Exec TS (TcpError TE) (List ℕ)
  read_exact_loop zero len buf s = (stalled, s)
  read_exact_loop (suc fuel) len buf s =
      let more =
        after_read (read_exact_loop fuel len) buf (io.read (len - length buf) s).0
          (io.read (len - length buf) s).1 in
      if ltb (length buf) len then more else (done buf, s)

  unfoldable pub read_exact : ℕ → Exec TS (TcpError TE) (List ℕ)
  read_exact len = read_exact_loop (len + 1) len []

  unfoldable pub send : List ℕ → Exec TS TE (Unit {0})
  send bytes = write_all io bytes

module _ {TS TE : Type 0} (h : Heapless) (io : Io TS TE) where
  -- The outcome of a call on a vector, with its error mapped to `ModbusError::Push`.
  abbrev pub or_push : Bool × List ℕ → Exec TS (TcpError TE) (List ℕ)
  or_push (done', v) = if done' then pure v else raise ModbusError.push

  -- `for _ in 0..pdu_len`: one byte is read and pushed.
  unfoldable pub read_bytes : ℕ → List ℕ → Exec TS (TcpError TE) (List ℕ)
  read_bytes zero v = pure v
  read_bytes (suc n) v = read_exact io 1 >>= λ byte.
      or_push (h.push tcp_buf (get_or byte 0 0) v) >>= λ v'. read_bytes n v'

  unfoldable pub listen : Exec TS (TcpError TE) (List ℕ)
  listen = do
    mbap ← read_exact io 6
    let pdu_len = from_be_bytes (get_or mbap 4 0) (get_or mbap 5 0)
    req ← or_push (h.extend_from_slice tcp_buf mbap [])
    read_bytes pdu_len req
