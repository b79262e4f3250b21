-- ===== src/Rtu.antt =====
-- src/rtu.rs: the RTU transport. Its async and its blocking half are the same code.
-- The methods that touch only `self.serial` act on the state of the serial port, and `on_serial`
-- carries them over to the driver.
pub mod Read
pub mod Frames
pub mod Listen
pub mod Send
pub mod Exchange
pub mod Order
pub mod Retry
pub mod Finish
pub mod Success
pub mod Replies
pub mod Answered
pub mod Tracking
pub mod Tolerance
use modbus_bridge_rs.Base.{
  ℕ, zero, suc, ◌+◌, ◌-◌, Bool, ◌||◌, List, [], ◌∷◌, ◌++◌, ltb, ◌==◌, if◌then◌else◌, length, get_or,
}
use modbus_bridge_rs.Base.Outcome.{
  Result, ok, err, Outcome, done, fail, stalled, Exec, ◌>>=◌, ◌>>◌, pure, raise, lift, map_err,
  map_fail,
}
use modbus_bridge_rs.Error.{Infallible, ModbusError, into_combined}
use modbus_bridge_rs.Heapless.{Heapless}
use modbus_bridge_rs.Frame.{FrameError, check_crc, rtu_response_remaining, response_cap}
use modbus_bridge_rs.Io.{Io, OutputPin, write_all}

pub record ModbusRtu (S TX : Type 0) : Type 0 where
  pub serial : S
  pub tx_en : TX

-- `RTU_BUF`
abbrev pub rtu_buf : ℕ
rtu_buf = 255

-- `ModbusError<S::Error, Infallible>`
abbrev pub RtuError : Type 0 → Type 0
RtuError SE = ModbusError SE Infallible

module _ {S TX E A : Type 0} where
  abbrev pub on_serial : Exec S E A → Exec (ModbusRtu S TX) E A
  on_serial m r = ((m r.serial).0, record r { serial = (m r.serial).1 })

-- `ModbusRtu::new` and `ModbusRtu::into_inner`
module _ {S TX : Type 0} where
  unfoldable pub new : S → TX → ModbusRtu S TX
  new serial tx_en = record { serial = serial; tx_en = tx_en }

  unfoldable pub into_inner : ModbusRtu S TX → S × TX
  into_inner r = (r.serial, r.tx_en)

module _ {S SE : Type 0} (io : Io S SE) where
  -- One answer of the port, with the buffer so far, the attempt, and the rest of the loop.
  abbrev pub after_read :
      (List ℕ → ℕ → Exec S (RtuError SE) (List ℕ))
      → List ℕ
      → ℕ
      → Outcome SE (List ℕ)
      → Exec S (RtuError SE) (List ℕ)
  after_read rest buf attempt (done []) s = (fail ModbusError.payload_too_short, s)
  after_read rest buf attempt (done (b ∷ bytes)) s = rest (buf ++ (b ∷ bytes)) attempt s
  after_read rest buf attempt (fail e) s =
      (if ltb 10 attempt then raise (ModbusError.serial e) else rest buf (attempt + 1)) s
  after_read rest buf attempt stalled s = (stalled, s)

  -- `buf` is the part of the buffer that is filled. Each round fills a byte or uses up an attempt.
  unfoldable pub read_exact_loop : ℕ → ℕ → List ℕ → ℕ → Exec S (RtuError SE) (List ℕ)
  read_exact_loop zero len buf attempt s = (stalled, s)
  read_exact_loop (suc fuel) len buf attempt s =
      let more =
        after_read (read_exact_loop fuel len) buf attempt (io.read (len - length buf) s).0
          (io.read (len - length buf) s).1 in
      if ltb (length buf) len then more else (done buf, s)

  unfoldable pub read_exact : ℕ → Exec S (RtuError SE) (List ℕ)
  unfolding read_exact_loop
  read_exact len = read_exact_loop (len + 11) len [] 1

module _ {S SE : Type 0} where
  -- `frame::check_crc(&v).map_err(|e| e.into_combined())?` and `Ok(v)`
  abbrev pub checked : Result FrameError (Unit {0}) → List ℕ → Exec S (RtuError SE) (List ℕ)
  checked (ok _) v s = (done v, s)
  checked (err e) v s = (fail (into_combined e), s)

module _ {S SE : Type 0} (h : Heapless) (io : Io S SE) where
  -- The outcome of a call on a vector, with its error mapped to `ModbusError::Push`.
  abbrev pub or_push : Bool × List ℕ → Exec S (RtuError SE) (List ℕ)
  or_push (done', v) = if done' then pure v else raise ModbusError.push

  -- `for _ in 0..n`: one byte is read and pushed.
  unfoldable pub read_bytes : ℕ → ℕ → List ℕ → Exec S (RtuError SE) (List ℕ)
  read_bytes cap zero v = pure v
  read_bytes cap (suc n) v = read_exact io 1 >>= λ byte.
      or_push (h.push cap (get_or byte 0 0) v) >>= λ v'. read_bytes cap n v'

  -- What follows the header of a request: five bytes and as many as the last of them says, for
  -- Write Multiple Coils and Write Multiple Registers; six bytes for any other code.
  abbrev pub listen_data : List ℕ → Exec S (RtuError SE) (List ℕ)
  listen_data req = do
    fixed ← read_exact io 5
    req' ← or_push (h.extend_from_slice rtu_buf fixed req)
    read_bytes rtu_buf (get_or fixed 4 0 + 2) req'

  abbrev pub listen_fixed : List ℕ → Exec S (RtuError SE) (List ℕ)
  listen_fixed req = do rest ← read_exact io 6; or_push (h.extend_from_slice rtu_buf rest req)

  abbrev pub listen_rest : ℕ → List ℕ → Exec S (RtuError SE) (List ℕ)
  listen_rest fc req = if fc == 0x0F || fc == 0x10 then listen_data req else listen_fixed req

  unfoldable pub listen : Exec S (RtuError SE) (List ℕ)
  listen = do
    hdr ← read_exact io 2
    req ← or_push (h.extend_from_slice rtu_buf hdr [])
    req' ← listen_rest (get_or hdr 1 0) req
    checked (check_crc req') req'

  unfoldable pub receive : Exec S (RtuError SE) (List ℕ)
  receive = do
    header ← read_exact io 3
    let remaining =
        rtu_response_remaining (get_or header 0 0) (get_or header 1 0) (get_or header 2 0)
    resp ← or_push (h.extend_from_slice response_cap header [])
    resp' ← read_bytes response_cap remaining resp
    checked (check_crc resp') resp'

module _ {S TX SE : Type 0} (io : Io S SE) (pin : OutputPin TX) where
  -- `let _ = self.tx_en.set_high();`
  abbrev pub drive_high : Exec (ModbusRtu S TX) SE (Unit {0})
  drive_high r = (done tt, record r { tx_en = (pin.set_high r.tx_en).1 })

  abbrev pub drive_low : Exec (ModbusRtu S TX) SE (Unit {0})
  drive_low r = (done tt, record r { tx_en = (pin.set_low r.tx_en).1 })

  unfoldable pub send : List ℕ → Exec (ModbusRtu S TX) SE (Unit {0})
  send payload = do
    on_serial io.flush
    drive_high
    on_serial (write_all io payload)
    on_serial io.flush
    drive_low

module _ {S TX SE : Type 0} (h : Heapless) (io : Io S SE) (pin : OutputPin TX) where
  unfoldable pub send_and_receive : List ℕ → Exec (ModbusRtu S TX) (RtuError SE) (List ℕ)
  send_and_receive req = do map_fail ModbusError.serial (send io pin req); on_serial (receive h io)
