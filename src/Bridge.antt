-- ===== src/Bridge.antt =====
-- src/bridge.rs, src/builder.rs: the bridge and its typestate builder; NoPin and NoDelay of
-- src/lib.rs.
pub mod Build
use modbus_bridge_rs.Base.{ℕ, ◌≡◌, refl, Bool, true, Option, none, some}
use modbus_bridge_rs.Io.{OutputPin}
use modbus_bridge_rs.Rtu
use modbus_bridge_rs.Rtu.{ModbusRtu}

pub data NoPin : Type 0 where
  no_pin : NoPin

pub data NoDelay : Type 0 where
  no_delay : NoDelay

-- `impl OutputPin for NoPin`
abbrev pub no_pin_output : OutputPin NoPin
no_pin_output = record { set_high = λ p. (true, p); set_low = λ p. (true, p) }

pub record Bridge (S TX D : Type 0) : Type 0 where
  pub rtu : ModbusRtu S TX
  pub rtu_timeout_ms : Option ℕ
  pub tcp_timeout_ms : Option ℕ
  pub delay : D

pub record BridgeBuilder (S TX D : Type 0) : Type 0 where
  pub serial : S
  pub tx_en : TX
  pub rtu_timeout_ms : Option ℕ
  pub tcp_timeout_ms : Option ℕ
  pub delay : D

module _ {S TX D : Type 0} where
  unfoldable pub from_parts : S → TX → D → Option ℕ → Option ℕ → Bridge S TX D
  from_parts serial tx_en delay rtu_timeout_ms tcp_timeout_ms = record {
    rtu = Rtu.new serial tx_en;
    rtu_timeout_ms = rtu_timeout_ms;
    tcp_timeout_ms = tcp_timeout_ms;
    delay = delay;
  }

  unfoldable pub into_inner : Bridge S TX D → S × TX × D
  into_inner b = let (s, tx) = Rtu.into_inner b.rtu in (s, tx, b.delay)

  unfoldable pub rtu_timeout : ℕ → BridgeBuilder S TX D → BridgeBuilder S TX D
  rtu_timeout ms b = record b { rtu_timeout_ms = some ms }

  unfoldable pub tcp_timeout : ℕ → BridgeBuilder S TX D → BridgeBuilder S TX D
  tcp_timeout ms b = record b { tcp_timeout_ms = some ms }

  unfoldable pub build : BridgeBuilder S TX D → Bridge S TX D
  build b = from_parts b.serial b.tx_en b.delay b.rtu_timeout_ms b.tcp_timeout_ms

-- `BridgeBuilder::new`
unfoldable pub new : BridgeBuilder (Unit {0}) (Unit {0}) NoDelay
new = record {
  serial = tt;
  tx_en = tt;
  rtu_timeout_ms = none;
  tcp_timeout_ms = none;
  delay = no_delay;
}

-- `Default` of the builder, `Bridge::builder`, and `builder` of src/lib.rs
unfoldable pub default : BridgeBuilder (Unit {0}) (Unit {0}) NoDelay
unfolding new
default = new

unfoldable pub builder : BridgeBuilder (Unit {0}) (Unit {0}) NoDelay
unfolding new
builder = new

module _ {S TX D : Type 0} where
  unfoldable pub rtu : S → TX → BridgeBuilder (Unit {0}) (Unit {0}) D → BridgeBuilder S TX D
  rtu serial tx_en b = record {
    serial = serial;
    tx_en = tx_en;
    rtu_timeout_ms = b.rtu_timeout_ms;
    tcp_timeout_ms = b.tcp_timeout_ms;
    delay = b.delay;
  }

  unfoldable pub delay : D → BridgeBuilder S TX NoDelay → BridgeBuilder S TX D
  delay d b = record {
    serial = b.serial;
    tx_en = b.tx_en;
    rtu_timeout_ms = b.rtu_timeout_ms;
    tcp_timeout_ms = b.tcp_timeout_ms;
    delay = d;
  }

module _ {S D : Type 0} where
  unfoldable pub rtu_no_pin : S → BridgeBuilder (Unit {0}) (Unit {0}) D → BridgeBuilder S NoPin D
  rtu_no_pin serial b = record {
    serial = serial;
    tx_en = no_pin;
    rtu_timeout_ms = b.rtu_timeout_ms;
    tcp_timeout_ms = b.tcp_timeout_ms;
    delay = b.delay;
  }
