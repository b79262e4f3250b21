-- ===== src/Client.antt =====
-- src/client.rs, src/client_builder.rs: the client and its typestate builder.
use modbus_bridge_rs.Base.{ℕ, Option, none, some}
use modbus_bridge_rs.Bridge.{NoPin, no_pin, NoDelay, no_delay}
use modbus_bridge_rs.Rtu
use modbus_bridge_rs.Rtu.{ModbusRtu}

pub record Client (S TX D : Type 0) : Type 0 where
  pub rtu : ModbusRtu S TX
  pub rtu_timeout_ms : Option ℕ
  pub tcp_timeout_ms : Option ℕ
  pub delay : D

pub record ClientBuilder (S TX D : Type 0) : Type 0 where
  pub serial : S
  pub tx_en : TX
  pub rtu_timeout_ms : Option ℕ
  pub tcp_timeout_ms : Option ℕ
  pub delay : D

module _ {S TX D : Type 0} where
  unfoldable pub from_parts : S → TX → D → Option ℕ → Option ℕ → Client S TX D
  from_parts serial tx_en delay rtu_timeout_ms tcp_timeout_ms = record {
    rtu = Rtu.new serial tx_en;
    rtu_timeout_ms = rtu_timeout_ms;
    tcp_timeout_ms = tcp_timeout_ms;
    delay = delay;
  }

  unfoldable pub into_inner : Client S TX D → S × TX × D
  into_inner c = let (s, tx) = Rtu.into_inner c.rtu in (s, tx, c.delay)

  unfoldable pub rtu_timeout : ℕ → ClientBuilder S TX D → ClientBuilder S TX D
  rtu_timeout ms b = record b { rtu_timeout_ms = some ms }

  unfoldable pub tcp_timeout : ℕ → ClientBuilder S TX D → ClientBuilder S TX D
  tcp_timeout ms b = record b { tcp_timeout_ms = some ms }

  unfoldable pub build : ClientBuilder S TX D → Client S TX D
  build b = from_parts b.serial b.tx_en b.delay b.rtu_timeout_ms b.tcp_timeout_ms

-- `ClientBuilder::new`
unfoldable pub new : ClientBuilder (Unit {0}) (Unit {0}) NoDelay
new = record {
  serial = tt;
  tx_en = tt;
  rtu_timeout_ms = none;
  tcp_timeout_ms = none;
  delay = no_delay;
}

-- `Default` of the builder, and `Client::builder`
unfoldable pub default : ClientBuilder (Unit {0}) (Unit {0}) NoDelay
unfolding new
default = new

unfoldable pub builder : ClientBuilder (Unit {0}) (Unit {0}) NoDelay
unfolding new
builder = new

module _ {S TX D : Type 0} where
  unfoldable pub rtu : S → TX → ClientBuilder (Unit {0}) (Unit {0}) D → ClientBuilder S TX D
  rtu serial tx_en b = record {
    serial = serial;
    tx_en = tx_en;
    rtu_timeout_ms = b.rtu_timeout_ms;
    tcp_timeout_ms = b.tcp_timeout_ms;
    delay = b.delay;
  }

  unfoldable pub delay : D → ClientBuilder S TX NoDelay → ClientBuilder S TX D
  delay d b = record {
    serial = b.serial;
    tx_en = b.tx_en;
    rtu_timeout_ms = b.rtu_timeout_ms;
    tcp_timeout_ms = b.tcp_timeout_ms;
    delay = d;
  }

module _ {S D : Type 0} where
  unfoldable pub rtu_no_pin : S → ClientBuilder (Unit {0}) (Unit {0}) D → ClientBuilder S NoPin D
  rtu_no_pin serial b = record {
    serial = serial;
    tx_en = no_pin;
    rtu_timeout_ms = b.rtu_timeout_ms;
    tcp_timeout_ms = b.tcp_timeout_ms;
    delay = b.delay;
  }
