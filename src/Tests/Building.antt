-- ===== src/Tests/Building.antt =====
-- A bridge built from concrete parts.
use modbus_bridge_rs.Base.{ℕ, ◌≡◌, List, [], Bool, some}
use modbus_bridge_rs.Bridge.{
  Bridge, no_pin, no_delay, build, into_inner, rtu, rtu_no_pin, delay, new,
}
use modbus_bridge_rs.Bridge.Build.{Limit, on_rtu, on_tcp, limit, configured, build-configured}
use modbus_bridge_rs.Base.{◌∷◌, ◌++◌}
use modbus_bridge_rs.Tests.Devices.{Port, fresh}

abbrev pin : List Bool
pin = []

abbrev clock : ℕ
clock = 0

abbrev configured_bridge : Bridge Port (List Bool) ℕ
configured_bridge = record {
  rtu = record { serial = fresh []; tx_en = pin };
  rtu_timeout_ms = some 5;
  tcp_timeout_ms = some 7;
  delay = clock;
}

abbrev in_front : List Limit
in_front = on_rtu 6 ∷ on_tcp 7 ∷ []

abbrev behind : List Limit
behind = on_rtu 5 ∷ []

build-configured_example :
    (build (delay clock (limit behind (rtu (fresh []) pin (limit in_front new))))
      ≡ configured_bridge)
    × (build (rtu (fresh []) pin (limit behind (delay clock (limit in_front new))))
        ≡ configured_bridge)
    × (build (delay clock (limit behind (rtu_no_pin (fresh []) (limit in_front new))))
        ≡ configured (fresh []) no_pin clock (in_front ++ behind))
    × (build (rtu_no_pin (fresh []) (limit behind (delay clock (limit in_front new))))
        ≡ configured (fresh []) no_pin clock (in_front ++ behind))
    × (build (limit behind (rtu (fresh []) pin (limit in_front new)))
        ≡ configured (fresh []) pin no_delay (in_front ++ behind))
    × (build (limit behind (rtu_no_pin (fresh []) (limit in_front new)))
        ≡ configured (fresh []) no_pin no_delay (in_front ++ behind))
    × (into_inner configured_bridge ≡ (fresh [], pin, clock))
build-configured_example = build-configured (fresh []) pin clock in_front behind []
