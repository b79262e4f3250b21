-- ===== src/Bridge/Build.antt =====
-- What a builder of src/builder.rs builds, in any order of its calls.
use modbus_bridge_rs.Base.{ℕ, ◌≡◌, refl, List, [], ◌∷◌, ◌++◌, Option, some, none}
use modbus_bridge_rs.Rtu
use modbus_bridge_rs.Bridge.{
  Bridge, BridgeBuilder, no_pin, no_delay, build, rtu_timeout, tcp_timeout, into_inner, from_parts,
  delay, rtu, rtu_no_pin, new,
}

-- A call of `rtu_timeout` or `tcp_timeout`, in milliseconds.
pub data Limit : Type 0 where
  on_rtu : ℕ → Limit
  on_tcp : ℕ → Limit

-- The last of the calls of each, or else the given value.
abbrev pub last_rtu : List Limit → Option ℕ → Option ℕ
last_rtu [] ms = ms
last_rtu (on_rtu n ∷ limits) ms = last_rtu limits (some n)
last_rtu (on_tcp n ∷ limits) ms = last_rtu limits ms

abbrev pub last_tcp : List Limit → Option ℕ → Option ℕ
last_tcp [] ms = ms
last_tcp (on_rtu n ∷ limits) ms = last_tcp limits ms
last_tcp (on_tcp n ∷ limits) ms = last_tcp limits (some n)

last_rtu-append :
    (xs ys : List Limit) (ms : Option ℕ) → last_rtu (xs ++ ys) ms ≡ last_rtu ys (last_rtu xs ms)
last_rtu-append [] ys ms = refl
last_rtu-append (on_rtu n ∷ xs) ys ms = last_rtu-append xs ys (some n)
last_rtu-append (on_tcp n ∷ xs) ys ms = last_rtu-append xs ys ms

last_tcp-append :
    (xs ys : List Limit) (ms : Option ℕ) → last_tcp (xs ++ ys) ms ≡ last_tcp ys (last_tcp xs ms)
last_tcp-append [] ys ms = refl
last_tcp-append (on_rtu n ∷ xs) ys ms = last_tcp-append xs ys ms
last_tcp-append (on_tcp n ∷ xs) ys ms = last_tcp-append xs ys (some n)

module _ {S TX D : Type 0} where
  -- The calls, one after the other.
  abbrev pub limit : List Limit → BridgeBuilder S TX D → BridgeBuilder S TX D
  limit [] b = b
  limit (on_rtu ms ∷ limits) b = limit limits (rtu_timeout ms b)
  limit (on_tcp ms ∷ limits) b = limit limits (tcp_timeout ms b)

  limit_lem :
      (limits : List Limit) (b : BridgeBuilder S TX D)
      → limit limits b ≡ record b {
        rtu_timeout_ms = last_rtu limits b.rtu_timeout_ms;
        tcp_timeout_ms = last_tcp limits b.tcp_timeout_ms;
      }
  unfolding rtu_timeout tcp_timeout
  limit_lem [] b = refl
  limit_lem (on_rtu ms ∷ limits) b = limit_lem limits (rtu_timeout ms b)
  limit_lem (on_tcp ms ∷ limits) b = limit_lem limits (tcp_timeout ms b)

  -- The bridge with the given parts, after the given calls.
  abbrev pub configured : S → TX → D → List Limit → Bridge S TX D
  configured port pin clock limits = record {
    rtu = record { serial = port; tx_en = pin };
    rtu_timeout_ms = last_rtu limits none;
    tcp_timeout_ms = last_tcp limits none;
    delay = clock;
  }

module _ {S TX D : Type 0} (port : S) (pin : TX) (clock : D) (xs ys zs : List Limit) where
  -- In every order of the calls that the types of the builder admit, with any calls of the two
  -- timeouts in front, in between and behind: the bridge has the port, the pin and the delay that
  -- the builder was given, or `NoPin` and `NoDelay` without, and each timeout is that of its last
  -- call, or none without a call. `into_inner` gives the parts back.
  pub build-configured :
      (build (limit zs (delay clock (limit ys (rtu port pin (limit xs new)))))
        ≡ configured port pin clock (xs ++ (ys ++ zs)))
      × (build (limit zs (rtu port pin (limit ys (delay clock (limit xs new)))))
          ≡ configured port pin clock (xs ++ (ys ++ zs)))
      × (build (limit zs (delay clock (limit ys (rtu_no_pin port (limit xs new)))))
          ≡ configured port no_pin clock (xs ++ (ys ++ zs)))
      × (build (limit zs (rtu_no_pin port (limit ys (delay clock (limit xs new)))))
          ≡ configured port no_pin clock (xs ++ (ys ++ zs)))
      × (build (limit ys (rtu port pin (limit xs new))) ≡ configured port pin no_delay (xs ++ ys))
      × (build (limit ys (rtu_no_pin port (limit xs new)))
          ≡ configured port no_pin no_delay (xs ++ ys))
      × (into_inner (configured port pin clock (xs ++ ys)) ≡ (port, pin, clock))
  unfolding build from_parts delay rtu rtu_no_pin new into_inner Rtu.new Rtu.into_inner
  build-configured =
      rw
        (
          last_rtu-append xs (ys ++ zs) none,
          last_rtu-append ys zs (last_rtu xs none),
          last_tcp-append xs (ys ++ zs) none,
          last_tcp-append ys zs (last_tcp xs none),
          last_rtu-append xs ys none,
          last_tcp-append xs ys none,
        )
        (
          rw (limit_lem xs new, limit_lem ys, limit_lem zs) refl,
          rw (limit_lem xs new, limit_lem ys, limit_lem zs) refl,
          rw (limit_lem xs new, limit_lem ys, limit_lem zs) refl,
          rw (limit_lem xs new, limit_lem ys, limit_lem zs) refl,
          rw (limit_lem xs new, limit_lem ys) refl,
          rw (limit_lem xs new, limit_lem ys) refl,
          refl,
        )
