-- ===== src/Timing/Cutoff.antt =====
-- A device with a number of calls left follows the device itself, so the race of a future and a
-- delay ends in `Timeout` or like the future alone.
use modbus_bridge_rs.Base.{ℕ, zero, suc, ◌≡◌, refl, ap, ◌∙◌, ◌⊎◌, inl, inr, none}
use modbus_bridge_rs.Base.Outcome.{Outcome, done, fail, stalled, Exec, map_fail_outcome}
use modbus_bridge_rs.Base.Tracks.{Matches}
use modbus_bridge_rs.Event.{BridgeError, timeout}
use modbus_bridge_rs.Io.{Io}
use modbus_bridge_rs.Io.Tracking.{IsFollower}
use modbus_bridge_rs.Rtu.{ModbusRtu}
use modbus_bridge_rs.Tcp.{ModbusTcp}
use modbus_bridge_rs.Timing.Race.{budgeted, deadlined, raced}

module _ {S : Type 0} where
  -- The device is in the given state, with any number of calls left.
  abbrev pub InState : S × ℕ → S → Type 0
  InState sn s = sn.0 ≡ s

  module _ {E A : Type 0} where
    budgeted-Matches :
        (m : Exec S E A) (sn : S × ℕ) (s : S)
        → InState sn s
        → Matches InState none (budgeted m sn) (m s)
    budgeted-Matches m (s', zero) s r = inl refl
    budgeted-Matches m (s', suc n) s r = inr (ap (λ x. (m x).0) r, ap (λ x. (m x).1) r)

  pub deadlined-IsFollower : {E : Type 0} (io : Io S E) → IsFollower InState (deadlined io) io
  deadlined-IsFollower io = record {
    read_tracks = λ n. budgeted-Matches (io.read n);
    write_tracks = λ bytes. budgeted-Matches (io.write bytes);
    flush_tracks = budgeted-Matches io.flush;
  }

-- States of the drivers with equal parts.
pub driver_eq :
    {S TX : Type 0} {s : S} {x : TX} {r : ModbusRtu S TX}
    → s ≡ r.serial
    → x ≡ r.tx_en
    → record { serial = s; tx_en = x } ≡ r
driver_eq {S} {TX} {s} {x} {r} e f =
    ap (λ y. record r { serial = y; tx_en = x }) e ∙ ap (λ y. record r { tx_en = y }) f

pub stream_eq :
    {TS : Type 0} {t' t : ModbusTcp TS} {s' s : TS}
    → t' ≡ t
    → s' ≡ s
    → record t' { stream = s' } ≡ record t { stream = s }
stream_eq {TS} {t'} {t} {s'} {s} e f =
    ap {A = ModbusTcp TS} (λ x. record x { stream = s' }) e ∙ ap (λ y. record t { stream = y }) f

module _ {E SE TE A : Type 0} (f : E → BridgeError SE TE) where
  raced-same : (o : Outcome E A) → (raced f o ≡ fail timeout) ⊎ (raced f o ≡ map_fail_outcome f o)
  raced-same (done a) = inr refl
  raced-same (fail e) = inr refl
  raced-same stalled = inl refl

  -- The race times out, or it ends like the future alone.
  pub raced-Matches :
      {T' T : Type 0} (R : T' → T → Type 0) (x' : Outcome E A × T') (x : Outcome E A × T)
      → Matches R none x' x
      → (raced f x'.0 ≡ fail timeout) ⊎ ((raced f x'.0 ≡ map_fail_outcome f x.0) × R x'.1 x.1)
  raced-Matches R x' x (inl cut) = inl (ap (raced f) cut)
  raced-Matches R x' x (inr (same, r)) = elim (raced-same x.0) [
    | inl late ↦ inl (ap (raced f) same ∙ late)
    | inr early ↦ inr (ap (raced f) same ∙ early, r)
  ]
