-- ===== src/Timing/Race.antt =====
-- How the async code of src/connection.rs and src/client_session.rs bounds a wait: `select` of a
-- future and a delay. A future is a run of I/O calls, and where the delay fires shows in how many
-- of them complete before it. So the race is a run of the same code on a device that completes that
-- many calls: with none left the future is pending when the delay fires, and it is dropped there.
use modbus_bridge_rs.Base.{
  ℕ, zero, suc, ◌≤◌, ◌≡◌, ◌≢◌, refl, sym, List, ◌∷◌, ◌++◌, Option, none, some, arith, All, IsByte,
  length, take,
}
use mathlib.Core.List.{append-nil}
use modbus_bridge_rs.Base.Outcome.{Outcome, done, fail, stalled, Exec}
use modbus_bridge_rs.Base.Ensures.{Ensures}
use modbus_bridge_rs.Event.{BridgeError, timeout}
use modbus_bridge_rs.Base.{map}
use modbus_bridge_rs.Io.Order.{Move, sends, receives, IsLogged}
use modbus_bridge_rs.Io.{Io, IsIo, Traffic, bytes_of, count_of}

-- The async delay: how many I/O calls complete before it fires, and the provider afterwards.
-- Any function may stand for it, so every interleaving of the two is covered.
pub record AsyncDelay (D : Type 0) : Type 0 where
  pub delay_ms : ℕ → D → ℕ × D

module _ {S E A : Type 0} where
  -- A call on a device with `n` calls left.
  abbrev pub budgeted : Exec S E A → Exec (S × ℕ) E A
  budgeted m (s, zero) = (stalled, (s, 0))
  budgeted m (s, suc n) = ((m s).0, ((m s).1, n))

module _ {S E : Type 0} where
  abbrev pub deadlined : Io S E → Io (S × ℕ) E
  deadlined io = record {
    read = λ n. budgeted (io.read n);
    write = λ bytes. budgeted (io.write bytes);
    flush = budgeted io.flush;
  }

module _ {E SE TE A : Type 0} where
  -- `Either::Left` with the error mapped, or `Either::Right`, which is `Timeout`.
  abbrev pub raced : (E → BridgeError SE TE) → Outcome E A → Outcome (BridgeError SE TE) A
  raced f (done a) = done a
  raced f (fail e) = fail (f e)
  raced f stalled = fail timeout

  module _ {S T : Type 0} where
    pub Ensures-raced :
        (f : E → BridgeError SE TE) (D : A → S → Type 0) (B : Option E → S → Type 0)
        (D' : A → T → Type 0) (B' : Option (BridgeError SE TE) → T → Type 0) (r : Outcome E A)
        (s : S) (t : T)
        → Ensures D B r s
        → ((a : A) → D a s → D' a t)
        → ((e : Option E) (e' : Option (BridgeError SE TE)) → B e s → B' e' t)
        → Ensures D' B' (raced f r) t
    Ensures-raced f D B D' B' (done a) s t p d b = d a p
    Ensures-raced f D B D' B' (fail e) s t p d b = b (some e) (some (f e)) p
    Ensures-raced f D B D' B' stalled s t p d b = b none (some timeout) p

abbrev pub on_device : {S : Type 0} → Traffic S → Traffic (S × ℕ)
on_device t = record { sent = λ sn. t.sent sn.0; received = λ sn. t.received sn.0 }

module _ {S E : Type 0} {io : Io S E} {t : Traffic S} (lawful : IsIo io t) where
  read_length : (n : ℕ) (sn : S × ℕ) → length (bytes_of ((deadlined io).read n sn).0) ≤ n
  read_length n (s, zero) = omega arith
  read_length n (s, suc k) = lawful.read_length n s

  read_IsByte : (n : ℕ) (sn : S × ℕ) → All IsByte (bytes_of ((deadlined io).read n sn).0)
  read_IsByte n (s, zero) = tt
  read_IsByte n (s, suc k) = lawful.read_IsByte n s

  read_received :
      (n : ℕ) (sn : S × ℕ)
      → t.received ((deadlined io).read n sn).1.0
        ≡ t.received sn.0 ++ bytes_of ((deadlined io).read n sn).0
  read_received n (s, zero) = sym (append-nil (t.received s))
  read_received n (s, suc k) = lawful.read_received n s

  read_sent : (n : ℕ) (sn : S × ℕ) → t.sent ((deadlined io).read n sn).1.0 ≡ t.sent sn.0
  read_sent n (s, zero) = refl
  read_sent n (s, suc k) = lawful.read_sent n s

  write_count :
      (bytes : List ℕ) (sn : S × ℕ) → count_of ((deadlined io).write bytes sn).0 ≤ length bytes
  write_count bytes (s, zero) = omega arith
  write_count bytes (s, suc k) = lawful.write_count bytes s

  write_progress :
      (b : ℕ) (bytes : List ℕ) (sn : S × ℕ) → ((deadlined io).write (b ∷ bytes) sn).0 ≢ done 0
  write_progress b bytes (s, zero) = λ e. cc
  write_progress b bytes (s, suc k) = lawful.write_progress b bytes s

  write_sent :
      (bytes : List ℕ) (sn : S × ℕ)
      → t.sent ((deadlined io).write bytes sn).1.0
        ≡ t.sent sn.0 ++ take (count_of ((deadlined io).write bytes sn).0) bytes
  write_sent bytes (s, zero) = sym (append-nil (t.sent s))
  write_sent bytes (s, suc k) = lawful.write_sent bytes s

  write_received :
      (bytes : List ℕ) (sn : S × ℕ)
      → t.received ((deadlined io).write bytes sn).1.0 ≡ t.received sn.0
  write_received bytes (s, zero) = refl
  write_received bytes (s, suc k) = lawful.write_received bytes s

  flush_sent : (sn : S × ℕ) → t.sent ((deadlined io).flush sn).1.0 ≡ t.sent sn.0
  flush_sent (s, zero) = refl
  flush_sent (s, suc k) = lawful.flush_sent s

  flush_received : (sn : S × ℕ) → t.received ((deadlined io).flush sn).1.0 ≡ t.received sn.0
  flush_received (s, zero) = refl
  flush_received (s, suc k) = lawful.flush_received s

  -- A device with a deadline keeps the contract of the device.
  pub deadlined-IsIo : IsIo (deadlined io) (on_device t)
  deadlined-IsIo = record {
    read_length = read_length;
    read_IsByte = read_IsByte;
    read_received = read_received;
    read_sent = read_sent;
    write_count = write_count;
    write_progress = write_progress;
    write_sent = write_sent;
    write_received = write_received;
    flush_sent = flush_sent;
    flush_received = flush_received;
  }

module _ {S E : Type 0} {io : Io S E} {log : S → List Move} (logged : IsLogged io log) where
  read_log :
      (n : ℕ) (sn : S × ℕ)
      → log ((deadlined io).read n sn).1.0
        ≡ log sn.0 ++ map receives (bytes_of ((deadlined io).read n sn).0)
  read_log n (s, zero) = sym (append-nil (log s))
  read_log n (s, suc k) = logged.read_log n s

  write_log :
      (bytes : List ℕ) (sn : S × ℕ)
      → log ((deadlined io).write bytes sn).1.0
        ≡ log sn.0 ++ map sends (take (count_of ((deadlined io).write bytes sn).0) bytes)
  write_log bytes (s, zero) = sym (append-nil (log s))
  write_log bytes (s, suc k) = logged.write_log bytes s

  flush_log : (sn : S × ℕ) → log ((deadlined io).flush sn).1.0 ≡ log sn.0
  flush_log (s, zero) = refl
  flush_log (s, suc k) = logged.flush_log s

  -- A device with a deadline logs what the device does.
  pub deadlined-IsLogged : IsLogged (deadlined io) (λ sn. log sn.0)
  deadlined-IsLogged = record { read_log = read_log; write_log = write_log; flush_log = flush_log }
