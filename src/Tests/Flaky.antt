-- ===== src/Tests/Flaky.antt =====
-- The peer behind a port that fails a number of reads.
use modbus_bridge_rs.Base.{
  ℕ, zero, suc, ◌≤◌, ◌≡◌, refl, List, ◌∷◌, ◌++◌, arith, length, take, IsByte,
}
use modbus_bridge_rs.Base.Outcome.{done}
use modbus_bridge_rs.Io.{Io, IsIo, Traffic, bytes_of}
use modbus_bridge_rs.Base.{All, sym, ◌⊎◌, inl, inr, ◌<◌}
use modbus_bridge_rs.Base.Outcome.{Outcome, fail}
use modbus_bridge_rs.Rtu.Tolerance.{IsFaulty}
use mathlib.Core.List.{append-nil}
use modbus_bridge_rs.Tests.Devices.{some_taken, done_zero}
use modbus_bridge_rs.Tests.Peers.{Peer, script, peer, peer-IsIo, gives}

abbrev pub flaky_read : ℕ → ℕ → Peer → Outcome (Unit {0}) (List ℕ) × (Peer × ℕ)
flaky_read zero n s = ((peer.read n s).0, ((peer.read n s).1, 0))
flaky_read (suc f) n s = (fail tt, (s, f))

-- The same peer behind a port that fails a number of reads before it gives anything.
abbrev pub flaky : Io (Peer × ℕ) (Unit {0})
flaky = record {
  read = λ n sf. flaky_read sf.1 n sf.0;
  write = λ bytes sf. ((peer.write bytes sf.0).0, ((peer.write bytes sf.0).1, sf.1));
  flush = λ sf. (done tt, sf);
}

abbrev pub flaky_traffic : Traffic (Peer × ℕ)
flaky_traffic = record { sent = λ sf. sf.0.outgoing; received = λ sf. sf.0.taken }

flaky_length : (f n : ℕ) (s : Peer) → length (bytes_of (flaky_read f n s).0) ≤ n
flaky_length zero n s = peer-IsIo.read_length n s
flaky_length (suc f) n s = omega arith

flaky-IsByte : (f n : ℕ) (s : Peer) → All IsByte (bytes_of (flaky_read f n s).0)
flaky-IsByte zero n s = peer-IsIo.read_IsByte n s
flaky-IsByte (suc f) n s = tt

flaky_received :
    (f n : ℕ) (s : Peer) → (flaky_read f n s).1.0.taken ≡ s.taken ++ bytes_of (flaky_read f n s).0
flaky_received zero n s = refl
flaky_received (suc f) n s = sym (append-nil s.taken)

flaky_sent : (f n : ℕ) (s : Peer) → (flaky_read f n s).1.0.outgoing ≡ s.outgoing
flaky_sent zero n s = refl
flaky_sent (suc f) n s = refl

pub flaky-IsIo : IsIo flaky flaky_traffic
flaky-IsIo = record {
  read_length = λ n sf. flaky_length sf.1 n sf.0;
  read_IsByte = λ n sf. flaky-IsByte sf.1 n sf.0;
  read_received = λ n sf. flaky_received sf.1 n sf.0;
  read_sent = λ n sf. flaky_sent sf.1 n sf.0;
  write_count = λ bytes sf. omega arith;
  write_progress = λ b bytes sf. done_zero _ _ refl (some_taken b bytes);
  write_sent = λ bytes sf. refl;
  write_received = λ bytes sf. refl;
  flush_sent = λ sf. refl;
  flush_received = λ sf. refl;
}

flaky_gives :
    (f n b : ℕ) (pending : List ℕ) (s : Peer)
    → 1 ≤ n
    → script s s.outgoing ≡ s.taken ++ (b ∷ pending)
    → ((k : ℕ) × (suc k ≤ n) × ((flaky_read f n s).0 ≡ done (take (suc k) (b ∷ pending))))
      ⊎ ((e : Unit {0}) × ((flaky_read f n s).0 ≡ fail e) × ((flaky_read f n s).1.1 < f))
flaky_gives zero n b pending s h e = inl (gives n b pending s h e)
flaky_gives (suc f) n b pending s h e = inr (tt, refl, omega arith)

flaky_script :
    (f n : ℕ) (s : Peer) (out : List ℕ) → script (flaky_read f n s).1.0 out ≡ script s out
flaky_script zero n s out = refl
flaky_script (suc f) n s out = refl

flaky_faults : (f n : ℕ) (s : Peer) → (flaky_read f n s).1.1 ≤ f
flaky_faults zero n s = omega arith
flaky_faults (suc f) n s = omega arith

pub flaky-IsFaulty : IsFaulty flaky flaky_traffic (λ sf. script sf.0) (λ sf. sf.1)
flaky-IsFaulty = record {
  read_gives = λ n b pending sf. flaky_gives sf.1 n b pending sf.0;
  read_script = λ n sf. flaky_script sf.1 n sf.0;
  read_faults = λ n sf. flaky_faults sf.1 n sf.0;
}
