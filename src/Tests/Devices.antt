-- ===== src/Tests/Devices.antt =====
-- Concrete devices with the documented behaviour: a vector with a capacity, a port that takes four
-- bytes a write, and a pin that keeps its history.
use modbus_bridge_rs.Base.{
  ℕ, zero, suc, ◌+◌, ◌%◌, ◌≤◌, ◌<◌, ◌≡◌, ◌≢◌, refl, List, [], ◌∷◌, ◌++◌, Bool, true, false, arith,
  min, length, take, drop, All, IsByte, leb, ltb, if◌then◌else◌,
}
use modbus_bridge_rs.Base.Outcome.{Outcome, done, fail, stalled}
use modbus_bridge_rs.Heapless.{Heapless, IsHeapless}
use modbus_bridge_rs.Io.{Io, IsIo, IsPrompt, OutputPin, Traffic, ReadReady, DelayNs}
use modbus_bridge_rs.Timing.Poll.{IsReadReady}
use modbus_bridge_rs.Ports.{Ports, IsPorts}

abbrev pub vector : Heapless
vector = record {
  extend_from_slice =
      λ cap slice v. if leb (length v + length slice) cap then (true, v ++ slice) else (false, v);
  push = λ cap b v. if ltb (length v) cap then (true, v ++ (b ∷ [])) else (false, v);
}

le→leb : (a b : ℕ) → a ≤ b → leb a b ≡ true
le→leb a b h = ground arith

gt→leb : (a b : ℕ) → b < a → leb a b ≡ false
gt→leb a b h = ground arith

lt→ltb' : (a b : ℕ) → a < b → ltb a b ≡ true
lt→ltb' a b h = ground arith

ge→ltb : (a b : ℕ) → b ≤ a → ltb a b ≡ false
ge→ltb a b h = ground arith

pub vector-IsHeapless : IsHeapless vector
vector-IsHeapless = record {
  extend_fits = λ cap slice v h. rw (le→leb (length v + length slice) cap h);
  extend_full = λ cap slice v h. rw (gt→leb (length v + length slice) cap h);
  push_fits = λ cap b v h. rw (lt→ltb' (length v) cap h);
  push_full = λ cap b v h. rw (ge→ltb (length v) cap h);
}

-- What is still to come in, what has gone out, and what has come in.
pub record Port : Type 0 where
  pub incoming : List ℕ
  pub outgoing : List ℕ
  pub taken : List ℕ

abbrev pub octets : List ℕ → List ℕ
octets [] = []
octets (b ∷ bs) = (b % 256) ∷ octets bs

abbrev pub port : Io Port (Unit {0})
port = record {
  read = λ n s.
      let bytes = octets (take n s.incoming) in
      (
        done bytes,
        record { incoming = drop n s.incoming; outgoing = s.outgoing; taken = s.taken ++ bytes },
      );
  write = λ bytes s.
      let n = min 4 (length bytes) in
      (
        done n,
        record { incoming = s.incoming; outgoing = s.outgoing ++ take n bytes; taken = s.taken },
      );
  flush = λ s. (done tt, s);
}

abbrev pub traffic : Traffic Port
traffic = record { sent = λ s. s.outgoing; received = λ s. s.taken }

length-octets : (n : ℕ) (l : List ℕ) → length (octets (take n l)) ≤ n
length-octets zero l = omega arith
length-octets (suc n) [] = omega arith
length-octets (suc n) (b ∷ l) = omega (arith, length-octets n l)

pub octets-IsByte : (l : List ℕ) → All IsByte (octets l)
octets-IsByte [] = tt
octets-IsByte (b ∷ l) = (omega arith, octets-IsByte l)

pub some_taken : (b : ℕ) (bytes : List ℕ) → min 4 (length (b ∷ bytes)) ≢ 0
some_taken b bytes = omega arith

pub done_zero : (n : ℕ) (r : Outcome (Unit {0}) ℕ) → r ≡ done n → n ≢ 0 → r ≢ done 0
done_zero n r e h z = h (cc)

pub port-IsIo : IsIo port traffic
port-IsIo = record {
  read_length = λ n s. length-octets n s.incoming;
  read_IsByte = λ n s. octets-IsByte (take n s.incoming);
  read_received = λ n s. refl;
  read_sent = λ n s. refl;
  write_count = λ bytes s. omega arith;
  write_progress = λ b bytes s. done_zero _ _ refl (some_taken b bytes);
  write_sent = λ bytes s. refl;
  write_received = λ bytes s. refl;
  flush_sent = λ s. refl;
  flush_received = λ s. refl;
}

done_stalled : {A : Type 0} (a : A) (r : Outcome (Unit {0}) A) → r ≡ done a → r ≢ stalled
done_stalled a r e z = cc

pub port-IsPrompt : IsPrompt port
port-IsPrompt = record {
  read_completes = λ n s. done_stalled (octets (take n s.incoming)) _ refl;
  write_completes = λ bytes s. done_stalled (min 4 (length bytes)) _ refl;
  flush_completes = λ s. done_stalled tt _ refl;
}

-- The levels that the pin has been driven to, the last one first.
abbrev pub pin : OutputPin (List Bool)
pin = record { set_high = λ l. (true, true ∷ l); set_low = λ l. (true, false ∷ l) }

abbrev pub ports : Ports Port (List Bool) Port (Unit {0}) (Unit {0})
ports = record { vec = vector; serial = port; stream = port; pin = pin }

pub ports-IsPorts : IsPorts ports traffic traffic
ports-IsPorts = record {
  vec_lawful = vector-IsHeapless;
  serial_lawful = port-IsIo;
  stream_lawful = port-IsIo;
}

-- A port with some bytes to come and no traffic yet.
abbrev pub fresh : List ℕ → Port
fresh bytes = record { incoming = bytes; outgoing = []; taken = [] }

-- A port whose writes fail.
abbrev pub mute : Io Port (Unit {0})
mute = record { read = port.read; write = λ bytes s. (fail tt, s); flush = port.flush }

-- Ready when there are bytes to come.
abbrev pub ready : ReadReady Port (Unit {0})
ready = record { read_ready = λ s. (done (ltb 0 (length s.incoming)), s) }

pub ready-IsReadReady : IsReadReady ready traffic
ready-IsReadReady = record { ready_sent = λ s. refl; ready_received = λ s. refl }

-- A device that has something to say only after it has been asked.
abbrev pub ready_if_asked : ReadReady Port (Unit {0})
ready_if_asked = record { read_ready = λ s. (done (ltb 0 (length s.outgoing)), s) }

-- A delay provider that counts the milliseconds.
abbrev pub counter : DelayNs ℕ
counter = record { delay_ms = λ ms d. d + ms }
