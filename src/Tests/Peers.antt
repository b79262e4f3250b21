-- ===== src/Tests/Peers.antt =====
-- A port with somebody at the other end, who says more as he is told more.
use modbus_bridge_rs.Base.{
  ℕ, zero, suc, ◌/◌, ◌≤◌, ◌≡◌, refl, ap, ◌∙◌, List, [], ◌∷◌, ◌++◌, arith, min, length, take, drop,
  concat_map, IsByte, All-take, All-drop, length-take, drop-append, Bool,
}
use modbus_bridge_rs.Base.Outcome.{done}
use modbus_bridge_rs.Base.{true, false, ltb, length-append}
use modbus_bridge_rs.Io.{Io, IsIo, ReadReady, Traffic}
use modbus_bridge_rs.Timing.Punctual.{ReadyIn, at_once, later, IsPunctual}
use modbus_bridge_rs.Base.Outcome.{Outcome}
use modbus_bridge_rs.Io.Responsive.{IsResponsive}
use modbus_bridge_rs.Ports.{Ports, IsPorts, IsLive}
use modbus_bridge_rs.Tests.Devices.{
  vector, vector-IsHeapless, pin, octets, octets-IsByte, some_taken, done_zero,
}

-- What the other end says to what has gone out, the traffic, and how often the port has yet to say
-- that nothing is there.
pub record Peer : Type 0 where
  pub says : List ℕ → List ℕ
  pub outgoing : List ℕ
  pub taken : List ℕ
  pub late : ℕ

abbrev pub script : Peer → List ℕ → List ℕ
script s out = octets (s.says out)

-- It takes four bytes a write, and gives all that there is.
abbrev pub peer : Io Peer (Unit {0})
peer = record {
  read = λ n s.
      let bytes = take n (drop (length s.taken) (script s s.outgoing)) in
      (
        done bytes,
        record { says = s.says; outgoing = s.outgoing; taken = s.taken ++ bytes; late = 2 },
      );
  write = λ bytes s.
      let n = min 4 (length bytes) in
      (
        done n,
        record {
          says = s.says;
          outgoing = s.outgoing ++ take n bytes;
          taken = s.taken;
          late = s.late;
        },
      );
  flush = λ s. (done tt, s);
}

abbrev pub peer_traffic : Traffic Peer
peer_traffic = record { sent = λ s. s.outgoing; received = λ s. s.taken }

at_most : (n : ℕ) (l : List ℕ) → length (take n l) ≤ n
at_most n l = omega (arith, length-take n l)

pub peer-IsIo : IsIo peer peer_traffic
peer-IsIo = record {
  read_length = λ n s. at_most n (drop (length s.taken) (script s s.outgoing));
  read_IsByte = λ n s.
      All-take IsByte n (drop (length s.taken) (script s s.outgoing)) (
        All-drop IsByte (length s.taken) (script s s.outgoing) (octets-IsByte (s.says s.outgoing)));
  read_received = λ n s. refl;
  read_sent = λ n s. refl;
  write_count = λ bytes s. omega arith;
  write_progress = λ b bytes s. done_zero _ _ refl (some_taken b bytes);
  write_sent = λ bytes s. refl;
  write_received = λ bytes s. refl;
  flush_sent = λ s. refl;
  flush_received = λ s. refl;
}

pub gives :
    (n b : ℕ) (pending : List ℕ) (s : Peer)
    → 1 ≤ n
    → script s s.outgoing ≡ s.taken ++ (b ∷ pending)
    → (k : ℕ) × (suc k ≤ n) × ((peer.read n s).0 ≡ done (take (suc k) (b ∷ pending)))
gives zero b pending s h e = absurd (omega arith)
gives (suc k) b pending s h e = (
  k,
  omega arith,
  ap (λ l. done (take (suc k) l))
      (ap (drop (length s.taken)) e ∙ drop-append (length s.taken) s.taken (b ∷ pending) refl),
)

peer-IsResponsive : IsResponsive peer peer_traffic script
peer-IsResponsive = record {
  read_gives = gives;
  read_script = λ n s out. refl;
  write_takes = λ bytes s. (min 4 (length bytes), refl);
  write_script = λ bytes s out. refl;
  flush_returns = λ s. refl;
  flush_script = λ s out. refl;
}

-- Whether something is there, said after a number of times that nothing is.
abbrev pub poll : ℕ → Peer → Outcome (Unit {0}) Bool × Peer
poll zero s = (done (ltb (length s.taken) (length (script s s.outgoing))), s)
poll (suc n) s = (done false, record s { late = n })

abbrev pub peer_ready : ReadReady Peer (Unit {0})
peer_ready = record { read_ready = λ s. poll (min 3 s.late) s }

poll_outgoing : (n : ℕ) (s : Peer) → (poll n s).1.outgoing ≡ s.outgoing
poll_outgoing zero s = refl
poll_outgoing (suc n) s = refl

poll_taken : (n : ℕ) (s : Peer) → (poll n s).1.taken ≡ s.taken
poll_taken zero s = refl
poll_taken (suc n) s = refl

poll-script : (n : ℕ) (s : Peer) (out : List ℕ) → script (poll n s).1 out ≡ script s out
poll-script zero s out = refl
poll-script (suc n) s out = refl

pending-ltb :
    (b : ℕ) (said taken pending : List ℕ)
    → said ≡ taken ++ (b ∷ pending)
    → ltb (length taken) (length said) ≡ true
pending-ltb b said taken pending e = rw (e, length-append taken (b ∷ pending)) (ground arith)

peer-ReadyIn :
    (n b : ℕ) (pending : List ℕ) (s : Peer)
    → min 3 s.late ≡ n
    → script s s.outgoing ≡ s.taken ++ (b ∷ pending)
    → ReadyIn peer_ready n s
peer-ReadyIn zero b pending s h e =
    at_once s (rw (h, pending-ltb b (script s s.outgoing) s.taken pending e) refl)
peer-ReadyIn (suc n) b pending s h e =
    later n s (rw h refl) (rw h (peer-ReadyIn n b pending (record s { late = n }) (omega arith) e))

pub peer_ready-IsPunctual : IsPunctual peer_ready peer_traffic script 3
peer_ready-IsPunctual = record {
  quiet = record {
    ready_sent = λ s. poll_outgoing (min 3 s.late) s;
    ready_received = λ s. poll_taken (min 3 s.late) s;
  };
  ready_in =
      λ b pending s e. (min 3 s.late, omega arith, peer-ReadyIn (min 3 s.late) b pending s refl e);
  ready_script = λ s out. poll-script (min 3 s.late) s out;
}

abbrev pub peers : Ports Peer (List Bool) Peer (Unit {0}) (Unit {0})
peers = record { vec = vector; serial = peer; stream = peer; pin = pin }

pub peers-IsPorts : IsPorts peers peer_traffic peer_traffic
peers-IsPorts = record {
  vec_lawful = vector-IsHeapless;
  serial_lawful = peer-IsIo;
  stream_lawful = peer-IsIo;
}

pub peers-IsLive : IsLive peers peer_traffic peer_traffic script script
peers-IsLive = record { serial_live = peer-IsResponsive; stream_live = peer-IsResponsive }

-- One answer for every so many bytes of requests.
abbrev pub answering : ℕ → List (List ℕ) → List ℕ → List ℕ
answering size answers out = concat_map (λ l. l) (take (length out / size) answers)

abbrev pub quiet_peer : (List ℕ → List ℕ) → Peer
quiet_peer says = record { says = says; outgoing = []; taken = []; late = 2 }
