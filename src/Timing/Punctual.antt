-- ===== src/Timing/Punctual.antt =====
-- The polling loop of src/connection.rs and src/client_session.rs in front of a port that has
-- something to say, and soon says that it does.
use modbus_bridge_rs.Base.{
  ℕ, zero, suc, ◌+◌, ◌^◌, ◌≤◌, ◌<◌, ◌≡◌, refl, sym, ap, ◌∙◌, true, false, Option, none, some, List,
  ◌∷◌, ◌++◌, arith,
}
use modbus_bridge_rs.Base.Outcome.{done}
use modbus_bridge_rs.Base.Runs.{Runs}
use modbus_bridge_rs.Event.{BridgeError}
use modbus_bridge_rs.Io.{Io, IsIo, ReadReady, DelayNs, Traffic}
use modbus_bridge_rs.Io.Responsive.{IsResponsive, Faces}
use modbus_bridge_rs.Timing.{after_poll, poll_loop, wait_ready}
use modbus_bridge_rs.Timing.Poll.{IsReadReady, ready-At, gt→leb, saturating_add_one}

-- The port answers that nothing is there so many times, and then that something is.
pub data ReadyIn {S E : Type 0} (ready : ReadReady S E) : ℕ → S → Type 0 where
  at_once : (s : S) → (ready.read_ready s).0 ≡ done true → ReadyIn ready 0 s
  later :
      (n : ℕ) (s : S)
      → (ready.read_ready s).0 ≡ done false
      → ReadyIn ready n (ready.read_ready s).1
      → ReadyIn ready (suc n) s

-- While something is pending, no more than `patience` answers in a row are that nothing is there,
-- and none is an error.
pub record IsPunctual {S E : Type 0} (ready : ReadReady S E) (t : Traffic S)
    (script : S → List ℕ → List ℕ) (patience : ℕ) : Type 0 where
  pub quiet : IsReadReady ready t
  pub ready_in :
      (b : ℕ) (pending : List ℕ) (s : S)
      → script s (t.sent s) ≡ t.received s ++ (b ∷ pending)
      → (n : ℕ) × (n ≤ patience) × ReadyIn ready n s
  pub ready_script : (s : S) (out : List ℕ) → script (ready.read_ready s).1 out ≡ script s out

-- The configured timeout, if there is one, is as long as that.
abbrev pub Allows : ℕ → Option ℕ → Type 0
Allows patience none = Unit {0}
Allows patience (some timeout_ms) = (patience ≤ timeout_ms) × (timeout_ms < 2 ^ 32)

module _ {S D E SE TE : Type 0} {io : Io S E} {t : Traffic S} {script : S → List ℕ → List ℕ}
    (lawful : IsIo io t) (live : IsResponsive io t script) {ready : ReadReady S E} {patience : ℕ}
    (punctual : IsPunctual ready t script patience) (clock : DelayNs D)
    (io_error : E → BridgeError SE TE) (says : List ℕ → List ℕ) (out inn : List ℕ) where
  -- Asking changes nothing that the traffic shows.
  asked-Faces :
      (s : S)
      → Faces lawful live says out inn s
      → Faces lawful live says out inn (ready.read_ready s).1
  asked-Faces s (a, keeps) =
      (ready-At punctual.quiet out inn s a, λ x. punctual.ready_script s x ∙ keeps x)

  poll_loop-runs :
      (n fuel timeout_ms elapsed : ℕ) (s : S) (d : D)
      → n < fuel
      → n + elapsed ≤ timeout_ms
      → timeout_ms < 2 ^ 32
      → ReadyIn ready n s
      → Faces lawful live says out inn s
      → Runs
          (poll_loop ready clock io_error fuel timeout_ms elapsed)
          (s, d)
          tt
          (λ sd. Faces lawful live says out inn sd.0)
  unfolding poll_loop
  poll_loop-runs n zero timeout_ms elapsed s d more time small r f = absurd (omega arith)
  poll_loop-runs zero (suc fuel) timeout_ms elapsed s d more time small (at_once _ e) f = (
    ((ready.read_ready s).1, d),
    ap
        (λ o.
          after_poll ready clock io_error (poll_loop ready clock io_error fuel timeout_ms)
            timeout_ms elapsed o ((ready.read_ready s).1, d))
        e,
    asked-Faces s f,
  )
  poll_loop-runs (suc n) (suc fuel) timeout_ms elapsed s d more time small (later _ _ e r) f =
      rw
        (
          e,
          gt→leb timeout_ms elapsed (omega arith),
          saturating_add_one elapsed timeout_ms (omega arith) small,
        )
        (poll_loop-runs n fuel timeout_ms (elapsed + 1) (ready.read_ready s).1 (clock.delay_ms 1 d)
          (omega arith) (omega arith) small r (asked-Faces s f))

  -- The wait returns, and the port has said and heard nothing.
  pub wait_ready-runs :
      (timeout_ms : Option ℕ) (b : ℕ) (pending : List ℕ) (s : S) (d : D)
      → Allows patience timeout_ms
      → Faces lawful live says out inn s
      → says out ≡ inn ++ (b ∷ pending)
      → Runs
          (wait_ready ready clock io_error timeout_ms)
          (s, d)
          tt
          (λ sd. Faces lawful live says out inn sd.0)
  unfolding wait_ready
  wait_ready-runs none b pending s d h f e = ((s, d), refl, f)
  wait_ready-runs (some timeout_ms) b pending s d (long, small) f e =
      let (n, few, r) =
        punctual.ready_in b pending s
          (ap (script s) f.0.0 ∙ f.1 out ∙ e ∙ ap (λ l. l ++ (b ∷ pending)) (sym f.0.1)) in
      poll_loop-runs n (timeout_ms + 1) timeout_ms 0 s d (omega arith) (omega arith) small r f
