-- ===== src/Rtu/Success.antt =====
-- The transport of src/rtu.rs on a port at whose other end somebody answers: every call returns.
use modbus_bridge_rs.Base.{
  ℕ, zero, suc, ◌+◌, ◌-◌, ◌≤◌, ◌<◌, ◌≡◌, refl, sym, ap, ◌∙◌, List, [], ◌∷◌, ◌++◌, arith, length,
  take, drop, take-append-drop, append-take-drop, length-append, length-drop, length-take, le→ltb,
  lt→ltb, get_or,
}
use mathlib.Core.List.{append_assoc, append-nil}
use modbus_bridge_rs.Base.Outcome.{done, Exec, ◌>>=◌}
use modbus_bridge_rs.Base.Runs.{Runs, Runs-bind}
use modbus_bridge_rs.Heapless.{Heapless, IsHeapless}
use modbus_bridge_rs.Io.{Io, IsIo, Traffic}
use modbus_bridge_rs.Io.Responsive.{IsResponsive, Faces, read_part-runs}
use modbus_bridge_rs.Rtu.{RtuError, after_read, read_exact_loop, read_exact, or_push, read_bytes}

module _ {S E : Type 0} {io : Io S E} {t : Traffic S} {script : S → List ℕ → List ℕ}
    (lawful : IsIo io t) (live : IsResponsive io t script) (says : List ℕ → List ℕ) where
  -- One answer of the port, then the rest of the loop.
  after_read-runs :
      (rest : List ℕ → ℕ → Exec S (RtuError E) (List ℕ)) (len attempt b k : ℕ)
      (out inn buf w more : List ℕ) (s s' : S)
      → ((buf' w' inn' : List ℕ) (s'' : S)
          → length buf' + length w' ≡ len
          → length w' ≤ length w
          → Faces lawful live says out inn' s''
          → says out ≡ inn' ++ (w' ++ more)
          → Runs (rest buf' attempt) s'' (buf' ++ w') (Faces lawful live says out (inn' ++ w')))
      → length buf + suc (length w) ≡ len
      → k ≤ length w
      → io.read (len - length buf) s ≡ (done (b ∷ take k w), s')
      → Faces lawful live says out (inn ++ (b ∷ take k w)) s'
      → says out ≡ inn ++ (b ∷ (w ++ more))
      → Runs
          (λ u.
            after_read io rest buf attempt
              (io.read (len - length buf) u).0
              (io.read (len - length buf) u).1)
          s
          (buf ++ (b ∷ w))
          (Faces lawful live says out (inn ++ (b ∷ w)))
  after_read-runs rest len attempt b k out inn buf w more s s' runs size small gives a e =
      let (s'', goes, a') =
        rw (append-take-drop buf b k w, append-take-drop inn b k w) at
          (runs (buf ++ (b ∷ take k w)) (drop k w) (inn ++ (b ∷ take k w)) s'
            (omega (arith, length-append buf (b ∷ take k w), length-take k w, length-drop k w))
            (omega (arith, length-drop k w)) a
            (e
              ∙ ap (λ l. inn ++ (b ∷ (l ++ more))) (sym (take-append-drop k w))
              ∙ ap (λ l. inn ++ (b ∷ l)) (append_assoc (take k w) (drop k w) more)
              ∙ sym (append_assoc inn (b ∷ take k w) (drop k w ++ more)))) in
      (s'', ap (λ r. after_read io rest buf attempt r.0 r.1) gives ∙ goes, a')

  read_exact_loop-runs :
      (fuel len attempt : ℕ) (out inn buf w more : List ℕ) (s : S)
      → length buf + length w ≡ len
      → length w < fuel
      → Faces lawful live says out inn s
      → says out ≡ inn ++ (w ++ more)
      → Runs
          (read_exact_loop io fuel len buf attempt)
          s
          (buf ++ w)
          (Faces lawful live says out (inn ++ w))
  unfolding read_exact_loop
  read_exact_loop-runs zero len attempt out inn buf w more s size h a e = absurd (omega arith)
  read_exact_loop-runs (suc fuel) len attempt out inn buf [] more s size h a e =
      rw (le→ltb (length buf) len (omega arith)) (s, rw append-nil, rw append-nil a)
  read_exact_loop-runs (suc fuel) len attempt out inn buf (b ∷ w) more s size h a e =
      let (k, small, (s', gives, a')) =
        read_part-runs lawful live says out inn b w more (len - length buf) s (omega arith) a e in
      rw (lt→ltb (length buf) len (omega arith)) (
        after_read-runs (read_exact_loop io fuel len) len attempt b k out inn buf w more s s'
          (λ buf' w' inn' u size' short a'' e'.
            read_exact_loop-runs fuel len attempt out inn' buf' w' more u size' (omega arith) a''
              e')
          size small gives a' e)

  -- The next `len` bytes, however the port parts them.
  pub read_exact-runs :
      (len : ℕ) (out inn w more : List ℕ) (s : S)
      → length w ≡ len
      → Faces lawful live says out inn s
      → says out ≡ inn ++ (w ++ more)
      → Runs (read_exact io len) s w (Faces lawful live says out (inn ++ w))
  unfolding read_exact
  read_exact-runs len out inn w more s size =
      read_exact_loop-runs (len + 11) len 1 out inn [] w more s (omega arith) (omega arith)

  module _ {h : Heapless} (vec : IsHeapless h) where
    -- The next bytes, one at a time.
    pub read_bytes-runs :
        (cap n : ℕ) (out inn v w more : List ℕ) (s : S)
        → length w ≡ n
        → length v + n ≤ cap
        → Faces lawful live says out inn s
        → says out ≡ inn ++ (w ++ more)
        → Runs (read_bytes h io cap n v) s (v ++ w) (Faces lawful live says out (inn ++ w))
    unfolding read_bytes
    read_bytes-runs cap zero out inn v [] more s size fits a e = (s, rw append-nil, rw append-nil a)
    read_bytes-runs cap zero out inn v (b ∷ w) more s size fits a e = absurd (omega arith)
    read_bytes-runs cap (suc n) out inn v [] more s size fits a e = absurd (omega arith)
    read_bytes-runs cap (suc n) out inn v (b ∷ w) more s size fits a e =
        Runs-bind (read_exact io 1)
          (λ byte. or_push h io (h.push cap (get_or byte 0 0) v) >>= λ v'. read_bytes h io cap n v')
          s (b ∷ []) (v ++ (b ∷ w)) (Faces lawful live says out (inn ++ (b ∷ [])))
          (Faces lawful live says out (inn ++ (b ∷ w)))
          (read_exact-runs 1 out inn (b ∷ []) (w ++ more) s refl a e)
          (λ s' a'. rw (vec.push_fits cap b v (omega arith)) (
            rw (append_assoc v (b ∷ []) w, append_assoc inn (b ∷ []) w) at
              (read_bytes-runs cap n out (inn ++ (b ∷ [])) (v ++ (b ∷ [])) w more s' (omega arith)
                (omega (arith, length-append v (b ∷ []))) a'
                (e ∙ sym (append_assoc inn (b ∷ []) (w ++ more))))))
