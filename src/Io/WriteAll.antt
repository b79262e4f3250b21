-- ===== src/Io/WriteAll.antt =====
-- The loop `write_all` of src/rtu.rs and src/tcp.rs delivers its data.
use modbus_bridge_rs.Base.{
  ℕ, zero, suc, ◌+◌, ◌≤◌, ◌≢◌, refl, ap, ◌∙◌, Option, List, [], ◌∷◌, ◌++◌, arith, length, take,
  drop, take-append-drop, take-append-take, length-drop,
}
use mathlib.Core.List.{append_assoc, append-nil}
use modbus_bridge_rs.Base.Outcome.{Outcome, done, fail, stalled, Exec, continue}
use modbus_bridge_rs.Base.Ensures.{Ensures, Ensures-continue, Ensures-weaken}
use modbus_bridge_rs.Io.{Io, IsIo, IsPrompt, Traffic, At, count_of, write_all_loop, write_all}

module _ {S E : Type 0} {io : Io S E} {t : Traffic S} (lawful : IsIo io t) where
  -- A prefix of the data has gone out.
  abbrev pub WroteSome : List ℕ → List ℕ → List ℕ → Option E → S → Type 0
  WroteSome out inn bytes e s = (n : ℕ) × At t (out ++ take n bytes) inn s

  one_write :
      (out inn bytes : List ℕ) (r : Outcome E ℕ) (s : S)
      → r ≢ done 0
      → At t (out ++ take (count_of r) bytes) inn s
      → Ensures (λ n s'. (1 ≤ n) × At t (out ++ take n bytes) inn s') (WroteSome out inn bytes) r s
  one_write out inn bytes (done zero) s p a = absurd (p refl)
  one_write out inn bytes (done (suc n)) s p a = (omega arith, a)
  one_write out inn bytes (fail e) s p a = (0, a)
  one_write out inn bytes stalled s p a = (0, a)

  write_all_loop-wrote :
      (fuel : ℕ) (out inn bytes : List ℕ) (s : S)
      → length bytes ≤ fuel
      → At t out inn s
      → Ensures
          (λ _ s'. At t (out ++ bytes) inn s')
          (WroteSome out inn bytes)
          (write_all_loop io fuel bytes s).0
          (write_all_loop io fuel bytes s).1
  unfolding write_all_loop
  write_all_loop-wrote fuel out inn [] s h a = rw append-nil a
  write_all_loop-wrote zero out inn (b ∷ bytes) s h a = absurd (omega arith)
  write_all_loop-wrote (suc fuel) out inn (b ∷ bytes) s h a =
      let whole : List ℕ = b ∷ bytes in
      Ensures-continue (λ n s'. (1 ≤ n) × At t (out ++ take n whole) inn s')
        (λ _ s'. At t (out ++ whole) inn s') (WroteSome out inn whole) (io.write whole s).0
        (λ n. write_all_loop io fuel (drop n whole)) (io.write whole s).1
        (one_write out inn whole (io.write whole s).0 (io.write whole s).1
          (lawful.write_progress b bytes s)
          (
            lawful.write_sent whole s
                ∙ ap (λ l. l ++ take (count_of (io.write whole s).0) whole) a.0,
            lawful.write_received whole s ∙ a.1,
          ))
        (λ n s' p.
          Ensures-weaken (λ _ s''. At t (out ++ take n whole ++ drop n whole) inn s'')
            (λ _ s''. At t (out ++ whole) inn s'')
            (WroteSome (out ++ take n whole) inn (drop n whole)) (WroteSome out inn whole)
            (write_all_loop io fuel (drop n whole) s').0
            (write_all_loop io fuel (drop n whole) s').1
            (write_all_loop-wrote fuel (out ++ take n whole) inn (drop n whole) s'
              (omega (arith, length-drop n whole)) p.1)
            (λ _ s'' q. (
              q.0
                  ∙ append_assoc out (take n whole) (drop n whole)
                  ∙ ap (λ l. out ++ l) (take-append-drop n whole),
              q.1,
            ))
            (λ _ s'' q. (
              n + q.0,
              (
                q.1.0
                    ∙ append_assoc out (take n whole) (take q.0 (drop n whole))
                    ∙ ap (λ l. out ++ l) (take-append-take n q.0 whole),
                q.1.1,
              ),
            )))

  -- On a device that keeps the contract of `Write`, `write_all` sends all of the data when it
  -- succeeds, and a prefix of it when it fails; it reads nothing.
  pub write_all-wrote :
      (out inn bytes : List ℕ) (s : S)
      → At t out inn s
      → Ensures
          (λ _ s'. At t (out ++ bytes) inn s')
          (WroteSome out inn bytes)
          (write_all io bytes s).0
          (write_all io bytes s).1
  unfolding write_all
  write_all-wrote out inn bytes s =
      write_all_loop-wrote (length bytes) out inn bytes s (omega arith)

  one_prompt :
      (r : Outcome E ℕ)
      → r ≢ stalled
      → r ≢ done 0
      → (f : ℕ → Exec S E (Unit {0})) (s : S) → ((n : ℕ) → 1 ≤ n → (s' : S) → (f n s').0 ≢ stalled)
      → (continue r f s).0 ≢ stalled
  one_prompt (done zero) c p f s q = absurd (p refl)
  one_prompt (done (suc n)) c p f s q = q (suc n) (omega arith) s
  one_prompt (fail e) c p f s q = λ x. cc
  one_prompt stalled c p f s q = absurd (c refl)

  write_all_loop-completes :
      IsPrompt io
      → (fuel : ℕ) (bytes : List ℕ) (s : S) → length bytes ≤ fuel
      → (write_all_loop io fuel bytes s).0 ≢ stalled
  unfolding write_all_loop
  write_all_loop-completes prompt fuel [] s h = λ x. cc
  write_all_loop-completes prompt zero (b ∷ bytes) s h = absurd (omega arith)
  write_all_loop-completes prompt (suc fuel) (b ∷ bytes) s h =
      one_prompt (io.write (b ∷ bytes) s).0 (prompt.write_completes (b ∷ bytes) s)
        (lawful.write_progress b bytes s) (λ n. write_all_loop io fuel (drop n (b ∷ bytes)))
        (io.write (b ∷ bytes) s).1
        (λ n hn s'.
          write_all_loop-completes prompt fuel (drop n (b ∷ bytes)) s'
            (omega (arith, length-drop n (b ∷ bytes))))

  -- On such a device whose calls complete, the loop ends.
  pub write_all-completes :
      IsPrompt io → (bytes : List ℕ) (s : S) → (write_all io bytes s).0 ≢ stalled
  unfolding write_all
  write_all-completes prompt bytes s =
      write_all_loop-completes prompt (length bytes) bytes s (omega arith)
