-- ===== src/Io/Responsive.antt =====
-- A device at whose other end somebody answers, as the cycles of the bridge expect: what it has
-- to say is a function of what it has been told, and a read gives some of it.
use modbus_bridge_rs.Base.{
  ℕ, zero, suc, ◌≤◌, ◌≡◌, refl, sym, ap, ◌∙◌, List, [], ◌∷◌, ◌++◌, arith, length, take,
  take-append_left, drop, append-take-drop, length-drop,
}
use mathlib.Core.List.{append-nil}
use modbus_bridge_rs.Base.Outcome.{done}
use modbus_bridge_rs.Base.Runs.{Runs, Runs-done, Runs-bind, Runs-weaken}
use modbus_bridge_rs.Io.{Io, IsIo, Traffic, At, bytes_of, count_of, write_all_loop, write_all}

-- `script s out` is all that the other end says once it has been told `out`; a call does not
-- change it. A read for which something is pending gives a part of that, and no call fails.
pub record IsResponsive {S E : Type 0} (io : Io S E) (t : Traffic S) (script : S → List ℕ → List ℕ)
    : Type 0 where
  pub read_gives :
      (n b : ℕ) (pending : List ℕ) (s : S)
      → 1 ≤ n
      → script s (t.sent s) ≡ t.received s ++ (b ∷ pending)
      → (k : ℕ) × (suc k ≤ n) × ((io.read n s).0 ≡ done (take (suc k) (b ∷ pending)))
  pub read_script : (n : ℕ) (s : S) (out : List ℕ) → script (io.read n s).1 out ≡ script s out
  pub write_takes : (bytes : List ℕ) (s : S) → (n : ℕ) × ((io.write bytes s).0 ≡ done n)
  pub write_script :
      (bytes : List ℕ) (s : S) (out : List ℕ) → script (io.write bytes s).1 out ≡ script s out
  pub flush_returns : (s : S) → (io.flush s).0 ≡ done tt
  pub flush_script : (s : S) (out : List ℕ) → script (io.flush s).1 out ≡ script s out

module _ {S E : Type 0} {io : Io S E} {t : Traffic S} {script : S → List ℕ → List ℕ}
    (lawful : IsIo io t) (live : IsResponsive io t script) where
  -- The traffic of the device up to now, and what the other end says.
  abbrev pub Faces : (List ℕ → List ℕ) → List ℕ → List ℕ → S → Type 0
  Faces says out inn s = At t out inn s × ((x : List ℕ) → script s x ≡ says x)

  -- One read of at most `n` bytes.
  read-runs :
      (says : List ℕ → List ℕ) (out inn : List ℕ) (b : ℕ) (w : List ℕ) (s : S)
      → Faces says out inn s
      → says out ≡ inn ++ (b ∷ w)
      → (n : ℕ) → 1 ≤ n
      → (k : ℕ) × (suc k ≤ n)
        × Runs (io.read n) s (b ∷ take k w) (Faces says out (inn ++ (b ∷ take k w)))
  read-runs says out inn b w s (a, keeps) e n h =
      let pending : script s (t.sent s) ≡ t.received s ++ (b ∷ w) =
        ap (script s) a.0 ∙ keeps out ∙ e ∙ ap (λ l. l ++ (b ∷ w)) (sym a.1) in
      let (k, small, gives) = live.read_gives n b w s h pending in
      (
        k,
        small,
        Runs-done (io.read n) s (b ∷ take k w) (Faces says out (inn ++ (b ∷ take k w))) gives (
          (
            lawful.read_sent n s ∙ a.0,
            lawful.read_received n s
                ∙ ap (λ l. l ++ bytes_of (io.read n s).0) a.1
                ∙ ap (λ o. inn ++ bytes_of o) gives,
          ),
          λ x. live.read_script n s x ∙ keeps x,
        ),
      )

  -- One read into a buffer that has room for `w`, while that and more is pending.
  pub read_part-runs :
      (says : List ℕ → List ℕ) (out inn : List ℕ) (b : ℕ) (w more : List ℕ) (n : ℕ) (s : S)
      → n ≡ suc (length w)
      → Faces says out inn s
      → says out ≡ inn ++ (b ∷ (w ++ more))
      → (k : ℕ) × (k ≤ length w)
        × Runs (io.read n) s (b ∷ take k w) (Faces says out (inn ++ (b ∷ take k w)))
  read_part-runs says out inn b w more n s h a e =
      let (k, small, runs) = read-runs says out inn b (w ++ more) s a e n (omega arith) in
      let fits : k ≤ length w = omega arith in
      (k, fits, rw (take-append_left k w more fits) at runs)

  pub flush-runs :
      (says : List ℕ → List ℕ) (out inn : List ℕ) (s : S)
      → Faces says out inn s
      → Runs io.flush s tt (Faces says out inn)
  flush-runs says out inn s (a, keeps) =
      Runs-done io.flush s tt (Faces says out inn) (live.flush_returns s) (
        (lawful.flush_sent s ∙ a.0, lawful.flush_received s ∙ a.1),
        λ x. live.flush_script s x ∙ keeps x,
      )

  one_write :
      (says : List ℕ → List ℕ) (out inn : List ℕ) (b : ℕ) (bytes : List ℕ) (s : S)
      → Faces says out inn s
      → (n : ℕ) × Runs
          (io.write (b ∷ bytes))
          s
          (suc n)
          (Faces says (out ++ take (suc n) (b ∷ bytes)) inn)
  one_write says out inn b bytes s (a, keeps) =
      let (n, takes) = live.write_takes (b ∷ bytes) s in go n takes
    where
      go :
          (n : ℕ)
          → (io.write (b ∷ bytes) s).0 ≡ done n
          → (m : ℕ) × Runs
              (io.write (b ∷ bytes))
              s
              (suc m)
              (Faces says (out ++ take (suc m) (b ∷ bytes)) inn)
      go zero takes = absurd (lawful.write_progress b bytes s takes)
      go (suc n) takes = (
        n,
        Runs-done (io.write (b ∷ bytes)) s (suc n)
            (Faces says (out ++ take (suc n) (b ∷ bytes)) inn) takes
            (
              (
                lawful.write_sent (b ∷ bytes) s
                    ∙ ap (λ l. l ++ take (count_of (io.write (b ∷ bytes) s).0) (b ∷ bytes)) a.0
                    ∙ ap (λ o. out ++ take (count_of o) (b ∷ bytes)) takes,
                lawful.write_received (b ∷ bytes) s ∙ a.1,
              ),
              λ x. live.write_script (b ∷ bytes) s x ∙ keeps x,
            ),
      )

  write_all_loop-runs :
      (says : List ℕ → List ℕ) (fuel : ℕ) (out inn bytes : List ℕ) (s : S)
      → length bytes ≤ fuel
      → Faces says out inn s
      → Runs (write_all_loop io fuel bytes) s tt (Faces says (out ++ bytes) inn)
  unfolding write_all_loop
  write_all_loop-runs says fuel out inn [] s h a = (s, refl, rw append-nil a)
  write_all_loop-runs says zero out inn (b ∷ bytes) s h a = absurd (omega arith)
  write_all_loop-runs says (suc fuel) out inn (b ∷ bytes) s h a =
      let (n, wrote) = one_write says out inn b bytes s a in
      Runs-bind (io.write (b ∷ bytes)) (λ m. write_all_loop io fuel (drop m (b ∷ bytes))) s (suc n)
        tt (Faces says (out ++ take (suc n) (b ∷ bytes)) inn) (Faces says (out ++ (b ∷ bytes)) inn)
        wrote
        (λ s' a'.
          Runs-weaken (write_all_loop io fuel (drop n bytes)) s' tt
            (Faces says ((out ++ (b ∷ take n bytes)) ++ drop n bytes) inn)
            (Faces says (out ++ (b ∷ bytes)) inn)
            (write_all_loop-runs says fuel (out ++ (b ∷ take n bytes)) inn (drop n bytes) s'
              (omega (arith, length-drop n bytes)) a')
            (λ _ ((sent, received), keeps).
              ((sent ∙ append-take-drop out b n bytes, received), keeps)))

  -- Everything is sent.
  pub write_all-runs :
      (says : List ℕ → List ℕ) (out inn bytes : List ℕ) (s : S)
      → Faces says out inn s
      → Runs (write_all io bytes) s tt (Faces says (out ++ bytes) inn)
  unfolding write_all
  write_all-runs says out inn bytes s =
      write_all_loop-runs says (length bytes) out inn bytes s (omega arith)
