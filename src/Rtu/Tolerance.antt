-- ===== src/Rtu/Tolerance.antt =====
-- `read_exact` of src/rtu.rs on a port some of whose reads fail: it tries again.
use modbus_bridge_rs.Base.{
  ℕ, zero, suc, ◌+◌, ◌-◌, ◌≤◌, ◌<◌, ◌≡◌, ◌⊎◌, sym, ap, ◌∙◌, inl, inr, List, [], ◌∷◌, ◌++◌, arith,
  length, take, drop, take-append-drop, append-take-drop, take-append_left, length-append,
  length-drop, length-take, le→ltb, lt→ltb,
}
use mathlib.Core.List.{append_assoc, append-nil}
use modbus_bridge_rs.Base.Outcome.{done, fail}
use modbus_bridge_rs.Base.Runs.{Runs}
use modbus_bridge_rs.Io.{Io, IsIo, Traffic, At, bytes_of}
use modbus_bridge_rs.Rtu.{after_read, read_exact_loop, read_exact}

-- A port at whose other end somebody answers, and whose reads may fail a number of times more,
-- which is at most `faults`.
pub record IsFaulty {S E : Type 0} (io : Io S E) (t : Traffic S) (script : S → List ℕ → List ℕ)
    (faults : S → ℕ) : Type 0 where
  pub read_gives :
      (n b : ℕ) (pending : List ℕ) (s : S)
      → 1 ≤ n
      → script s (t.sent s) ≡ t.received s ++ (b ∷ pending)
      → ((k : ℕ) × (suc k ≤ n) × ((io.read n s).0 ≡ done (take (suc k) (b ∷ pending))))
        ⊎ ((e : E) × ((io.read n s).0 ≡ fail e) × (faults (io.read n s).1 < faults s))
  pub read_script : (n : ℕ) (s : S) (out : List ℕ) → script (io.read n s).1 out ≡ script s out
  pub read_faults : (n : ℕ) (s : S) → faults (io.read n s).1 ≤ faults s

module _ {S E : Type 0} {io : Io S E} {t : Traffic S} {script : S → List ℕ → List ℕ}
    {faults : S → ℕ} (lawful : IsIo io t) (faulty : IsFaulty io t script faults)
    (says : List ℕ → List ℕ) where
  -- The traffic up to now, and how many reads may still fail.
  abbrev pub Stands : ℕ → List ℕ → List ℕ → S → Type 0
  Stands left out inn s = At t out inn s × ((x : List ℕ) → script s x ≡ says x) × (faults s ≤ left)

  one_read :
      (left : ℕ) (out inn : List ℕ) (b : ℕ) (w more : List ℕ) (n : ℕ) (s : S)
      → n ≡ suc (length w)
      → Stands left out inn s
      → says out ≡ inn ++ (b ∷ (w ++ more))
      → ((k : ℕ) × (k ≤ length w)
          × Runs (io.read n) s (b ∷ take k w) (Stands left out (inn ++ (b ∷ take k w))))
        ⊎ ((e : E) × (l : ℕ) × (s' : S) × (suc l ≤ left)
            × (io.read n s ≡ (fail e, s'))
            × Stands l out inn s')
  one_read left out inn b w more n s size (a, keeps, few) says_more =
      let pending : script s (t.sent s) ≡ t.received s ++ (b ∷ (w ++ more)) =
        ap (script s) a.0 ∙ keeps out ∙ says_more ∙ ap (λ l. l ++ (b ∷ (w ++ more))) (sym a.1) in
      let gone : t.received (io.read n s).1 ≡ inn ++ bytes_of (io.read n s).0 =
        lawful.read_received n s ∙ ap (λ l. l ++ bytes_of (io.read n s).0) a.1 in
      elim (faulty.read_gives n b (w ++ more) s (omega arith) pending) [
        | inl (k, small, gives) ↦ inl (
          k,
          omega arith,
          (
            (io.read n s).1,
            rw (← take-append_left k w more (omega arith)) (ap (λ o. (o, (io.read n s).1)) gives),
            (
              (
                lawful.read_sent n s ∙ a.0,
                rw (← take-append_left k w more (omega arith))
                    (gone ∙ ap (λ o. inn ++ bytes_of o) gives),
              ),
              λ x. faulty.read_script n s x ∙ keeps x,
              omega (arith, faulty.read_faults n s),
            ),
          ),
        )
        | inr (e, fails, fewer) ↦ inr (
          e,
          faults (io.read n s).1,
          (io.read n s).1,
          omega arith,
          ap (λ o. (o, (io.read n s).1)) fails,
          (
            (lawful.read_sent n s ∙ a.0, gone ∙ ap (λ o. inn ++ bytes_of o) fails ∙ append-nil inn),
            λ x. faulty.read_script n s x ∙ keeps x,
            omega arith,
          ),
        )
      ]

  -- What the rest of the loop is known to do.
  abbrev Reads : ℕ → ℕ → ℕ → List ℕ → List ℕ → Type 0
  Reads fuel len left out more =
      (attempt l : ℕ) (inn buf w : List ℕ) (s : S)
      → length buf + length w ≡ len
      → attempt + l ≤ 11
      → l ≤ left
      → length w + l < fuel
      → Stands l out inn s
      → says out ≡ inn ++ (w ++ more)
      → Runs (read_exact_loop io fuel len buf attempt) s (buf ++ w) (Stands left out (inn ++ w))

  after_gift :
      (fuel len left attempt l b k : ℕ) (out inn buf w more : List ℕ) (s s' : S)
      → Reads fuel len left out more
      → length buf + suc (length w) ≡ len
      → attempt + l ≤ 11
      → l ≤ left
      → length w + l < fuel
      → k ≤ length w
      → io.read (len - length buf) s ≡ (done (b ∷ take k w), s')
      → Stands l out (inn ++ (b ∷ take k w)) s'
      → says out ≡ inn ++ (b ∷ (w ++ more))
      → Runs
          (λ u.
            after_read io
              (read_exact_loop io fuel len)
              buf
              attempt
              (io.read (len - length buf) u).0
              (io.read (len - length buf) u).1)
          s
          (buf ++ (b ∷ w))
          (Stands left out (inn ++ (b ∷ w)))
  after_gift fuel len left attempt l b k out inn buf w more s s' reads size tries most room small
        gives a e =
      let (s'', goes, a') =
        rw (append-take-drop buf b k w, append-take-drop inn b k w) at
          (reads attempt l (inn ++ (b ∷ take k w)) (buf ++ (b ∷ take k w)) (drop k w) s'
            (omega (arith, length-append buf (b ∷ take k w), length-take k w, length-drop k w))
            tries most (omega (arith, length-drop k w)) a
            (e
              ∙ ap (λ m. inn ++ (b ∷ (m ++ more))) (sym (take-append-drop k w))
              ∙ ap (λ m. inn ++ (b ∷ m)) (append_assoc (take k w) (drop k w) more)
              ∙ sym (append_assoc inn (b ∷ take k w) (drop k w ++ more)))) in
      (
        s'',
        ap (λ r. after_read io (read_exact_loop io fuel len) buf attempt r.0 r.1) gives ∙ goes,
        a',
      )

  read_exact_loop-Reads : (fuel len left : ℕ) (out more : List ℕ) → Reads fuel len left out more
  unfolding read_exact_loop
  read_exact_loop-Reads zero len left out more attempt l inn buf w s size tries most room a e =
      absurd (omega arith)
  read_exact_loop-Reads (suc fuel) len left out more attempt l inn buf [] s size tries most room
        (a, keeps, few) e =
      rw (le→ltb (length buf) len (omega arith))
        (s, rw append-nil, rw append-nil (a, keeps, omega arith))
  read_exact_loop-Reads (suc fuel) len left out more attempt l inn buf (b ∷ w) s size tries most
        room a e =
      let rest : Reads fuel len left out more = read_exact_loop-Reads fuel len left out more in
      rw (lt→ltb (length buf) len (omega arith))
        (elim (one_read l out inn b w more (len - length buf) s (omega arith) a e) [
          | inl (k, small, (s', gives, a')) ↦
              after_gift fuel len left attempt l b k out inn buf w more s s' rest size tries most
                (omega arith) small gives a' e
          | inr (x, m, s', fewer, fails, a') ↦
              let (s'', goes, a'') =
                rest (attempt + 1) m inn buf (b ∷ w) s' size (omega arith) (omega arith)
                  (omega arith) a' e in
              (
                s'',
                ap (λ r. after_read io (read_exact_loop io fuel len) buf attempt r.0 r.1) fails
                    ∙ rw (le→ltb 10 attempt (omega arith)) goes,
                a'',
              )
        ])

  -- On a port at whose other end somebody answers, `read_exact` returns the next `len` bytes even
  -- if up to ten reads fail in between, wherever they do: they neither lose nor repeat a byte.
  pub read_exact-tolerates :
      (len left : ℕ) (out inn w more : List ℕ) (s : S)
      → length w ≡ len
      → left ≤ 10
      → Stands left out inn s
      → says out ≡ inn ++ (w ++ more)
      → Runs (read_exact io len) s w (Stands left out (inn ++ w))
  unfolding read_exact
  read_exact-tolerates len left out inn w more s size few =
      read_exact_loop-Reads (len + 11) len left out more 1 left inn [] w s (omega arith)
        (omega arith) (omega arith) (omega arith)
