-- ===== src/Base/Runs.antt =====
-- Total correctness of code with I/O: the value that it returns, and the state that it leaves.
use mathlib.Core.Path.{◌≡◌, refl, ap, ◌∙◌}
use Prim.Native.Nat.{ℕ, suc}
use mathlib.Core.List.{List, ◌∷◌}
use modbus_bridge_rs.Base.Outcome.{
  done, Exec, calls, continue, ◌>>=◌, ◌>>◌, pure, map_fail, map_fail_outcome, zoom,
}

module _ {S E A : Type 0} where
  -- The code returns `a` from the state `s`, in a state that satisfies `P`.
  abbrev pub Runs : Exec S E A → S → A → (S → Type 0) → Type 0
  Runs m s a P = (s' : S) × (m s ≡ (done a, s')) × P s'

  pub Runs-pure : (a : A) (s : S) (P : S → Type 0) → P s → Runs (pure a) s a P
  Runs-pure a s P p = (s, refl, p)

  pub Runs-weaken :
      (m : Exec S E A) (s : S) (a : A) (P Q : S → Type 0)
      → Runs m s a P
      → ((s' : S) → P s' → Q s')
      → Runs m s a Q
  Runs-weaken m s a P Q (s', e, p) q = (s', e, q s' p)

  -- A call that is known to return, when the state that it leaves is known to satisfy `P`.
  pub Runs-done :
      (m : Exec S E A) (s : S) (a : A) (P : S → Type 0)
      → (m s).0 ≡ done a
      → P (m s).1
      → Runs m s a P
  Runs-done m s a P e p = ((m s).1, ap (λ o. (o, (m s).1)) e, p)

module _ {S E A B : Type 0} where
  -- A step that returns `a`, then the rest.
  pub Runs-bind :
      (m : Exec S E A) (f : A → Exec S E B) (s : S) (a : A) (b : B) (P Q : S → Type 0)
      → Runs m s a P
      → ((s' : S) → P s' → Runs (f a) s' b Q)
      → Runs (m >>= f) s b Q
  Runs-bind m f s a b P Q (s', e, p) q =
      let (s'', e', p') = q s' p in (s'', ap (λ r. continue r.0 f r.1) e ∙ e', p')

  pub Runs-then :
      (m : Exec S E A) (k : Exec S E B) (s : S) (a : A) (b : B) (P Q : S → Type 0)
      → Runs m s a P
      → ((s' : S) → P s' → Runs k s' b Q)
      → Runs (m >> k) s b Q
  Runs-then m k = Runs-bind m (λ _. k)

module _ {S E A : Type 0} where
  -- One more call in front.
  pub calls-suc :
      (m : Exec S E A) (n : ℕ) (s : S) (a : A) (as' : List A) (P Q : S → Type 0)
      → Runs m s a P
      → ((s' : S) → P s' → Runs (calls n m) s' as' Q)
      → Runs (calls (suc n) m) s (a ∷ as') Q
  calls-suc m n s a as' P Q first rest =
      Runs-bind m (λ b. calls n m >>= λ bs. pure (b ∷ bs)) s a (a ∷ as') P Q first
        (λ s' p.
          Runs-bind (calls n m) (λ bs. pure (a ∷ bs)) s' as' (a ∷ as') Q Q (rest s' p)
            (λ s'' q. (s'', refl, q)))

module _ {S E F A : Type 0} where
  pub Runs-map_fail :
      (f : E → F) (m : Exec S E A) (s : S) (a : A) (P : S → Type 0)
      → Runs m s a P
      → Runs (map_fail f m) s a P
  Runs-map_fail f m s a P (s', e, p) = (s', ap (λ r. (map_fail_outcome f r.0, r.1)) e, p)

module _ {S T E A : Type 0} (get : T → S) (set : S → T → T) where
  -- What code on a part leaves is put back into the whole.
  pub Runs-zoom :
      (m : Exec S E A) (t : T) (a : A) (P : S → Type 0) (Q : T → Type 0)
      → Runs m (get t) a P
      → ((s : S) → P s → Q (set s t))
      → Runs (zoom get set m) t a Q
  Runs-zoom m t a P Q (s', e, p) q = (set s' t, ap (λ r. (r.0, set r.1 t)) e, q s' p)
