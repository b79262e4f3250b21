-- ===== src/Base/Completes.antt =====
-- Code with I/O that ends, with a value or an error, whatever the state.
use mathlib.Core.Path.{refl}
use modbus_bridge_rs.Base.{◌≢◌}
use modbus_bridge_rs.Base.Outcome.{
  Result, ok, err, Outcome, done, fail, stalled, Exec, continue, ◌>>=◌, ◌>>◌, lift, map_fail,
  map_fail_outcome,
}

module _ {S E A : Type 0} where
  abbrev pub Completes : Exec S E A → Type 0
  Completes m = (s : S) → (m s).0 ≢ stalled

  pub lift-Completes : (r : Result E A) → Completes (lift r)
  lift-Completes (ok a) s = λ x. cc
  lift-Completes (err e) s = λ x. cc

module _ {S E A B : Type 0} where
  pub continue-Completes :
      (r : Outcome E A) (f : A → Exec S E B) (s : S)
      → r ≢ stalled
      → ((a : A) → Completes (f a))
      → (continue r f s).0 ≢ stalled
  continue-Completes (done a) f s n q = q a s
  continue-Completes (fail e) f s n q = λ x. cc
  continue-Completes stalled f s n q = absurd (n refl)

  -- A step that ends, then a rest that does.
  pub bind-Completes :
      (m : Exec S E A) (f : A → Exec S E B)
      → Completes m
      → ((a : A) → Completes (f a))
      → Completes (m >>= f)
  bind-Completes m f n q s = continue-Completes (m s).0 f (m s).1 (n s) q

  pub then-Completes :
      (m : Exec S E A) (k : Exec S E B) → Completes m → Completes k → Completes (m >> k)
  then-Completes m k n q = bind-Completes m (λ _. k) n (λ _. q)

module _ {E F A : Type 0} where
  map_fail_outcome-completes :
      (f : E → F) (r : Outcome E A) → r ≢ stalled → map_fail_outcome f r ≢ stalled
  map_fail_outcome-completes f (done a) n = λ x. cc
  map_fail_outcome-completes f (fail e) n = λ x. cc
  map_fail_outcome-completes f stalled n = absurd (n refl)

  pub map_fail-Completes :
      {S : Type 0} (f : E → F) (m : Exec S E A) → Completes m → Completes (map_fail f m)
  map_fail-Completes f m n s = map_fail_outcome-completes f (m s).0 (n s)
