-- ===== src/Base/Outcome.antt =====
-- Results of fallible code, and code that acts on a state.

use Prim.Native.Nat.{ℕ, zero, suc}
use mathlib.Core.List.{List, [], ◌∷◌}

-- `Result<A, E>` of a pure function.
pub data Result (E A : Type 0) : Type 0 where
  ok : A → Result E A
  err : E → Result E A

-- How a call that performs I/O ends: it returns a value or an error, or it never completes.
-- The last is a blocking read of a silent device, or a future that stays pending.
pub data Outcome (E A : Type 0) : Type 0 where
  done : A → Outcome E A
  fail : E → Outcome E A
  stalled : Outcome E A

-- Code with I/O on a state. What was done before an error stays done.
abbrev pub Exec : Type 0 → Type 0 → Type 0 → Type 0
Exec S E A = S → Outcome E A × S

module _ {S E A B : Type 0} where
  abbrev pub continue : Outcome E A → (A → Exec S E B) → Exec S E B
  continue (done a) f s = f a s
  continue (fail e) f s = (fail e, s)
  continue stalled f s = (stalled, s)

  infixl 5 ◌>>=◌ ◌>>◌
  abbrev pub ◌>>=◌ : Exec S E A → (A → Exec S E B) → Exec S E B
  ◌>>=◌ m f s = continue (m s).0 f (m s).1

  abbrev pub ◌>>◌ : Exec S E A → Exec S E B → Exec S E B
  m >> k = m >>= λ _. k

module _ {S E A : Type 0} where
  abbrev pub pure : A → Exec S E A
  pure a s = (done a, s)

  abbrev pub raise : E → Exec S E A
  raise e s = (fail e, s)

  -- `?` on a pure result
  abbrev pub lift : Result E A → Exec S E A
  lift (ok a) s = (done a, s)
  lift (err e) s = (fail e, s)

module _ {S E A : Type 0} where
  -- A number of calls one after the other, until one fails.
  abbrev pub calls : ℕ → Exec S E A → Exec S E (List A)
  calls zero m = pure []
  calls (suc n) m = m >>= λ a. calls n m >>= λ as'. pure (a ∷ as')

module _ {E F A : Type 0} where
  -- `Result::map_err`
  abbrev pub map_err : (E → F) → Result E A → Result F A
  map_err f (ok a) = ok a
  map_err f (err e) = err (f e)

  abbrev pub map_fail_outcome : (E → F) → Outcome E A → Outcome F A
  map_fail_outcome f (done a) = done a
  map_fail_outcome f (fail e) = fail (f e)
  map_fail_outcome f stalled = stalled

  -- `map_err` on the result of a call
  abbrev pub map_fail : {S : Type 0} → (E → F) → Exec S E A → Exec S F A
  map_fail f m s = (map_fail_outcome f (m s).0, (m s).1)

module _ {S T E A : Type 0} where
  -- Code on a part of a state, with the functions that get the part and set it.
  abbrev pub zoom : (T → S) → (S → T → T) → Exec S E A → Exec T E A
  zoom get set m t = ((m (get t)).0, set (m (get t)).1 t)
