-- ===== src/Base/Ensures.antt =====
-- Postconditions of code with I/O, for every way in which it can end.
use mathlib.Core.Path.{◌≡◌}
use mathlib.Core.Option.{Option, none, some}
use modbus_bridge_rs.Base.Outcome.{
  Outcome, done, fail, stalled, Exec, continue, ◌>>=◌, map_fail_outcome, zoom,
}

module _ {S E A : Type 0} where
  -- `D` holds of a value and the state that goes with it, and `B` after an error or a stall.
  abbrev pub Ensures : (A → S → Type 0) → (Option E → S → Type 0) → Outcome E A → S → Type 0
  Ensures D B (done a) s = D a s
  Ensures D B (fail e) s = B (some e) s
  Ensures D B stalled s = B none s

  pub Ensures-weaken :
      (D D' : A → S → Type 0) (B B' : Option E → S → Type 0) (r : Outcome E A) (s : S)
      → Ensures D B r s
      → ((a : A) (t : S) → D a t → D' a t)
      → ((e : Option E) (t : S) → B e t → B' e t)
      → Ensures D' B' r s
  Ensures-weaken D D' B B' (done a) s p d b = d a s p
  Ensures-weaken D D' B B' (fail e) s p d b = b (some e) s p
  Ensures-weaken D D' B B' stalled s p d b = b none s p

  -- What holds of the state whatever the outcome.
  pub Ensures-always :
      (P : S → Type 0) (r : Outcome E A) (s : S) → P s → Ensures (λ _ t. P t) (λ _ t. P t) r s
  Ensures-always P (done a) s p = p
  Ensures-always P (fail e) s p = p
  Ensures-always P stalled s p = p

  pub Ensures-done :
      (D : A → S → Type 0) (B : Option E → S → Type 0) (r : Outcome E A) (s : S) (a : A)
      → Ensures D B r s
      → r ≡ done a
      → D a s
  Ensures-done D B r s a p e = rw e at p

module _ {S E A A' : Type 0} where
  -- One step, then the rest.
  pub Ensures-continue :
      (D : A → S → Type 0) (D' : A' → S → Type 0) (B : Option E → S → Type 0) (r : Outcome E A)
      (f : A → Exec S E A') (s : S)
      → Ensures D B r s
      → ((a : A) (t : S) → D a t → Ensures D' B (f a t).0 (f a t).1)
      → Ensures D' B (continue r f s).0 (continue r f s).1
  Ensures-continue D D' B (done a) f s p q = q a s p
  Ensures-continue D D' B (fail e) f s p q = p
  Ensures-continue D D' B stalled f s p q = p

  pub Ensures-bind :
      (D : A → S → Type 0) (D' : A' → S → Type 0) (B : Option E → S → Type 0) (m : Exec S E A)
      (f : A → Exec S E A') (s : S)
      → Ensures D B (m s).0 (m s).1
      → ((a : A) (t : S) → D a t → Ensures D' B (f a t).0 (f a t).1)
      → Ensures D' B ((m >>= f) s).0 ((m >>= f) s).1
  Ensures-bind D D' B m f s = Ensures-continue D D' B (m s).0 f (m s).1

module _ {S E F A : Type 0} where
  pub Ensures-map_fail :
      (f : E → F) (D : A → S → Type 0) (B : Option E → S → Type 0) (B' : Option F → S → Type 0)
      (r : Outcome E A) (s : S)
      → Ensures D B r s
      → ((e : Option E) (e' : Option F) (t : S) → B e t → B' e' t)
      → Ensures D B' (map_fail_outcome f r) s
  Ensures-map_fail f D B B' (done a) s p w = p
  Ensures-map_fail f D B B' (fail e) s p w = w (some e) (some (f e)) s p
  Ensures-map_fail f D B B' stalled s p w = w none none s p

module _ {S T E A : Type 0} (get : T → S) (set : S → T → T)
    (get-set : (s : S) (t : T) → get (set s t) ≡ s) where
  -- What code on a part ensures holds of the part, and what setting the part keeps is kept.
  pub Ensures-zoom :
      (P : A → S → Type 0) (B : Option E → S → Type 0) (K : T → Type 0) (m : Exec S E A) (t : T)
      → ((s : S) → K (set s t))
      → Ensures P B (m (get t)).0 (m (get t)).1
      → Ensures
          (λ a t'. P a (get t') × K t')
          (λ e t'. B e (get t') × K t')
          (zoom get set m t).0
          (zoom get set m t).1
  Ensures-zoom P B K m t kept p = go (m (get t)).0 (m (get t)).1 p
    where
      go :
          (o : Outcome E A) (s : S)
          → Ensures P B o s
          → Ensures (λ a t'. P a (get t') × K t') (λ e t'. B e (get t') × K t') o (set s t)
      go (done a) s p = (rw (get-set s t) p, kept s)
      go (fail e) s p = (rw (get-set s t) p, kept s)
      go stalled s p = (rw (get-set s t) p, kept s)
