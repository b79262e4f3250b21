-- ===== src/Base/Tracks.antt =====
-- Two runs of the same code on related states: one of them may be cut off, and otherwise they
-- return the same.
use mathlib.Core.Path.{◌≡◌, refl, ap, ◌∙◌}
use mathlib.Core.Logic.{◌⊎◌, inl, inr}
use mathlib.Core.Option.{Option, none, some}
use modbus_bridge_rs.Base.Outcome.{
  Result, ok, err, Outcome, done, fail, stalled, Exec, continue, ◌>>=◌, pure, raise, lift, map_fail,
  map_fail_outcome,
}

-- How the run that is cut off ends: it stalls, or it fails with the given error.
abbrev pub halted : {E A : Type 0} → Option E → Outcome E A
halted none = stalled
halted (some e) = fail e

module _ {T' T E : Type 0} (R : T' → T → Type 0) (e : Option E) where
  -- The first run is cut off, or it ends like the second in a related state.
  abbrev pub Matches : {A : Type 0} → Outcome E A × T' → Outcome E A × T → Type 0
  Matches x' x = (x'.0 ≡ halted e) ⊎ ((x'.0 ≡ x.0) × R x'.1 x.1)

  abbrev pub Tracks : {A : Type 0} → Exec T' E A → Exec T E A → Type 0
  Tracks m' m = (t' : T') (t : T) → R t' t → Matches (m' t') (m t)

  module _ {A : Type 0} where
    pub pure-Tracks : (a : A) → Tracks (pure a) (pure a)
    pure-Tracks a t' t r = inr (refl, r)

    pub raise-Tracks : (x : E) → Tracks {A = A} (raise x) (raise x)
    raise-Tracks x t' t r = inr (refl, r)

    pub lift-Tracks : (x : Result E A) → Tracks (lift x) (lift x)
    lift-Tracks (ok a) t' t r = inr (refl, r)
    lift-Tracks (err x) t' t r = inr (refl, r)

  module _ {A B : Type 0} where
    continue-halted :
        (e' : Option E) (f' : A → Exec T' E B) (t' : T')
        → (continue (halted e') f' t').0 ≡ halted e'
    continue-halted none f' t' = refl
    continue-halted (some x) f' t' = refl

    continue-Matches :
        (o : Outcome E A) (f' : A → Exec T' E B) (f : A → Exec T E B) (t' : T') (t : T)
        → R t' t
        → ((a : A) → Tracks (f' a) (f a))
        → Matches (continue o f' t') (continue o f t)
    continue-Matches (done a) f' f t' t r q = q a t' t r
    continue-Matches (fail x) f' f t' t r q = inr (refl, r)
    continue-Matches stalled f' f t' t r q = inr (refl, r)

    pub bind-Tracks :
        (m' : Exec T' E A) (m : Exec T E A) (f' : A → Exec T' E B) (f : A → Exec T E B)
        → Tracks m' m
        → ((a : A) → Tracks (f' a) (f a))
        → Tracks (m' >>= f') (m >>= f)
    bind-Tracks m' m f' f p q t' t r = elim (p t' t r) [
      | inl cut ↦ inl (ap (λ o. (continue o f' (m' t').1).0) cut ∙ continue-halted e f' (m' t').1)
      | inr (same, r') ↦ rw same (continue-Matches (m t).0 f' f (m' t').1 (m t).1 r' q)
    ]

module _ {T' T E F A : Type 0} (R : T' → T → Type 0) (f : E → F) where
  -- An error that is mapped; a run that stalls stays stalled.
  pub map_fail-Tracks :
      (m' : Exec T' E A) (m : Exec T E A)
      → Tracks R none m' m
      → Tracks R none (map_fail f m') (map_fail f m)
  map_fail-Tracks m' m p t' t r = elim (p t' t r) [
    | inl cut ↦ inl (ap (map_fail_outcome f) cut)
    | inr (same, r') ↦ inr (ap (map_fail_outcome f) same, r')
  ]
