-- ===== src/Base/Text.antt =====
-- Texts as lists of code points, and how `core::fmt` writes integers.
use Prim.Native.Nat.{ℕ, zero, suc, ◌+◌, ◌-◌, ◌*◌, ◌/◌, ◌%◌, ◌≤◌}
use Prim.Native.Char.{code}
use Prim.Native.String.{String}
use mathlib.Core.Path.{◌≡◌, refl, sym, ap, ◌∙◌}
use mathlib.Core.Logic.{◌≢◌, inl, inr}
use mathlib.Core.List.{List, [], ◌∷◌, ◌++◌, foldl}
use native.Mathlib.Omega.{arith}
use modbus_bridge_rs.Base.Tests.{ltb, if◌then◌else◌, Bool-cases, ltb→lt, ltb→le}
use modbus_bridge_rs.Base.Lists.{All, All-append, foldl-append}

abbrev pub codes : String → List ℕ
codes String.[] = []
codes (String.◌∷◌ c s) = code c ∷ codes s

-- `{}` of an unsigned integer. Each round divides by ten, so the number is enough fuel.
unfoldable pub digits : ℕ → ℕ → List ℕ
digits zero n = (b'0' + n) ∷ []
digits (suc fuel) n =
    let rest = digits fuel (n / 10) in
    if ltb n 10 then (b'0' + n) ∷ [] else rest ++ ((b'0' + n % 10) ∷ [])

unfoldable pub decimal : ℕ → List ℕ
unfolding digits
decimal n = digits n n

abbrev pub hex_digit : ℕ → ℕ
hex_digit d = if ltb d 10 then b'0' + d else b'a' + (d - 10)

-- `{:#04x}` of a byte: two digits behind the prefix.
abbrev pub hex_byte : ℕ → List ℕ
hex_byte n = b'0' ∷ b'x' ∷ hex_digit (n / 16) ∷ hex_digit (n % 16) ∷ []

-- The number that decimal digits write.
abbrev value : List ℕ → ℕ
value = foldl (λ n c. n * 10 + (c - b'0')) 0

value-digits : (fuel n : ℕ) → n ≤ fuel → value (digits fuel n) ≡ n
unfolding digits
value-digits zero n h = omega arith
value-digits (suc fuel) n h = elim (Bool-cases (ltb n 10)) [
  | inl small ↦ rw small (omega arith)
  | inr large ↦
      rw
        (
          large,
          foldl-append (λ k c. k * 10 + (c - b'0')) 0 (digits fuel (n / 10)) ((b'0' + n % 10) ∷ []),
        )
        (omega
          (arith, value-digits fuel (n / 10) (omega (arith, ltb→le _ _ large)), ltb→le _ _ large))
]

-- Two numbers that are written alike are equal.
pub decimal_injective : (a b : ℕ) → decimal a ≡ decimal b → a ≡ b
unfolding decimal
decimal_injective a b e =
    sym (value-digits a a (omega arith)) ∙ ap value e ∙ value-digits b b (omega arith)

abbrev pub IsDigit : ℕ → Type 0
IsDigit c = (b'0' ≤ c) × (c ≤ b'9')

digits-IsDigit : (fuel n : ℕ) → n ≤ fuel → All IsDigit (digits fuel n)
unfolding digits
digits-IsDigit zero n h = ((omega arith, omega arith), tt)
digits-IsDigit (suc fuel) n h = elim (Bool-cases (ltb n 10)) [
  | inl small ↦ rw small ((omega arith, omega (arith, ltb→lt _ _ small)), tt)
  | inr large ↦ rw large (
      All-append IsDigit (digits fuel (n / 10)) ((b'0' + n % 10) ∷ [])
        (digits-IsDigit fuel (n / 10) (omega (arith, ltb→le _ _ large)))
        ((omega arith, omega arith), tt))
]

pub decimal-IsDigit : (n : ℕ) → All IsDigit (decimal n)
unfolding decimal
decimal-IsDigit n = digits-IsDigit n n (omega arith)

cons_injective : (x y : ℕ) (u v : List ℕ) → x ∷ u ≡ y ∷ v → (x ≡ y) × (u ≡ v)
cons_injective x y u v e = (cc, cc)

-- A separator that stands in neither of two words ends both of them at the same place.
pub split_at :
    (c : ℕ) (xs ys us vs : List ℕ)
    → All (λ x. x ≢ c) xs
    → All (λ x. x ≢ c) ys
    → xs ++ (c ∷ us) ≡ ys ++ (c ∷ vs)
    → (xs ≡ ys) × (us ≡ vs)
split_at c [] [] us vs hx hy e = (refl, (cons_injective c c us vs e).1)
split_at c [] (y ∷ ys) us vs hx hy e =
    absurd (hy.0 (sym (cons_injective c y us (ys ++ (c ∷ vs)) e).0))
split_at c (x ∷ xs) [] us vs hx hy e = absurd (hx.0 (cons_injective x c (xs ++ (c ∷ us)) vs e).0)
split_at c (x ∷ xs) (y ∷ ys) us vs hx hy e =
    let (same, rest) = cons_injective x y (xs ++ (c ∷ us)) (ys ++ (c ∷ vs)) e in
    let (words, after) = split_at c xs ys us vs hx.1 hy.1 rest in (cc, after)

pub All-weaken {ℓ κ} :
    {P : ℕ → Type ℓ} {Q : ℕ → Type κ} (xs : List ℕ) → ((x : ℕ) → P x → Q x) → All P xs → All Q xs
All-weaken [] f h = tt
All-weaken (x ∷ xs) f h = (f x h.0, All-weaken xs f h.1)
