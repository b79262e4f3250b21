-- ===== src/Base/Xor.antt =====
-- Exclusive or on native numbers at variables, from its recursion on binary digits.
use Prim.Native.Nat.{
  ℕ, zero, suc, ◌+◌, ◌-◌, ◌*◌, ◌/◌, ◌%◌, ◌^◌, ◌≤◌, ◌<◌, digits, bitwise, differ, bit_and, bit_xor,
  bit_xor-bitwise, bit_and-bitwise, min,
}
use mathlib.Core.Path.{◌≡◌, refl, sym, ap, ◌∙◌}
use native.Mathlib.Nat.{le_refl, pow-suc, mul_comm, div-div-eq-div-mul, div-add-mod, div-one}
use native.Mathlib.Omega.{arith}

module _ (low : ℕ → ℕ) (op : ℕ → ℕ → ℕ) where
  -- One round more than the number has digits changes nothing.
  one_more : (a n b : ℕ) → a ≤ n → digits low op (suc n) a b ≡ digits low op n a b
  one_more zero zero b le = refl
  one_more zero (suc n) b le = refl
  one_more (suc a) zero b le = absurd (omega arith)
  one_more (suc a) (suc n) b le = rw (one_more (suc a / 2) n (b / 2) (omega arith))

  more : (k a b : ℕ) → digits low op (k + a) a b ≡ digits low op a a b
  more zero a b = ap (λ n. digits low op n a b) (omega arith)
  more (suc k) a b =
      let next : suc k + a ≡ suc (k + a) = omega arith in
      ap (λ n. digits low op n a b) next ∙ one_more a (k + a) b (omega arith) ∙ more k a b

  lowest_digit :
      (a b : ℕ)
      → bitwise low op (suc a) b ≡ bitwise low op (suc a / 2) (b / 2) * 2 + op (suc a % 2) (b % 2)
  lowest_digit a b =
      let h : ℕ = suc a / 2 in
      let split : a ≡ (a - h) + h = omega arith in
      omega (arith, ap (λ n. digits low op n h (b / 2)) split, more (a - h) h (b / 2))

differ_digits : (x y : ℕ) → x < 2 → y < 2 → differ x y ≡ (x + y) % 2
differ_digits zero y hx hy = omega arith
differ_digits (suc zero) zero hx hy = refl
differ_digits (suc zero) (suc zero) hx hy = refl
differ_digits (suc zero) (suc (suc y)) hx hy = absurd (omega arith)
differ_digits (suc (suc x)) y hx hy = absurd (omega arith)

-- The lowest digit is the parity of the sum, and the others are those of the halves.
pub bit_xor_step : (a b : ℕ) → bit_xor a b ≡ bit_xor (a / 2) (b / 2) * 2 + (a + b) % 2
bit_xor_step zero b = simp bit_xor-bitwise (omega arith)
bit_xor_step (suc a) b = simp bit_xor-bitwise (
    omega (
      arith,
      lowest_digit (λ y. y) differ a b,
      differ_digits (suc a % 2) (b % 2) (omega arith) (omega arith),
    ))

pub bit_xor-zero : (a : ℕ) → bit_xor a 0 ≡ a
bit_xor-zero a = go a a (le_refl a)
  where
    go : (n m : ℕ) → m ≤ n → bit_xor m 0 ≡ m
    go n zero h = refl
    go zero (suc m) h = absurd (omega arith)
    go (suc n) (suc m) h = omega (arith, bit_xor_step (suc m) 0, go n (suc m / 2) (omega arith))

comm_fuel : (n a b : ℕ) → a ≤ n → b ≤ n → bit_xor a b ≡ bit_xor b a
comm_fuel zero zero zero p q = refl
comm_fuel zero zero (suc b) p q = absurd (omega arith)
comm_fuel zero (suc a) b p q = absurd (omega arith)
comm_fuel (suc n) a b p q = omega (
  arith,
  bit_xor_step a b,
  bit_xor_step b a,
  comm_fuel n (a / 2) (b / 2) (omega arith) (omega arith),
)

pub bit_xor_comm : (a b : ℕ) → bit_xor a b ≡ bit_xor b a
bit_xor_comm a b = comm_fuel (a + b) a b (omega arith) (omega arith)

cancel_fuel : (n a m : ℕ) → a ≤ n → m ≤ n → bit_xor (bit_xor a m) m ≡ a
cancel_fuel zero zero zero p q = refl
cancel_fuel zero zero (suc b) p q = absurd (omega arith)
cancel_fuel zero (suc a) b p q = absurd (omega arith)
cancel_fuel (suc n) a m p q =
    bit_xor_step (bit_xor a m) m
    ∙ ap (λ t. bit_xor t (m / 2) * 2 + (bit_xor a m + m) % 2) half
    ∙ omega (arith, bit_xor_step a m, cancel_fuel n (a / 2) (m / 2) (omega arith) (omega arith))
  where
    half : bit_xor a m / 2 ≡ bit_xor (a / 2) (m / 2)
    half = omega (arith, bit_xor_step a m)

-- Two equal masks cancel.
pub bit_xor_cancel : (a m : ℕ) → bit_xor (bit_xor a m) m ≡ a
bit_xor_cancel a m = cancel_fuel (a + m) a m (omega arith) (omega arith)

-- Hence masking is injective, on either side.
pub bit_xor_injective : (a b m : ℕ) → bit_xor a m ≡ bit_xor b m → a ≡ b
bit_xor_injective a b m e = sym (bit_xor_cancel a m) ∙ ap (λ t. bit_xor t m) e ∙ bit_xor_cancel b m

pub bit_xor_injective_right : (m a b : ℕ) → bit_xor m a ≡ bit_xor m b → a ≡ b
bit_xor_injective_right m a b e = bit_xor_injective a b m (bit_xor_comm a m ∙ e ∙ bit_xor_comm m b)

pub bit_xor-lt : (k a b : ℕ) → a < 2 ^ k → b < 2 ^ k → bit_xor a b < 2 ^ k
bit_xor-lt zero zero zero p q = omega arith
bit_xor-lt zero zero (suc b) p q = absurd (omega arith)
bit_xor-lt zero (suc a) b p q = absurd (omega arith)
bit_xor-lt (suc k) a b p q = omega (
  arith,
  pow-suc 2 k,
  bit_xor_step a b,
  bit_xor-lt k (a / 2) (b / 2) (omega (arith, pow-suc 2 k)) (omega (arith, pow-suc 2 k)),
)

half_pow : (k a : ℕ) → a / 2 ^ suc k ≡ a / 2 / 2 ^ k
half_pow k a =
    ap (λ t. a / t) (pow-suc 2 k ∙ mul_comm (2 ^ k) 2) ∙ sym (div-div-eq-div-mul a 2 (2 ^ k))

low_pow : (k a : ℕ) → a % 2 ^ suc k ≡ a / 2 % 2 ^ k * 2 + a % 2
low_pow k a = omega (
  arith,
  ap (λ t. t * (a / 2 ^ suc k)) (pow-suc 2 k),
  ap (λ t. 2 ^ k * t) (half_pow k a),
  div-add-mod a (2 ^ suc k),
  div-add-mod (a / 2) (2 ^ k),
)

-- Digits from `k` on are those of the numbers shifted by `k`.
pub bit_xor_shift : (k a b : ℕ) → bit_xor a b / 2 ^ k ≡ bit_xor (a / 2 ^ k) (b / 2 ^ k)
bit_xor_shift zero a b = simp div-one
bit_xor_shift (suc k) a b =
    half_pow k (bit_xor a b)
    ∙ ap (λ t. t / 2 ^ k) half
    ∙ bit_xor_shift k (a / 2) (b / 2)
    ∙ rw (half_pow k a, half_pow k b)
  where
    half : bit_xor a b / 2 ≡ bit_xor (a / 2) (b / 2)
    half = omega (arith, bit_xor_step a b)

-- A number with its own `k` lowest digits as mask loses them.
pub bit_xor_own_low : (k a : ℕ) → bit_xor a (a % 2 ^ k) ≡ a / 2 ^ k * 2 ^ k
bit_xor_own_low zero a = omega (arith, bit_xor-zero a, ap (λ t. bit_xor a t) (zero_low a))
  where
    zero_low : (n : ℕ) → n % 1 ≡ 0
    zero_low n = omega arith
bit_xor_own_low (suc k) a =
    bit_xor_step a (a % 2 ^ suc k)
    ∙ ap (λ t. bit_xor (a / 2) t * 2 + (a + a % 2 ^ suc k) % 2) half
    ∙ omega (
      arith,
      low_pow k a,
      bit_xor_own_low k (a / 2),
      ap (λ t. 2 ^ k * t) (half_pow k a),
      ap (λ t. a / 2 ^ suc k * t) (pow-suc 2 k),
    )
  where
    half : a % 2 ^ suc k / 2 ≡ a / 2 % 2 ^ k
    half = omega (arith, low_pow k a)

zero-bit_and : (b : ℕ) → bit_and 0 b ≡ 0
zero-bit_and b = bit_and-bitwise 0 b

bit_and-step : (a b : ℕ) → bit_and a b ≡ bit_and (a / 2) (b / 2) * 2 + min (a % 2) (b % 2)
bit_and-step zero b = simp bit_and-bitwise (omega arith)
bit_and-step (suc a) b = simp bit_and-bitwise (lowest_digit (λ y. 0) min a b)

bit_and-zero : (a : ℕ) → bit_and a 0 ≡ 0
bit_and-zero a = go a a (le_refl a)
  where
    go : (n m : ℕ) → m ≤ n → bit_and m 0 ≡ 0
    go n zero h = refl
    go zero (suc m) h = absurd (omega arith)
    go (suc n) (suc m) h = omega (arith, bit_and-step (suc m) 0, go n (suc m / 2) (omega arith))

pub bit_and-one : (a : ℕ) → bit_and a 1 ≡ a % 2
bit_and-one a = omega (arith, bit_and-step a 1, bit_and-zero (a / 2))
