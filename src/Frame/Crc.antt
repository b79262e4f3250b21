-- ===== src/Frame/Crc.antt =====
-- The CRC of src/frame.rs: range, residual, and the errors that it detects.
use modbus_bridge_rs.Base.{IsByte}
use modbus_bridge_rs.Base.{
  ℕ, zero, suc, ◌*◌, ◌/◌, ◌%◌, ◌^◌, ◌<◌, ◌≡◌, ap, ◌∙◌, ◌⊎◌, inl, inr, List, [], ◌∷◌, ◌++◌, foldl,
  bit_xor, arith, All, foldl-append,
}
use modbus_bridge_rs.Base.Xor.{bit_and-one, bit_xor-lt, bit_xor_own_low}
use native.Mathlib.Nat.{pow-suc}
use modbus_bridge_rs.Frame.{crc_bit, crc_byte, crc, repeat}

abbrev pub IsU16 : ℕ → Type 0
IsU16 n = n < 2 ^ 16

-- The shift register after a slice.
abbrev pub register : List ℕ → ℕ
register data' = foldl crc_byte 0xFFFF data'

pub crc_bit_even : (c : ℕ) → c % 2 ≡ 0 → crc_bit c ≡ c / 2
unfolding crc_bit
crc_bit_even c e = ground (arith, bit_and-one c)

pub crc_bit_odd : (c : ℕ) → c % 2 ≡ 1 → crc_bit c ≡ bit_xor (c / 2) 0xA001
unfolding crc_bit
crc_bit_odd c e = ground (arith, bit_and-one c)

pub parity : (c : ℕ) → (c % 2 ≡ 0) ⊎ (c % 2 ≡ 1)
parity c = omega arith

pub crc_bit-IsU16 : (c : ℕ) → IsU16 c → IsU16 (crc_bit c)
crc_bit-IsU16 c h = elim (parity c) [
  | inl e ↦ omega (arith, crc_bit_even c e)
  | inr o ↦ omega (arith, crc_bit_odd c o, bit_xor-lt 16 (c / 2) 0xA001 (omega arith) (omega arith))
]

repeat-IsU16 : (n c : ℕ) → IsU16 c → IsU16 (repeat n crc_bit c)
repeat-IsU16 zero c h = h
repeat-IsU16 (suc n) c h = repeat-IsU16 n (crc_bit c) (crc_bit-IsU16 c h)

pub crc_byte-IsU16 : (c b : ℕ) → IsU16 c → IsByte b → IsU16 (crc_byte c b)
unfolding crc_byte
crc_byte-IsU16 c b hc hb = repeat-IsU16 8 (bit_xor c b) (bit_xor-lt 16 c b hc (omega arith))

pub foldl-IsU16 :
    (data' : List ℕ) (c : ℕ) → IsU16 c → All IsByte data' → IsU16 (foldl crc_byte c data')
foldl-IsU16 [] c hc hd = hc
foldl-IsU16 (b ∷ bs) c hc hd = foldl-IsU16 bs (crc_byte c b) (crc_byte-IsU16 c b hc hd.0) hd.1

-- The two bytes of the CRC of a byte slice are bytes, and hold the whole register.
pub crc_bytes :
    (data' : List ℕ)
    → All IsByte data'
    → All IsByte (crc data') × (crc data' ≡ (register data' % 256) ∷ (register data' / 256) ∷ [])
unfolding crc
crc_bytes data' h =
    let fits : IsU16 (register data') = foldl-IsU16 data' 0xFFFF (omega arith) h in
    (omega arith, ground arith)

-- Shifting out zeros.
repeat_zeros : (n c : ℕ) → repeat n crc_bit (c * 2 ^ n) ≡ c
repeat_zeros zero c = omega arith
repeat_zeros (suc n) c =
    ap (repeat n crc_bit)
      (crc_bit_even (c * 2 ^ suc n) (omega (arith, twice)) ∙ omega (arith, twice))
    ∙ repeat_zeros n c
  where
    twice : c * 2 ^ suc n ≡ 2 * (c * 2 ^ n)
    twice = omega (arith, ap (λ t. c * t) (pow-suc 2 n))

-- A byte that equals the register's low byte shifts it out.
pub crc_byte_own : (c : ℕ) → crc_byte c (c % 256) ≡ c / 256
unfolding crc_byte
crc_byte_own c = ap (repeat 8 crc_bit) (bit_xor_own_low 8 c) ∙ repeat_zeros 8 (c / 256)

-- The CRC of any byte slice with its own CRC appended is zero.
pub crc-append_crc : (data' : List ℕ) → All IsByte data' → crc (data' ++ crc data') ≡ 0 ∷ 0 ∷ []
unfolding crc
crc-append_crc data' h = ap (λ r. (r % 256) ∷ (r / 256 % 256) ∷ []) zero_register
  where
    high_byte : (r : ℕ) → IsU16 r → r / 256 / 256 ≡ 0
    high_byte r hr = omega arith

    fits : IsU16 (register data')
    fits = foldl-IsU16 data' 0xFFFF (omega arith) h

    high : crc_byte (register data' / 256) (register data' / 256 % 256) ≡ 0
    high = crc_byte_own (register data' / 256) ∙ high_byte (register data') fits

    zero_register : register (data' ++ crc data') ≡ 0
    zero_register =
        foldl-append crc_byte 0xFFFF data' (crc data')
        ∙ ap (λ r. crc_byte r (register data' / 256 % 256)) (crc_byte_own (register data'))
        ∙ high
