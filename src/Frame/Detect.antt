-- ===== src/Frame/Detect.antt =====
-- Errors that the CRC of src/frame.rs detects: its step is injective in the register and in the
-- byte, so a change of one byte is carried to the end.
use modbus_bridge_rs.Base.{IsByte}
use modbus_bridge_rs.Base.{
  ℕ, zero, suc, ◌/◌, ◌%◌, ◌^◌, ◌≤◌, ◌≡◌, sym, ap, ◌∙◌, inl, inr, List, [], ◌∷◌, ◌++◌, foldl,
  bit_xor, arith, All, foldl-append,
}
use modbus_bridge_rs.Base.Xor.{
  bit_xor-lt, bit_xor_shift, bit_xor_injective, bit_xor_injective_right,
}
use modbus_bridge_rs.Frame.{crc_bit, crc_byte, repeat}
use modbus_bridge_rs.Frame.Crc.{
  IsU16, parity, crc_bit_even, crc_bit_odd, crc_bit-IsU16, crc_byte-IsU16, foldl-IsU16, register,
}

-- The polynomial has its top digit set, which tells an odd register from an even one.
crc_bit_odd_high : (c : ℕ) → IsU16 c → c % 2 ≡ 1 → 2 ^ 15 ≤ crc_bit c
crc_bit_odd_high c h o =
    omega (arith, crc_bit_odd c o, bit_xor_shift 15 (c / 2) 0xA001, ap (λ t. bit_xor t 1) top)
  where
    top : c / 2 / 2 ^ 15 ≡ 0
    top = omega arith

crc_bit_injective : (a b : ℕ) → IsU16 a → IsU16 b → crc_bit a ≡ crc_bit b → a ≡ b
crc_bit_injective a b ha hb e = elim (parity a) [
  | inl ea ↦ elim (parity b) [
    | inl eb ↦ omega (arith, crc_bit_even a ea, crc_bit_even b eb)
    | inr ob ↦ absurd (omega (arith, crc_bit_even a ea, crc_bit_odd_high b hb ob))
  ]
  | inr oa ↦ elim (parity b) [
    | inl eb ↦ absurd (omega (arith, crc_bit_even b eb, crc_bit_odd_high a ha oa))
    | inr ob ↦ omega (
      arith,
      bit_xor_injective (a / 2) (b / 2) 0xA001 (sym (crc_bit_odd a oa) ∙ e ∙ crc_bit_odd b ob),
    )
  ]
]

repeat_injective : (n a b : ℕ) → IsU16 a → IsU16 b → repeat n crc_bit a ≡ repeat n crc_bit b → a ≡ b
repeat_injective zero a b ha hb e = e
repeat_injective (suc n) a b ha hb e =
    crc_bit_injective a b ha hb
      (repeat_injective n (crc_bit a) (crc_bit b) (crc_bit-IsU16 a ha) (crc_bit-IsU16 b hb) e)

pub crc_byte_injective :
    (c d b : ℕ) → IsU16 c → IsU16 d → IsByte b → crc_byte c b ≡ crc_byte d b → c ≡ d
unfolding crc_byte
crc_byte_injective c d b hc hd hb e = bit_xor_injective c d b (
    repeat_injective 8 (bit_xor c b) (bit_xor d b) (bit_xor-lt 16 c b hc (omega arith))
      (bit_xor-lt 16 d b hd (omega arith)) e)

crc_byte_injective_right :
    (c a b : ℕ) → IsU16 c → IsByte a → IsByte b → crc_byte c a ≡ crc_byte c b → a ≡ b
unfolding crc_byte
crc_byte_injective_right c a b hc ha hb e = bit_xor_injective_right c a b (
    repeat_injective 8 (bit_xor c a) (bit_xor c b) (bit_xor-lt 16 c a hc (omega arith))
      (bit_xor-lt 16 c b hc (omega arith)) e)

foldl_injective :
    (bs : List ℕ) (c d : ℕ)
    → All IsByte bs
    → IsU16 c
    → IsU16 d
    → foldl crc_byte c bs ≡ foldl crc_byte d bs
    → c ≡ d
foldl_injective [] c d hb hc hd e = e
foldl_injective (b ∷ bs) c d hb hc hd e = crc_byte_injective c d b hc hd hb.0 (
    foldl_injective bs (crc_byte c b) (crc_byte d b) hb.1 (crc_byte-IsU16 c b hc hb.0)
      (crc_byte-IsU16 d b hd hb.0) e)

-- Slices that differ in one byte leave different registers.
pub register_single_byte :
    (front back : List ℕ) (a b : ℕ)
    → All IsByte front
    → All IsByte back
    → IsByte a
    → IsByte b
    → register (front ++ (a ∷ back)) ≡ register (front ++ (b ∷ back))
    → a ≡ b
register_single_byte front back a b hf hk ha hb e =
    let c : ℕ = register front in
    let hc : IsU16 c = foldl-IsU16 front 0xFFFF (omega arith) hf in
    crc_byte_injective_right c a b hc ha hb (
      foldl_injective back (crc_byte c a) (crc_byte c b) hk (crc_byte-IsU16 c a hc ha)
        (crc_byte-IsU16 c b hc hb)
        (sym (foldl-append crc_byte 0xFFFF front (a ∷ back))
          ∙ e
          ∙ foldl-append crc_byte 0xFFFF front (b ∷ back)))
