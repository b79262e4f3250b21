-- ===== src/Frame/Check.antt =====
-- `check_crc` of src/frame.rs: what it accepts, and the single-byte errors that it refuses.
use modbus_bridge_rs.Base.{IsByte}
use modbus_bridge_rs.Base.{
  ℕ, ◌+◌, ◌-◌, ◌*◌, ◌/◌, ◌%◌, ◌≤◌, ◌≡◌, ◌↔◌, refl, sym, ap, ◌∙◌, inl, inr, List, [], ◌∷◌, ◌++◌,
  arith, All, foldl-append, All-append, length, take, drop, length-append, length-take, length-drop,
  take-append-drop, take-append, drop-append, All-take, All-drop, bytes_eq, bytes_eq→eq,
  bytes_eq_refl, ltb, Bool-cases, le→ltb, ltb→le,
}
use modbus_bridge_rs.Base.Outcome.{ok}
use modbus_bridge_rs.Frame.{crc_byte, crc, check_crc}
use modbus_bridge_rs.Frame.Crc.{
  IsU16, crc_byte-IsU16, foldl-IsU16, register, crc_byte_own, crc-append_crc, crc_bytes,
}
use modbus_bridge_rs.Frame.Detect.{crc_byte_injective, register_single_byte}

-- The frame without its last two bytes.
abbrev pub body : List ℕ → List ℕ
body frame = take (length frame - 2) frame

pub length-crc : (data' : List ℕ) → length (crc data') ≡ 2
unfolding crc
length-crc data' = refl

-- A frame that passes the check is at least four bytes long and ends in the CRC of its body.
pub check_crc-ok :
    (frame : List ℕ)
    → check_crc frame ≡ ok tt
    → (4 ≤ length frame) × (frame ≡ body frame ++ crc (body frame))
unfolding check_crc
check_crc-ok frame h = elim (Bool-cases (ltb (length frame) 4)) [
  | inl short ↦ absurd (cc (rw short at h))
  | inr long ↦ elim (Bool-cases (bytes_eq (crc (body frame)) (drop (length frame - 2) frame))) [
    | inl same ↦ (
      ltb→le _ _ long,
      sym (take-append-drop (length frame - 2) frame)
          ∙ ap (λ t. body frame ++ t) (sym (bytes_eq→eq _ _ same)),
    )
    | inr other ↦ absurd (cc (rw (long, other) at h))
  ]
]

-- A body of two bytes or more passes with its CRC appended.
pub check_crc-append_crc :
    (data' : List ℕ) → 2 ≤ length data' → check_crc (data' ++ crc data') ≡ ok tt
unfolding check_crc
check_crc-append_crc data' h = rw (le→ltb (length (data' ++ crc data')) 4 (omega (arith, size))) (
    rw (
      take-append (length (data' ++ crc data') - 2) data' (crc data') (omega (arith, size)),
      drop-append (length (data' ++ crc data') - 2) data' (crc data') (omega (arith, size)),
      bytes_eq_refl (crc data'),
    ))
  where
    size : length (data' ++ crc data') ≡ length data' + 2
    size = length-append data' (crc data') ∙ ap (λ n. length data' + n) (length-crc data')

two_bytes : (l : List ℕ) → length l ≡ 2 → (x : ℕ) × (y : ℕ) × (l ≡ x ∷ y ∷ [])
two_bytes [] h = absurd (omega arith)
two_bytes (x ∷ []) h = absurd (omega arith)
two_bytes (x ∷ y ∷ []) h = (x, y, refl)
two_bytes (x ∷ y ∷ z ∷ l) h = absurd (omega arith)

-- The bytes that take a register to zero are the register's own.
crc_byte_zero :
    (c x y : ℕ) → IsU16 c → IsByte x → IsByte y → crc_byte (crc_byte c x) y ≡ 0 → c ≡ x + y * 256
crc_byte_zero c x y hc hx hy e =
    crc_byte_injective c (x + y * 256) x hc (omega arith) hx (first ∙ sym own)
  where
    low : (n : ℕ) → IsByte n → n % 256 ≡ n
    low n h = omega arith

    self : crc_byte y y ≡ 0
    self = ap (crc_byte y) (sym (low y hy)) ∙ crc_byte_own y ∙ omega arith

    first : crc_byte c x ≡ y
    first =
        crc_byte_injective (crc_byte c x) y y (crc_byte-IsU16 c x hc hx) (omega arith) hy
          (e ∙ sym self)

    own : crc_byte (x + y * 256) x ≡ y
    own = ap (crc_byte (x + y * 256)) (omega arith) ∙ crc_byte_own (x + y * 256) ∙ omega arith

crc_of_zero :
    (data' : List ℕ) (x y : ℕ)
    → All IsByte data'
    → IsByte x
    → IsByte y
    → register (data' ++ (x ∷ y ∷ [])) ≡ 0
    → crc data' ≡ x ∷ y ∷ []
unfolding crc
crc_of_zero data' x y hd hx hy e =
    let fits : IsU16 (register data') = foldl-IsU16 data' 0xFFFF (omega arith) hd in
    let own : register data' ≡ x + y * 256 =
      crc_byte_zero (register data') x y fits hx hy
        (sym (foldl-append crc_byte 0xFFFF data' (x ∷ y ∷ [])) ∙ e) in
    ground arith

register-append_crc : (data' : List ℕ) → All IsByte data' → register (data' ++ crc data') ≡ 0
unfolding crc
register-append_crc data' h =
    let fits : IsU16 (register (data' ++ crc data')) =
      foldl-IsU16 (data' ++ crc data') 0xFFFF (omega arith)
        (All-append IsByte data' (crc data') h (crc_bytes data' h).0) in
    zero_of_crc (register (data' ++ crc data')) fits (crc-append_crc data' h)
  where
    zero_of_crc : (r : ℕ) → IsU16 r → (r % 256) ∷ (r / 256 % 256) ∷ [] ≡ 0 ∷ 0 ∷ [] → r ≡ 0
    zero_of_crc r hr e = ground arith

check_crc_of_zero :
    (data' tail : List ℕ)
    → length tail ≡ 2
    → 2 ≤ length data'
    → All IsByte data'
    → All IsByte tail
    → register (data' ++ tail) ≡ 0
    → check_crc (data' ++ tail) ≡ ok tt
check_crc_of_zero data' tail two size hd ht e =
    let (x, y, is) = two_bytes tail two in
    let hb : All IsByte (x ∷ y ∷ []) = rw is at ht in
    let own : crc data' ≡ x ∷ y ∷ [] =
      crc_of_zero data' x y hd hb.0 hb.1.0 (ap (λ t. register (data' ++ t)) (sym is) ∙ e) in
    rw is (rw (← own) (check_crc-append_crc data' size))

-- On byte slices the check passes exactly if the slice has four bytes or more and the register
-- after all of it, the CRC included, is zero.
pub check_crc_iff :
    (frame : List ℕ)
    → All IsByte frame
    → (check_crc frame ≡ ok tt) ↔ ((4 ≤ length frame) × (register frame ≡ 0))
check_crc_iff frame h = (passes, accepted)
  where
    passes : check_crc frame ≡ ok tt → (4 ≤ length frame) × (register frame ≡ 0)
    passes e =
        let (size, split) = check_crc-ok frame e in
        (size, ap register split ∙ register-append_crc (body frame) (All-take IsByte _ frame h))

    accepted : (4 ≤ length frame) × (register frame ≡ 0) → check_crc frame ≡ ok tt
    accepted (size, zeroed) =
        let split = take-append-drop (length frame - 2) frame in
        rw (← split) (
          check_crc_of_zero (body frame) (drop (length frame - 2) frame)
            (omega (arith, length-drop (length frame - 2) frame))
            (omega (arith, length-take (length frame - 2) frame)) (All-take IsByte _ frame h)
            (All-drop IsByte _ frame h) (ap register split ∙ zeroed))

-- If two frames of bytes differ in one byte at most, wherever it stands, and both pass the check,
-- then they are equal: a single corrupted byte is always detected.
pub check_crc_single_byte :
    (front back : List ℕ) (a b : ℕ)
    → All IsByte (front ++ (a ∷ back))
    → All IsByte (front ++ (b ∷ back))
    → check_crc (front ++ (a ∷ back)) ≡ ok tt
    → check_crc (front ++ (b ∷ back)) ≡ ok tt
    → a ≡ b
check_crc_single_byte front back a b ha hb pa pb =
    let (hf, ha', hk) = All-middle front back a ha in
    let (_, hb', _) = All-middle front back b hb in
    register_single_byte front back a b hf hk ha' hb'
      (((check_crc_iff _ ha).0 pa).1 ∙ sym ((check_crc_iff _ hb).0 pb).1)
  where
    All-middle :
        (xs ys : List ℕ) (x : ℕ)
        → All IsByte (xs ++ (x ∷ ys))
        → All IsByte xs × IsByte x × All IsByte ys
    All-middle [] ys x h = (tt, h.0, h.1)
    All-middle (z ∷ xs) ys x h = let (hx, hz, hy) = All-middle xs ys x h.1 in ((h.0, hx), hz, hy)
