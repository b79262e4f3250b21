-- ===== src/Event/Readable.antt =====
-- The texts of src/event.rs say what they are about: an event can be told from its text.
use modbus_bridge_rs.Base.{
  ℕ, ◌+◌, ◌*◌, ◌-◌, ◌/◌, ◌%◌, ◌<◌, ◌≡◌, ◌≢◌, refl, sym, ap, ◌∙◌, List, [], ◌∷◌, ◌++◌, arith, All,
  All-append, IsByte, drop, Bool, true, not, ◌&&◌, ◌==◌, ==_iff, bytes_eq, if◌then◌else◌, ltb,
  Bool-cases, inl, inr, get_or,
}
use modbus_bridge_rs.Base.Text.{
  codes, decimal, hex_digit, decimal_injective, decimal-IsDigit, split_at, All-weaken,
}
use modbus_bridge_rs.Event.{
  FunctionCode, read_coils, read_discrete_inputs, read_holding_registers, read_input_registers,
  write_single_coil, write_single_register, write_multiple_coils, write_multiple_registers, other,
  Transaction, Warning, transaction_id_mismatch, BridgeEvent,
}
use modbus_bridge_rs.Event.Display.{
  display_code, display_transaction, display_warning, display_event,
}

-- A code whose byte, if it is not one of the known ones, is a byte.
abbrev pub IsCode : FunctionCode → Type 0
IsCode (other n) = IsByte n
IsCode _ = Unit {0}

hex_value : ℕ → ℕ
hex_value c = if ltb c b'a' then c - b'0' else c - b'a' + 10

hex_value-hex_digit : (d : ℕ) → d < 16 → hex_value (hex_digit d) ≡ d
unfolding hex_value
hex_value-hex_digit d h = ground arith

-- The code whose text this is.
read_code : List ℕ → FunctionCode
unfolding hex_value
read_code text =
    if bytes_eq text (codes "ReadCoils")
    then read_coils
    else if bytes_eq text (codes "ReadDiscreteInputs")
    then read_discrete_inputs
    else if bytes_eq text (codes "ReadHoldingRegisters")
    then read_holding_registers
    else if bytes_eq text (codes "ReadInputRegisters")
    then read_input_registers
    else if bytes_eq text (codes "WriteSingleCoil")
    then write_single_coil
    else if bytes_eq text (codes "WriteSingleRegister")
    then write_single_register
    else if bytes_eq text (codes "WriteMultipleCoils")
    then write_multiple_coils
    else if bytes_eq text (codes "WriteMultipleRegisters")
    then write_multiple_registers
    else other (hex_value (get_or text 5 0) * 16 + hex_value (get_or text 6 0))

read_code-display_code : (c : FunctionCode) → IsCode c → read_code (display_code c) ≡ c
unfolding read_code display_code
read_code-display_code read_coils h = refl
read_code-display_code read_discrete_inputs h = refl
read_code-display_code read_holding_registers h = refl
read_code-display_code read_input_registers h = refl
read_code-display_code write_single_coil h = refl
read_code-display_code write_single_register h = refl
read_code-display_code write_multiple_coils h = refl
read_code-display_code write_multiple_registers h = refl
read_code-display_code (other n) h = ap other (
    omega (
      arith,
      hex_value-hex_digit (n / 16) (omega arith),
      hex_value-hex_digit (n % 16) (omega arith),
    ))

display_code_injective :
    (c d : FunctionCode) → IsCode c → IsCode d → display_code c ≡ display_code d → c ≡ d
display_code_injective c d hc hd e =
    sym (read_code-display_code c hc) ∙ ap read_code e ∙ read_code-display_code d hd

-- A text without the code point `c`.
abbrev lacks : ℕ → List ℕ → Bool
lacks c [] = true
lacks c (x ∷ xs) = not (x == c) && lacks c xs

lacks→All : (c : ℕ) (xs : List ℕ) → lacks c xs ≡ true → All (λ x. x ≢ c) xs
lacks→All c [] h = tt
lacks→All c (x ∷ xs) h = elim (Bool-cases (x == c)) [
  | inl same ↦ absurd (cc (rw same at h))
  | inr differs ↦ (λ e. absurd (cc (differs, (==_iff x c).1 e)), lacks→All c xs (rw differs at h))
]

decimal_lacks : (c n : ℕ) → c < b'0' → All (λ x. x ≢ c) (decimal n)
decimal_lacks c n h = All-weaken (decimal n) (λ x d e. omega (arith, d.0)) (decimal-IsDigit n)

hex_digit_lacks : (d : ℕ) → hex_digit d ≢ b' '
hex_digit_lacks d = ground arith

display_code_lacks : (c : FunctionCode) → All (λ x. x ≢ b' ') (display_code c)
unfolding display_code
display_code_lacks read_coils = lacks→All b' ' (codes "ReadCoils") refl
display_code_lacks read_discrete_inputs = lacks→All b' ' (codes "ReadDiscreteInputs") refl
display_code_lacks read_holding_registers = lacks→All b' ' (codes "ReadHoldingRegisters") refl
display_code_lacks read_input_registers = lacks→All b' ' (codes "ReadInputRegisters") refl
display_code_lacks write_single_coil = lacks→All b' ' (codes "WriteSingleCoil") refl
display_code_lacks write_single_register = lacks→All b' ' (codes "WriteSingleRegister") refl
display_code_lacks write_multiple_coils = lacks→All b' ' (codes "WriteMultipleCoils") refl
display_code_lacks write_multiple_registers = lacks→All b' ' (codes "WriteMultipleRegisters") refl
display_code_lacks (other n) =
    All-append (λ x. x ≢ b' ') (codes "FC(0x") (hex_digit (n / 16) ∷ hex_digit (n % 16) ∷ codes ")")
      (lacks→All b' ' (codes "FC(0x") refl)
      (hex_digit_lacks (n / 16), (hex_digit_lacks (n % 16), lacks→All b' ' (codes ")") refl))

display_transaction_injective :
    (t u : Transaction)
    → IsCode t.function_code
    → IsCode u.function_code
    → display_transaction t ≡ display_transaction u
    → t ≡ u
unfolding display_transaction
display_transaction_injective t u ht hu e =
    let code_text : Transaction → List ℕ = λ x.
      codes "addr=" ++ (decimal x.start_address ++ (codes " count=" ++ decimal x.register_count)) in
    let unit_text : Transaction → List ℕ =
      λ x. codes "fc=" ++ (display_code x.function_code ++ (b' ' ∷ code_text x)) in
    let (units, e1) =
      split_at b' ' (decimal t.unit_id) (decimal u.unit_id) (unit_text t) (unit_text u)
        (decimal_lacks b' ' t.unit_id (omega arith)) (decimal_lacks b' ' u.unit_id (omega arith))
        (ap (drop 5) e) in
    let (codes', e2) =
      split_at b' ' (display_code t.function_code) (display_code u.function_code) (code_text t)
        (code_text u) (display_code_lacks t.function_code) (display_code_lacks u.function_code)
        (ap (drop 3) e1) in
    let (starts, e3) =
      split_at b' ' (decimal t.start_address) (decimal u.start_address)
        (codes "count=" ++ decimal t.register_count) (codes "count=" ++ decimal u.register_count)
        (decimal_lacks b' ' t.start_address (omega arith))
        (decimal_lacks b' ' u.start_address (omega arith)) (ap (drop 5) e2) in
    let unit_id : t.unit_id ≡ u.unit_id = decimal_injective t.unit_id u.unit_id units in
    let function_code : t.function_code ≡ u.function_code =
      display_code_injective t.function_code u.function_code ht hu codes' in
    let start_address : t.start_address ≡ u.start_address =
      decimal_injective t.start_address u.start_address starts in
    let register_count : t.register_count ≡ u.register_count =
      decimal_injective t.register_count u.register_count (ap (drop 6) e3) in
    cc (unit_id, function_code, start_address, register_count)

display_warning_injective : (w v : Warning) → display_warning w ≡ display_warning v → w ≡ v
unfolding display_warning
display_warning_injective (transaction_id_mismatch a b) (transaction_id_mismatch a' b') e =
    let (expected, rest) =
      split_at b',' (decimal a) (decimal a') (codes " got " ++ decimal b)
        (codes " got " ++ decimal b') (decimal_lacks b',' a (omega arith))
        (decimal_lacks b',' a' (omega arith)) (ap (drop 34) e) in
    let same_expected : a ≡ a' = decimal_injective a a' expected in
    let same_got : b ≡ b' = decimal_injective b b' (ap (drop 5) rest) in
    cc (same_expected, same_got)

unlike : (x : Transaction) (y : Warning) → display_transaction x ≢ display_warning y
unfolding display_transaction display_warning
unlike x (transaction_id_mismatch a b) q = omega (arith, ap (λ l. get_or l 0 0) q)

-- An event with a byte for an unknown function code.
abbrev pub IsEvent : BridgeEvent → Type 0
IsEvent (BridgeEvent.transaction t) = IsCode t.function_code
IsEvent (BridgeEvent.warning w) = Unit {0}

-- The text that an event displays as determines the event: two events that display alike have the
-- same unit, function code, address and count, or warn of the same two transaction ids, provided
-- that an unknown function code is a byte.
pub display_event_injective :
    (e f : BridgeEvent) → IsEvent e → IsEvent f → display_event e ≡ display_event f → e ≡ f
unfolding display_event
display_event_injective (BridgeEvent.transaction t) (BridgeEvent.transaction u) ht hu e =
    ap BridgeEvent.transaction (display_transaction_injective t u ht hu e)
display_event_injective (BridgeEvent.transaction t) (BridgeEvent.warning v) ht hv e =
    absurd (unlike t v e)
display_event_injective (BridgeEvent.warning w) (BridgeEvent.transaction u) hw hu e =
    absurd (unlike u w (sym e))
display_event_injective (BridgeEvent.warning w) (BridgeEvent.warning v) hw hv e =
    ap BridgeEvent.warning (display_warning_injective w v e)
