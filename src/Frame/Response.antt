-- ===== src/Frame/Response.antt =====
-- The responses of the Modbus specification, as src/frame.rs lists them, and how many bytes
-- `rtu_response_remaining` of that file reads of each.
use modbus_bridge_rs.Base.{ℕ, ◌+◌, ◌<◌, ◌≢◌, ◌≡◌, ◌⊎◌, List, [], ◌∷◌, ◌++◌, length}
use modbus_bridge_rs.Frame.{crc}

-- A response with data, the echo of a write with an address and a value, or an exception to a
-- request with the given code.
pub data Response : Type 0 where
  counted : (fc : ℕ) → List ℕ → Response
  echo : (fc addr_hi addr_lo value_hi value_lo : ℕ) → Response
  exception : (fc code : ℕ) → Response

-- The codes whose responses are echoes.
abbrev pub IsEcho : ℕ → Type 0
IsEcho fc = (fc ≡ 0x05) ⊎ (fc ≡ 0x06) ⊎ (fc ≡ 0x0F) ⊎ (fc ≡ 0x10)

abbrev pub IsResponsePdu : Response → Type 0
IsResponsePdu (counted fc bytes) =
    (fc < 0x80) × (fc ≢ 0x05) × (fc ≢ 0x06) × (fc ≢ 0x0F) × (fc ≢ 0x10) × (length bytes < 256)
IsResponsePdu (echo fc addr_hi addr_lo value_hi value_lo) = IsEcho fc
IsResponsePdu (exception fc code) = fc < 0x80

-- The second and the third byte of the frame, and what is between them and the CRC.
abbrev pub first : Response → ℕ
first (counted fc bytes) = fc
first (echo fc addr_hi addr_lo value_hi value_lo) = fc
first (exception fc code) = 0x80 + fc

abbrev pub second : Response → ℕ
second (counted fc bytes) = length bytes
second (echo fc addr_hi addr_lo value_hi value_lo) = addr_hi
second (exception fc code) = code

abbrev pub others : Response → List ℕ
others (counted fc bytes) = bytes
others (echo fc addr_hi addr_lo value_hi value_lo) = addr_lo ∷ value_hi ∷ value_lo ∷ []
others (exception fc code) = []

abbrev pub frame : ℕ → Response → List ℕ
frame unit x = let pdu = unit ∷ first x ∷ second x ∷ others x in pdu ++ crc pdu
