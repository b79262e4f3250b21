-- ===== src/Frame/Parse.antt =====
-- The request parsers and the response length of src/frame.rs.
use modbus_bridge_rs.Base.{IsByte}
use modbus_bridge_rs.Base.{
  ℕ, suc, ◌-◌, ◌≤◌, ◌≡◌, ap, inl, inr, List, [], ◌∷◌, arith, length, take, ltb, Bool-cases, le→ltb,
  lt→ltb, ltb→le, ltb→lt,
}
use modbus_bridge_rs.Base.Outcome.{ok}
use modbus_bridge_rs.Frame.{
  rtu_to_tcp, parse_tcp_request, parse_rtu_request, rtu_response_remaining,
}
use modbus_bridge_rs.Heapless.{Heapless, IsHeapless}
use modbus_bridge_rs.Frame.Check.{body}
use modbus_bridge_rs.Frame.Convert.{mbap_frame, rtu_to_tcp-ok}
use modbus_bridge_rs.Frame.RoundTrip.{length-body}

body_long :
    (a b c d e f : ℕ) (rest : List ℕ)
    → 8 ≤ length (a ∷ b ∷ c ∷ d ∷ e ∷ f ∷ rest)
    → body (a ∷ b ∷ c ∷ d ∷ e ∷ f ∷ rest) ≡ a ∷ b ∷ c ∷ d ∷ e ∷ f ∷ take (length rest - 2) rest
body_long a b c d e f rest h = ap (λ n. take n (a ∷ b ∷ c ∷ d ∷ e ∷ f ∷ rest)) count
  where
    count :
        length (a ∷ b ∷ c ∷ d ∷ e ∷ f ∷ rest) - 2
        ≡ suc (suc (suc (suc (suc (suc (length rest - 2))))))
    count = omega arith

parse_long :
    (tid : ℕ) (rtu : List ℕ)
    → 8 ≤ length rtu
    → parse_tcp_request (mbap_frame tid (body rtu)) ≡ parse_rtu_request rtu
unfolding parse_tcp_request parse_rtu_request
parse_long tid [] h = absurd (omega arith)
parse_long tid (a ∷ []) h = absurd (omega arith)
parse_long tid (a ∷ b ∷ []) h = absurd (omega arith)
parse_long tid (a ∷ b ∷ c ∷ []) h = absurd (omega arith)
parse_long tid (a ∷ b ∷ c ∷ d ∷ []) h = absurd (omega arith)
parse_long tid (a ∷ b ∷ c ∷ d ∷ e ∷ []) h = absurd (omega arith)
parse_long tid (a ∷ b ∷ c ∷ d ∷ e ∷ f ∷ rest) h = rw (
  body_long a b c d e f rest h,
  le→ltb (length (mbap_frame tid (a ∷ b ∷ c ∷ d ∷ e ∷ f ∷ take (length rest - 2) rest))) 12
      (omega arith),
  le→ltb (length (a ∷ b ∷ c ∷ d ∷ e ∷ f ∷ rest)) 8 h,
)

pub parse_mbap :
    (tid : ℕ) (rtu : List ℕ) → parse_tcp_request (mbap_frame tid (body rtu)) ≡ parse_rtu_request rtu
unfolding parse_tcp_request parse_rtu_request
parse_mbap tid rtu = elim (Bool-cases (ltb (length rtu) 8)) [
  | inl short ↦ rw (
    short,
    lt→ltb (length (mbap_frame tid (body rtu))) 12
        (omega (arith, length-body rtu, ltb→lt _ _ short)),
  )
  | inr long ↦ parse_long tid rtu (ltb→le _ _ long)
]

-- Whatever frame `rtu_to_tcp` makes of a request, both parsers read the same unit, function code,
-- address and count from the two, or neither reads any.
pub parse_tcp_request-rtu_to_tcp :
    {h : Heapless} (lawful : IsHeapless h) (rtu tcp : List ℕ) (tid : ℕ)
    → rtu_to_tcp h rtu tid ≡ ok tcp
    → parse_tcp_request tcp ≡ parse_rtu_request rtu
parse_tcp_request-rtu_to_tcp lawful rtu tcp tid e =
    rw ((rtu_to_tcp-ok lawful rtu tcp tid e).1) (parse_mbap tid rtu)

-- A response header is followed by 2 to 257 bytes, so a whole response has at most 260.
pub rtu_response_remaining_bounds :
    (addr fc byte3 : ℕ)
    → IsByte fc
    → IsByte byte3
    → (2 ≤ rtu_response_remaining addr fc byte3) × (rtu_response_remaining addr fc byte3 ≤ 257)
unfolding rtu_response_remaining
rtu_response_remaining_bounds addr fc byte3 hf hb = ground arith
