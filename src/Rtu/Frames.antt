-- ===== src/Rtu/Frames.antt =====
-- `listen` and `receive` of src/rtu.rs: the frames that they accept.
use modbus_bridge_rs.Base.{
  ℕ, ◌+◌, ◌≤◌, ◌≡◌, refl, ap, ◌∙◌, Option, some, List, [], ◌∷◌, ◌++◌, ◌||◌, ◌&&◌, ◌==◌, leb, arith,
  length, All, IsByte, All-append, length-append, if◌then◌else◌, get_or,
}
use modbus_bridge_rs.Base.Outcome.{Result, ok, err}
use modbus_bridge_rs.Base.Ensures.{Ensures, Ensures-bind}
use modbus_bridge_rs.Error.{into_combined}
use modbus_bridge_rs.Heapless.{Heapless, IsHeapless}
use modbus_bridge_rs.Frame.{FrameError, check_crc, rtu_response_remaining, response_cap}
use modbus_bridge_rs.Frame.Parse.{rtu_response_remaining_bounds}
use modbus_bridge_rs.Io.{Io, IsIo, Traffic, At}
use modbus_bridge_rs.Rtu.{RtuError, read_exact, or_push, read_bytes, checked, receive}
use modbus_bridge_rs.Rtu.Read.{
  Filled, Quiet, Pushed, read_exact-Filled, extend-post, read_bytes-Pushed,
}

-- How long a request is by its function code and, for the two codes with data, its byte count.
abbrev pub request_length : List ℕ → ℕ
request_length req =
    if get_or req 1 0 == 0x0F || get_or req 1 0 == 0x10 then 9 + get_or req 6 0 else 8

-- What follows the first three bytes of a response.
abbrev pub response_remaining : List ℕ → ℕ
response_remaining resp =
    rtu_response_remaining (get_or resp 0 0) (get_or resp 1 0) (get_or resp 2 0)

-- How long a response is: five bytes for an exception, eight for the echo of a write, and for any
-- other code five and as many as the third byte counts.
abbrev pub response_length : List ℕ → ℕ
response_length resp =
    let fc = get_or resp 1 0 in
    if leb 0x80 fc && leb fc 0xFF
    then 5
    else (if fc == 0x05 || fc == 0x06 || fc == 0x0F || fc == 0x10 then 8 else 5 + get_or resp 2 0)

pub response_length_low : (resp : List ℕ) → 5 ≤ response_length resp
response_length_low resp = ground arith

-- It is what `rtu_response_remaining` says after three bytes.
pub response_length_remaining :
    (a b c : ℕ) (k : List ℕ) → response_length (a ∷ b ∷ c ∷ k) ≡ 3 + rtu_response_remaining a b c
unfolding rtu_response_remaining
response_length_remaining a b c k = ground arith

module _ {S E : Type 0} {io : Io S E} {t : Traffic S} (lawful : IsIo io t) where
  pub check-post :
      (D : List ℕ → S → Type 0) (B : Option (RtuError E) → S → Type 0) (v : List ℕ) (s : S)
      (x : Result FrameError (Unit {0}))
      → (x ≡ ok tt → D v s)
      → ((e : RtuError E) → B (some e) s)
      → Ensures D B (checked {SE = E} x v s).0 (checked {SE = E} x v s).1
  check-post D B v s (ok tt) d b = d refl
  check-post D B v s (err e) d b = b (into_combined e)

  -- A response that `receive` returns: its CRC is right, its length is the one that its code
  -- and byte count state, and its bytes are those taken from the port.
  abbrev pub IsResponse : List ℕ → List ℕ → List ℕ → S → Type 0
  IsResponse out base resp s =
      (check_crc resp ≡ ok tt)
      × (length resp ≡ response_length resp)
      × (length resp ≤ 260)
      × All IsByte resp
      × At t out (base ++ resp) s

  three_bytes : (v k : List ℕ) → length v ≡ 3 → response_length (v ++ k) ≡ 3 + response_remaining v
  three_bytes [] k e = absurd (omega arith)
  three_bytes (a ∷ []) k e = absurd (omega arith)
  three_bytes (a ∷ b ∷ []) k e = absurd (omega arith)
  three_bytes (a ∷ b ∷ c ∷ []) k e = response_length_remaining a b c k
  three_bytes (a ∷ b ∷ c ∷ d ∷ v) k e = absurd (omega arith)

  three_bytes_bound : (v : List ℕ) → length v ≡ 3 → All IsByte v → response_remaining v ≤ 257
  three_bytes_bound [] e h = absurd (omega arith)
  three_bytes_bound (a ∷ []) e h = absurd (omega arith)
  three_bytes_bound (a ∷ b ∷ []) e h = absurd (omega arith)
  three_bytes_bound (a ∷ b ∷ c ∷ v) e h =
      omega (arith, rtu_response_remaining_bounds a b c h.1.0 h.1.1.0)

  module _ {h : Heapless} (vec : IsHeapless h) where
    assembled :
        (out base v v' header : List ℕ) (s : S)
        → length header ≡ 3
        → All IsByte header
        → v ≡ header
        → check_crc v' ≡ ok tt
        → Pushed lawful vec response_cap (response_remaining header) out base v v' s
        → IsResponse out base v' s
    assembled out base v v' header s len bytes e valid ((k, joined, count, more, a), room) =
        let whole : v' ≡ header ++ k = joined ∙ ap (λ l. l ++ k) e in
        (
          valid,
          rw whole (omega (arith, length-append header k, three_bytes header k len, len, count)),
          rw whole
              (omega (arith, length-append header k, three_bytes_bound header len bytes, count)),
          rw whole (All-append IsByte header k bytes more),
          a,
        )

    -- On a port that keeps its contract `receive` returns only frames with a valid CRC that are
    -- five bytes for an exception, eight for the echo of a write, and otherwise as long as their
    -- byte count says, and takes exactly the frame from the port.
    pub receive-IsResponse :
        (out base : List ℕ) (s : S)
        → At t out base s
        → Ensures (IsResponse out base) (Quiet lawful out) (receive h io s).0 (receive h io s).1
    unfolding receive
    receive-IsResponse out base s a =
        Ensures-bind (Filled lawful 3 out base) (IsResponse out base) (Quiet lawful out)
          (read_exact io 3) _ s (read_exact-Filled lawful 3 out base s a)
          (λ header s' (len, bytes, a').
            let n : ℕ = response_remaining header in
            Ensures-bind (λ v s''. (v ≡ header) × At t out (base ++ header) s'')
              (IsResponse out base) (Quiet lawful out)
              (or_push h io (h.extend_from_slice response_cap header [])) _ s'
              (extend-post lawful vec (λ v s''. (v ≡ header) × At t out (base ++ header) s'')
                (Quiet lawful out) response_cap header [] s' (λ _. (refl, a')) a'.0)
              (λ v s'' (e, a'').
                Ensures-bind (Pushed lawful vec response_cap n out base v) (IsResponse out base)
                  (Quiet lawful out) (read_bytes h io response_cap n v) _ s''
                  (read_bytes-Pushed lawful vec response_cap n out base v s'' (rw e (omega arith))
                    (rw e a''))
                  (λ v' s''' p.
                    check-post (IsResponse out base) (Quiet lawful out) v' s''' (check_crc v')
                      (λ valid. assembled out base v v' header s''' len bytes e valid p)
                      (λ _. p.0.4.0))))
