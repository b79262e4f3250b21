-- ===== src/Io/Order.antt =====
-- The order of the bytes on a line: a device with a log of all that it has sent and received.
use modbus_bridge_rs.Base.{
  ℕ, zero, suc, ◌≡◌, refl, sym, ap, ◌∙◌, List, [], ◌∷◌, ◌++◌, length, take, drop, map, Option,
}
use mathlib.Core.List.{append_assoc, append_cancel_left}
use modbus_bridge_rs.Base.Outcome.{Outcome, done, fail, stalled, Exec, continue, ◌>>=◌}
use modbus_bridge_rs.Base.Ensures.{Ensures}
use modbus_bridge_rs.Io.{Io, Traffic, bytes_of, count_of, write_all_loop, write_all}

-- A byte that has gone out, or one that has come in.
pub data Move : Type 0 where
  sends : ℕ → Move
  receives : ℕ → Move

abbrev pub sent_of : List Move → List ℕ
sent_of [] = []
sent_of (sends b ∷ log) = b ∷ sent_of log
sent_of (receives b ∷ log) = sent_of log

abbrev pub received_of : List Move → List ℕ
received_of [] = []
received_of (sends b ∷ log) = received_of log
received_of (receives b ∷ log) = b ∷ received_of log

-- The traffic of a log, without the order.
abbrev pub traffic_of : {S : Type 0} → (S → List Move) → Traffic S
traffic_of log = record { sent = λ s. sent_of (log s); received = λ s. received_of (log s) }

-- Every call adds its bytes at the end of the log.
pub record IsLogged {S E : Type 0} (io : Io S E) (log : S → List Move) : Type 0 where
  pub read_log :
      (n : ℕ) (s : S) → log (io.read n s).1 ≡ log s ++ map receives (bytes_of (io.read n s).0)
  pub write_log :
      (bytes : List ℕ) (s : S)
      → log (io.write bytes s).1 ≡ log s ++ map sends (take (count_of (io.write bytes s).0) bytes)
  pub flush_log : (s : S) → log (io.flush s).1 ≡ log s

pub sent_of-sends : (l : List Move) (w : List ℕ) → sent_of (l ++ map sends w) ≡ sent_of l ++ w
sent_of-sends [] [] = refl
sent_of-sends [] (b ∷ w) = ap (λ m. b ∷ m) (sent_of-sends [] w)
sent_of-sends (sends b ∷ l) w = ap (λ m. b ∷ m) (sent_of-sends l w)
sent_of-sends (receives b ∷ l) w = sent_of-sends l w

pub sent_of-receives : (l : List Move) (w : List ℕ) → sent_of (l ++ map receives w) ≡ sent_of l
sent_of-receives [] [] = refl
sent_of-receives [] (b ∷ w) = sent_of-receives [] w
sent_of-receives (sends b ∷ l) w = ap (λ m. b ∷ m) (sent_of-receives l w)
sent_of-receives (receives b ∷ l) w = sent_of-receives l w

pub received_of-receives :
    (l : List Move) (w : List ℕ) → received_of (l ++ map receives w) ≡ received_of l ++ w
received_of-receives [] [] = refl
received_of-receives [] (b ∷ w) = ap (λ m. b ∷ m) (received_of-receives [] w)
received_of-receives (sends b ∷ l) w = received_of-receives l w
received_of-receives (receives b ∷ l) w = ap (λ m. b ∷ m) (received_of-receives l w)

pub received_of-sends :
    (l : List Move) (w : List ℕ) → received_of (l ++ map sends w) ≡ received_of l
received_of-sends [] [] = refl
received_of-sends [] (b ∷ w) = received_of-sends [] w
received_of-sends (sends b ∷ l) w = received_of-sends l w
received_of-sends (receives b ∷ l) w = ap (λ m. b ∷ m) (received_of-sends l w)

pub map-append : (f : ℕ → Move) (xs ys : List ℕ) → map f (xs ++ ys) ≡ map f xs ++ map f ys
map-append f [] ys = refl
map-append f (x ∷ xs) ys = ap (λ l. f x ∷ l) (map-append f xs ys)

-- Bytes that have only gone out, or only come in, are known from the traffic.
pub told :
    (l : List Move) (w v : List ℕ) (m : List Move)
    → m ≡ l ++ map sends w
    → sent_of m ≡ sent_of l ++ v
    → m ≡ l ++ map sends v
told l w v m e a =
    rw (← append_cancel_left (sent_of l) w v (sym (sent_of-sends l w) ∙ sym (ap sent_of e) ∙ a)) e

pub heard :
    (l : List Move) (w v : List ℕ) (m : List Move)
    → m ≡ l ++ map receives w
    → received_of m ≡ received_of l ++ v
    → m ≡ l ++ map receives v
heard l w v m e a =
    rw
      (← append_cancel_left (received_of l) w v
        (sym (received_of-receives l w) ∙ sym (ap received_of e) ∙ a))
      e

module _ {S E : Type 0} where
  -- Whatever the outcome, what holds before holds afterwards.
  abbrev pub Keeps : {A : Type 0} → (S → Type 0) → Exec S E A → Type 0
  Keeps P m = (s : S) → P s → P (m s).1

  module _ (P : S → Type 0) {A A' : Type 0} where
    continue-Keeps :
        (r : Outcome E A) (f : A → Exec S E A') (s : S)
        → ((a : A) → Keeps P (f a))
        → P s
        → P (continue r f s).1
    continue-Keeps (done a) f s k p = k a s p
    continue-Keeps (fail e) f s k p = p
    continue-Keeps stalled f s k p = p

    pub bind-Keeps :
        (m : Exec S E A) (f : A → Exec S E A')
        → Keeps P m
        → ((a : A) → Keeps P (f a))
        → Keeps P (m >>= f)
    bind-Keeps m f k l s p = continue-Keeps (m s).0 f (m s).1 l (k s p)

  -- A postcondition together with what is kept.
  pub Ensures-and :
      {A : Type 0} (P : S → Type 0) (D : A → S → Type 0) (B : Option E → S → Type 0)
      (r : Outcome E A) (s : S)
      → Ensures D B r s
      → P s
      → Ensures (λ a t. D a t × P t) (λ e t. B e t × P t) r s
  Ensures-and P D B (done a) s d p = (d, p)
  Ensures-and P D B (fail e) s d p = (d, p)
  Ensures-and P D B stalled s d p = (d, p)

  module _ (io : Io S E) (P : S → Type 0) (kept : (bytes : List ℕ) → Keeps P (io.write bytes)) where
    write_all_loop-Keeps : (fuel : ℕ) (bytes : List ℕ) → Keeps P (write_all_loop io fuel bytes)
    unfolding write_all_loop
    write_all_loop-Keeps fuel [] s p = p
    write_all_loop-Keeps zero (b ∷ bytes) s p = p
    write_all_loop-Keeps (suc fuel) (b ∷ bytes) s p =
        bind-Keeps P (io.write (b ∷ bytes)) (λ n. write_all_loop io fuel (drop n (b ∷ bytes)))
          (kept (b ∷ bytes)) (λ n. write_all_loop-Keeps fuel (drop n (b ∷ bytes))) s p

    pub write_all-Keeps : (bytes : List ℕ) → Keeps P (write_all io bytes)
    unfolding write_all
    write_all-Keeps bytes = write_all_loop-Keeps (length bytes) bytes

module _ {S E : Type 0} {io : Io S E} {log : S → List Move} (logged : IsLogged io log)
    (l : List Move) where
  -- Since the log was `l`, bytes have only come in, or only gone out.
  abbrev pub Heard : S → Type 0
  Heard s = (w : List ℕ) × (log s ≡ l ++ map receives w)

  abbrev pub Told : S → Type 0
  Told s = (w : List ℕ) × (log s ≡ l ++ map sends w)

  longer :
      (f : ℕ → Move) (w v : List ℕ) (l' l'' : List Move)
      → l' ≡ l ++ map f w
      → l'' ≡ l' ++ map f v
      → l'' ≡ l ++ map f (w ++ v)
  longer f w v l' l'' e e' =
      rw (map-append f w v, ← append_assoc l (map f w) (map f v)) (e' ∙ ap (λ m. m ++ map f v) e)

  pub read-Heard : (n : ℕ) → Keeps Heard (io.read n)
  read-Heard n s (w, e) = (w ++ _, longer receives w _ (log s) _ e (logged.read_log n s))

  pub write-Told : (bytes : List ℕ) → Keeps Told (io.write bytes)
  write-Told bytes s (w, e) = (w ++ _, longer sends w _ (log s) _ e (logged.write_log bytes s))

  pub flush-Told : Keeps Told io.flush
  flush-Told s (w, e) = (w, logged.flush_log s ∙ e)
