-- ===== src/Io/Tracking.antt =====
-- A device that follows another one call by call until it is cut off, and `write_all` on both.
use modbus_bridge_rs.Base.{ℕ, zero, suc, refl, inl, inr, none, List, [], ◌∷◌, drop, length}
use modbus_bridge_rs.Base.Tracks.{Tracks, bind-Tracks}
use modbus_bridge_rs.Io.{Io, write_all_loop, write_all}

pub record IsFollower {S' S E : Type 0} (R : S' → S → Type 0) (io' : Io S' E) (io : Io S E)
    : Type 0 where
  pub read_tracks : (n : ℕ) → Tracks R none (io'.read n) (io.read n)
  pub write_tracks : (bytes : List ℕ) → Tracks R none (io'.write bytes) (io.write bytes)
  pub flush_tracks : Tracks R none io'.flush io.flush

module _ {S' S E : Type 0} {R : S' → S → Type 0} {io' : Io S' E} {io : Io S E}
    (follows : IsFollower R io' io) where
  write_all_loop-Tracks :
      (fuel : ℕ) (bytes : List ℕ)
      → Tracks R none (write_all_loop io' fuel bytes) (write_all_loop io fuel bytes)
  unfolding write_all_loop
  write_all_loop-Tracks fuel [] s' s r = inr (refl, r)
  write_all_loop-Tracks zero (b ∷ bytes) s' s r = inl refl
  write_all_loop-Tracks (suc fuel) (b ∷ bytes) s' s r =
      bind-Tracks R none (io'.write (b ∷ bytes)) (io.write (b ∷ bytes))
        (λ n. write_all_loop io' fuel (drop n (b ∷ bytes)))
        (λ n. write_all_loop io fuel (drop n (b ∷ bytes))) (follows.write_tracks (b ∷ bytes))
        (λ n. write_all_loop-Tracks fuel (drop n (b ∷ bytes))) s' s r

  pub write_all-Tracks : (bytes : List ℕ) → Tracks R none (write_all io' bytes) (write_all io bytes)
  unfolding write_all
  write_all-Tracks bytes = write_all_loop-Tracks (length bytes) bytes
