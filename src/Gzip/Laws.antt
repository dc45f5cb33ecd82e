-- ===== src/Gzip/Laws.antt =====
-- What zlib/gzip/main.cpp relies on of zlib.
use c_practice.Base.{ℕ, ◌+◌, ◌≤◌, ◌<◌, ◌≡◌, refl, Bool, length, inl, inr, ◌⊎◌}
use c_practice.Base.Text.{Text}
use c_practice.Gzip.{Code, Zlib, z_ok, z_stream_end, z_data_error, z_error}

-- zlib takes no more than the input, puts out no more than there is room for, and says `Z_OK` only if
-- there was some progress.
pub record ZlibLaws {Z : Type 0} (lib : Zlib Z) : Type 0 where
  pub deflate_used :
      (finish : Bool) (input : Text) (room : ℕ) (z : Z)
      → (lib.deflate finish input room z).used ≤ length input
  pub deflate_room :
      (finish : Bool) (input : Text) (room : ℕ) (z : Z)
      → length (lib.deflate finish input room z).output ≤ room
  pub deflate_progress :
      (finish : Bool) (input : Text) (room : ℕ) (z : Z)
      → (lib.deflate finish input room z).code ≡ z_ok
      → 0 < (lib.deflate finish input room z).used + length (lib.deflate finish input room z).output
  pub inflate_room :
      (input : Text) (room : ℕ) (z : Z) → length (lib.inflate input room z).output ≤ room
  pub inflate_progress :
      (input : Text) (room : ℕ) (z : Z)
      → (lib.inflate input room z).code ≡ z_ok
      → 0 < (lib.inflate input room z).used + length (lib.inflate input room z).output

pub Code-cases :
    (c : Code) → (c ≡ z_ok) ⊎ ((c ≡ z_stream_end) ⊎ ((c ≡ z_data_error) ⊎ (c ≡ z_error)))
Code-cases z_ok = inl refl
Code-cases z_stream_end = inr (inl refl)
Code-cases z_data_error = inr (inr (inl refl))
Code-cases z_error = inr (inr (inr refl))
