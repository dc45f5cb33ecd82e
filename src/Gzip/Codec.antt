-- ===== src/Gzip/Codec.antt =====
-- What makes zlib a codec: a stream that was written whole is read back.
use c_practice.Base.{ℕ, ◌≤◌, ◌<◌, ◌≡◌, true, false, some, [], ◌∷◌, ◌++◌, ◌⊎◌, length, take, drop}
use c_practice.Base.Text.{Text}
use c_practice.Gzip.{Zlib, z_ok, z_stream_end}

-- `Packed` relates a text to the streams that hold it. While a stream is written, `Writing` knows what
-- was fed and what was put out; what is put out for `n` bytes or fewer stays below `bound n`. With some
-- room `deflate` goes on. While one is read, `Reading` knows what is left of the stream, which is not
-- over, and of the text; `inflate` goes on, or comes to the end of both.
pub record ZlibCodec {Z : Type 0} (lib : Zlib Z) : Type 1 where
  pub Packed : Text → Text → Type 0
  pub Writing : Z → (fed emitted : Text) → Type 0
  pub Reading : Z → (zrest rest : Text) → Type 0
  pub bound : ℕ → ℕ
  pub deflate_starts : (z : Z) × (lib.deflate_init ≡ some z) × Writing z [] []
  pub deflate_bound :
      (n : ℕ) (z : Z) (fed emitted : Text)
      → Writing z fed emitted
      → length fed ≤ n
      → length emitted < bound n
  pub deflate_feeds :
      (z : Z) (fed emitted input : Text) (room : ℕ)
      → Writing z fed emitted
      → 0 < length input
      → 0 < room
      → ((lib.deflate false input room z).code ≡ z_ok)
        × Writing
            (lib.deflate false input room z).state
            (fed ++ take (lib.deflate false input room z).used input)
            (emitted ++ (lib.deflate false input room z).output)
  pub deflate_finishes :
      (z : Z) (fed emitted : Text) (room : ℕ)
      → Writing z fed emitted
      → 0 < room
      → (((lib.deflate true [] room z).code ≡ z_ok)
          × Writing
              (lib.deflate true [] room z).state
              fed
              (emitted ++ (lib.deflate true [] room z).output))
        ⊎ (((lib.deflate true [] room z).code ≡ z_stream_end)
            × Packed fed (emitted ++ (lib.deflate true [] room z).output)
            × (lib.deflate_end (lib.deflate true [] room z).state ≡ true))
  pub inflate_starts :
      (z : Z) × (lib.inflate_init ≡ some z)
      × ((text zdata : Text) → Packed text zdata → Reading z zdata text)
  pub inflate_more : (z : Z) (rest : Text) → Reading z [] rest → ⊥
  pub inflate_reads :
      (z : Z) (b : ℕ) (zrest rest : Text)
      → Reading z (b ∷ zrest) rest
      → (((lib.inflate (b ∷ []) 1 z).code ≡ z_ok)
          × (rest' : Text) × (rest ≡ (lib.inflate (b ∷ []) 1 z).output ++ rest')
          × Reading
              (lib.inflate (b ∷ []) 1 z).state
              (drop (lib.inflate (b ∷ []) 1 z).used (b ∷ zrest))
              rest')
        ⊎ (((lib.inflate (b ∷ []) 1 z).code ≡ z_stream_end)
            × (rest ≡ (lib.inflate (b ∷ []) 1 z).output)
            × (lib.inflate_end (lib.inflate (b ∷ []) 1 z).state ≡ true))
