-- ===== src/Jpeg/Laws.antt =====
-- What jpeg2/main.cpp relies on of libjpeg.
use c_practice.Base.{ℕ, zero, suc, ◌*◌, ◌<◌, ◌≡◌, some, List, [], ◌∷◌, ◌++◌, length, take, drop}
use c_practice.Base.Text.{Text}
use c_practice.Jpeg.{Settings, Libjpeg, jcs_rgb}

-- The rows are `n` bytes long.
abbrev pub AllLength : ℕ → List Text → Type 0
AllLength n [] = Unit
AllLength n (row ∷ rows) = (length row ≡ n) × AllLength n rows

-- The image as `height` rows of `n` bytes.
abbrev pub rows_of : (height n : ℕ) → Text → List Text
rows_of zero n src = []
rows_of (suc height) n src = take n src ∷ rows_of height n (drop n src)

abbrev pub join : List Text → Text
join [] = []
join (row ∷ rows) = row ++ join rows

module _ {C D : Type 0} (lib : Libjpeg C D) where
  -- What a job in compression was told and given, and what a decompression has yet to give. A new
  -- job is at line 0, and each call moves it on by one row while there are rows to come. A job that
  -- has got all of its rows ends in an image that can be read, of the same size and with the
  -- components that the job chose for the image; its rows are those that were written, but for what the compression loses (`degrade`). Rows in RGB have 3
  -- components, and so has the image made of them. An image that is read without a change of scale
  -- keeps its width, and gives rows of its width and components; with no colour map it gives as many
  -- components as the image has.
  pub record LibjpegLaws : Type 0 where
    pub settings : C → Settings
    pub written : C → List Text
    pub remaining : D → List Text
    pub degrade : Settings → List Text → List Text
    pub started :
        (s : Settings) (c : C) → lib.start_compress s ≡ some c → (settings c ≡ s) × (written c ≡ [])
    pub compress_line : (c : C) → lib.next_scanline c ≡ length (written c)
    pub wrote :
        (row : Text) (c : C)
        → length (written c) < (settings c).image_height
        → (settings (lib.write_scanlines row c) ≡ settings c)
          × (written (lib.write_scanlines row c) ≡ written c ++ (row ∷ []))
          × (lib.num_components_of (lib.write_scanlines row c) ≡ lib.num_components_of c)
    pub rgb :
        (s : Settings) (c : C)
        → lib.start_compress s ≡ some c
        → s.in_color_space ≡ jcs_rgb
        → (s.input_components ≡ 3) × (lib.num_components_of c ≡ 3)
    pub finished :
        (c : C)
        → length (written c) ≡ (settings c).image_height
        → (d : D) × (lib.start_decompress (lib.finish_compress c) ≡ some d)
          × (lib.output_width d ≡ (settings c).image_width)
          × (lib.output_height d ≡ (settings c).image_height)
          × (lib.num_components d ≡ lib.num_components_of c)
          × (remaining d ≡ degrade (settings c) (written c))
    pub opened :
        (src : Text) (d : D)
        → lib.start_decompress src ≡ some d
        → (lib.output_scanline d ≡ 0)
          × (lib.image_width_of d ≡ lib.output_width d)
          × (length (remaining d) ≡ lib.output_height d)
          × AllLength (lib.output_width d * lib.num_components d) (remaining d)
    pub full_color :
        (src : Text) (d : D)
        → lib.start_decompress src ≡ some d
        → lib.output_components d ≡ lib.num_components d
    pub read :
        (d : D) (row : Text) (rows : List Text)
        → remaining d ≡ row ∷ rows
        → ((lib.read_scanlines d).0 ≡ row)
          × (remaining (lib.read_scanlines d).1 ≡ rows)
          × (lib.output_scanline (lib.read_scanlines d).1 ≡ suc (lib.output_scanline d))
          × (lib.output_height (lib.read_scanlines d).1 ≡ lib.output_height d)
