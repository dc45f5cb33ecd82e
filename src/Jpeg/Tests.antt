-- ===== src/Jpeg/Tests.antt =====
-- A codec that stores the pixels as they are, and images compressed, read and compressed again.
use Prim.Native.Nat.{min}
use mathlib.Core.Path.{subst}
use c_practice.Base.{
  ℕ, zero, suc, ◌+◌, ◌*◌, ◌≡◌, refl, ap, ◌∙◌, true, false, not, ◌&&◌, Option, none, some, List, [],
  ◌∷◌, ◌++◌, arith, if◌then◌else◌, ◌==◌, Bool-cases, inl, inr, length, take, drop, replicate,
  length-append, length-take, length-replicate,
}
use c_practice.Base.Text.{Text, has_byte}
use c_practice.Jpeg.{
  Settings, Libjpeg, Image, done, undefined, jcs_rgb, compress_jpeg_to_mem,
  decompress_jpeg_from_mem,
}
use c_practice.Base.Buffer.{overwrite}
use c_practice.Jpeg.Reading.{read_jpeg_file, read_forward}
use c_practice.Jpeg.Reading.Pixels.{read_jpeg_file-decompress_jpeg_from_mem}
use c_practice.Jpeg.Laws.{LibjpegLaws, AllLength, join}
use c_practice.Jpeg.Recompress.{settings_for, decompress_jpeg_from_mem-compress_jpeg_to_mem}

record Writer : Type 0 where
  settings : Settings
  rows : List Text

record Reader : Type 0 where
  width : ℕ
  height : ℕ
  components : ℕ
  color_space : ℕ
  line : ℕ
  left : List Text

-- `n` bytes, with zeros behind the text where it is too short.
abbrev fit : ℕ → Text → Text
fit n s = take n (s ++ replicate n 0)

length-fit : (n : ℕ) (s : Text) → length (fit n s) ≡ n
length-fit n s =
    length-take n (s ++ replicate n 0)
    ∙ ap (min n) (length-append s (replicate n 0) ∙ ap (λ k. length s + k) (length-replicate n 0))
    ∙ omega arith

abbrev fit_rows : (height n : ℕ) → Text → List Text
fit_rows zero n s = []
fit_rows (suc height) n s = fit n s ∷ fit_rows height n (drop n s)

fit_rows-AllLength : (height n : ℕ) (s : Text) → AllLength n (fit_rows height n s)
fit_rows-AllLength zero n s = tt
fit_rows-AllLength (suc height) n s = (length-fit n s, fit_rows-AllLength height n (drop n s))

length-fit_rows : (height n : ℕ) (s : Text) → length (fit_rows height n s) ≡ height
length-fit_rows zero n s = refl
length-fit_rows (suc height) n s = ap suc (length-fit_rows height n (drop n s))

abbrev stored_start : Settings → Option Writer
stored_start s =
    if (s.in_color_space == jcs_rgb) && not (s.input_components == 3)
    then none
    else some (record { settings = s; rows = [] })

abbrev stored_open : Text → Option Reader
stored_open (w ∷ h ∷ n ∷ space ∷ pixels) = some (record {
  width = w;
  height = h;
  components = n;
  color_space = space;
  line = 0;
  left = fit_rows h (w * n) pixels;
})
stored_open s = none

abbrev next_of : List Text → Text × List Text
next_of [] = ([], [])
next_of (row ∷ rows) = (row, rows)

abbrev stored : Libjpeg Writer Reader
stored = record {
  start_compress = stored_start;
  next_scanline = λ c. length c.rows;
  num_components_of = λ c. c.settings.input_components;
  write_scanlines = λ row c. record c { rows = c.rows ++ (row ∷ []) };
  finish_compress = λ c.
      c.settings.image_width
      ∷ c.settings.image_height
      ∷ c.settings.input_components
      ∷ c.settings.in_color_space
      ∷ join c.rows;
  start_decompress = stored_open;
  output_scanline = λ d. d.line;
  output_width = λ d. d.width;
  output_height = λ d. d.height;
  output_components = λ d. d.components;
  image_width_of = λ d. d.width;
  num_components = λ d. d.components;
  jpeg_color_space = λ d. d.color_space;
  read_scanlines =
      λ d. ((next_of d.left).0, record d { line = suc d.line; left = (next_of d.left).1 });
}

Started : Settings → Option Writer → Type 0
Started s none = Unit
Started s (some c) =
    (c.settings ≡ s)
    × (c.rows ≡ [])
    × (s.in_color_space ≡ jcs_rgb → (s.input_components ≡ 3) × (c.settings.input_components ≡ 3))

stored_start-Started : (s : Settings) → Started s (stored_start s)
unfolding Started
stored_start-Started s = elim (Bool-cases (s.in_color_space == jcs_rgb)) [
  | inl space ↦ elim (Bool-cases (s.input_components == 3)) [
    | inl three ↦ rw space (rw three (refl, refl, λ e. (ground arith, ground arith)))
    | inr other ↦ rw space (rw other tt)
  ]
  | inr space ↦ rw space (refl, refl, λ e. absurd (ground arith))
]

Opened : Option Reader → Type 0
Opened none = Unit
Opened (some d) =
    (d.line ≡ 0)
    × (d.width ≡ d.width)
    × (length d.left ≡ d.height)
    × AllLength (d.width * d.components) d.left

stored_open-Opened : (src : Text) → Opened (stored_open src)
unfolding Opened
stored_open-Opened [] = tt
stored_open-Opened (w ∷ []) = tt
stored_open-Opened (w ∷ h ∷ []) = tt
stored_open-Opened (w ∷ h ∷ n ∷ []) = tt
stored_open-Opened (w ∷ h ∷ n ∷ space ∷ pixels) =
    (refl, refl, length-fit_rows h (w * n) pixels, fit_rows-AllLength h (w * n) pixels)

stored_laws : LibjpegLaws stored
unfolding Started Opened
stored_laws = record {
  settings = λ c. c.settings;
  written = λ c. c.rows;
  remaining = λ d. d.left;
  degrade = λ s rows. fit_rows s.image_height (s.image_width * s.input_components) (join rows);
  started = λ s c e. let at = subst (Started s) e (stored_start-Started s) in (at.0, at.1);
  compress_line = λ c. refl;
  wrote = λ row c more. (refl, refl, refl);
  rgb = λ s c e space. (subst (Started s) e (stored_start-Started s)).2 space;
  finished = λ c all. (_, refl, refl, refl, refl, refl);
  opened = λ src d e. subst Opened e (stored_open-Opened src);
  full_color = λ src d e. refl;
  read = λ d row rows e. (ap (λ l. (next_of l).0) e, ap (λ l. (next_of l).1) e, refl, refl);
}

-- An image of 2 by 2 pixels in RGB.
abbrev pixels : Text
pixels = 1 ∷ 2 ∷ 3 ∷ 4 ∷ 5 ∷ 6 ∷ 7 ∷ 8 ∷ 9 ∷ 10 ∷ 11 ∷ 12 ∷ []

abbrev pixels_file : Text
pixels_file = 2 ∷ 2 ∷ 3 ∷ 3 ∷ pixels

-- The image, opened.
abbrev pixels_reader : Reader
pixels_reader = record {
  width = 2;
  height = 2;
  components = 3;
  color_space = 3;
  line = 0;
  left = fit_rows 2 6 pixels;
}

decompress_jpeg_from_mem-compress_jpeg_to_mem_example :
    (jpeg : Text) × (image : Image) × (compress_jpeg_to_mem stored pixels 2 2 3 2 90 ≡ done jpeg)
    × (decompress_jpeg_from_mem stored jpeg ≡ done image)
    × (image.width ≡ 2)
    × (image.height ≡ 2)
    × (image.components ≡ 3)
    × (image.dst ≡ pixels)
unfolding stored_laws
decompress_jpeg_from_mem-compress_jpeg_to_mem_example =
    decompress_jpeg_from_mem-compress_jpeg_to_mem stored stored_laws pixels 2 2 3 2 90
      (record { settings = settings_for 2 2 3 2 90; rows = [] }) refl refl
      (ground arith, ground arith, ground arith) (ground arith)

read_jpeg_file-decompress_jpeg_from_mem_example :
    (image : Image) × (decompress_jpeg_from_mem stored pixels_file ≡ done image)
    × (has_byte 0 image.dst ≡ true
        → read_jpeg_file stored (some pixels_file) ≡ done (some image.dst))
    × (has_byte 0 image.dst ≡ false → read_jpeg_file stored (some pixels_file) ≡ undefined)
unfolding stored_laws
read_jpeg_file-decompress_jpeg_from_mem_example =
    read_jpeg_file-decompress_jpeg_from_mem stored stored_laws pixels_file pixels_reader refl
      (ground arith, ground arith, ground arith) (ground arith)

-- The image has no byte 0; the one of one pixel has.
reads_no_zero : read_jpeg_file stored (some pixels_file) ≡ undefined
unfolding read_jpeg_file read_forward overwrite
reads_no_zero = refl

reads_zero :
    read_jpeg_file stored (some (1 ∷ 1 ∷ 3 ∷ 3 ∷ 9 ∷ 0 ∷ 9 ∷ [])) ≡ done (some (9 ∷ 0 ∷ 9 ∷ []))
unfolding read_jpeg_file read_forward overwrite
reads_zero = refl
