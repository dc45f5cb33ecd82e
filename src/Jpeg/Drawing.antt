-- ===== src/Jpeg/Drawing.antt =====
-- jpeg2/main.cpp, `test_compress_to_file`, `test_compress_to_mem` and `test_decompress_from_mem`: a
-- picture of a white bar, compressed, and a file in memory.
pub mod Bars
mod Files
use c_practice.Base.{
  ℕ, zero, suc, ◌+◌, ◌*◌, Bool, Option, none, some, [], ◌∷◌, replicate, if◌then◌else◌,
}
use c_practice.Base.Text.{Text}
use c_practice.Base.Buffer.{overwrite}
use c_practice.Jpeg.{
  Libjpeg, Outcome, done, exits, ◌>>=◌, or_undefined, compress_jpeg_to_mem, compress_jpeg_to_file,
  decompress_jpeg_from_mem,
}

abbrev pub jcs_grayscale : ℕ
jcs_grayscale = 1

-- `for (int j = 0; j < width; j++)`, with `left` columns to go.
unfoldable pub draw_row : (width i j left : ℕ) → Text → Outcome Text
draw_row width i j zero image = done image
draw_row width i j (suc left) image =
    or_undefined (overwrite image (width * i + j) (255 ∷ [])) >>= λ image'.
    draw_row width i (j + 1) left image'

-- `for (int i = 100; i < 300; i++)`, with `left` rows to go.
unfoldable pub draw_rows : (width i left : ℕ) → Text → Outcome Text
draw_rows width i zero image = done image
draw_rows width i (suc left) image =
    draw_row width i 0 width image >>= λ image'. draw_rows width (i + 1) left image'

-- The picture of 2000 by 1000 grey pixels.
unfoldable pub raw_image : (width height channel : ℕ) → Outcome Text
raw_image width height channel = draw_rows width 100 200 (replicate (width * height * channel) 0)

module _ {C D : Type 0} (lib : Libjpeg C D) where
  unfoldable pub test_compress_to_file : (opens : Bool) → Outcome Text
  test_compress_to_file opens = do
    image ← raw_image 2000 1000 1
    compress_jpeg_to_file lib image 2000 1000 1 jcs_grayscale 90 opens

  -- What is written to the file, if it can be opened.
  unfoldable pub test_compress_to_mem : (opens : Bool) → Outcome Text
  test_compress_to_mem opens = do
    image ← raw_image 2000 1000 1
    out_buffer ← compress_jpeg_to_mem lib image 2000 1000 1 jcs_grayscale 90
    if opens then done out_buffer else exits

  -- For a file that cannot be opened `new` is asked for 2 ^ 64 - 1 bytes, and throws.
  unfoldable pub test_decompress_from_mem : Option Text → (opens : Bool) → Outcome Text
  test_decompress_from_mem none opens = exits
  test_decompress_from_mem (some src) opens = do
    image ← decompress_jpeg_from_mem lib src
    compress_jpeg_to_file lib image.dst image.width image.height image.components jcs_grayscale 90
        opens
