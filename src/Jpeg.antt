-- ===== src/Jpeg.antt =====
-- jpeg2/main.cpp: images compressed to JPEG and decompressed row by row with libjpeg.
--
-- libjpeg is not part of the repository: it is the record `Libjpeg`, and Jpeg.Laws states what is
-- relied on. `none` where it starts a job stands for its error handler, which ends the program. A
-- row that lies outside a buffer, and a product above `int_max` in an `int`, are `undefined`. The
-- loops over the scan lines run on fuel. Allocation does not fail.
pub mod Laws
pub mod Rows
pub mod Recompress
pub mod Plain
pub mod Drawing
pub mod Reading
pub mod Turbo
mod Tests
use c_practice.Base.{
  ℕ, zero, suc, ◌+◌, ◌*◌, ◌%◌, ◌^◌, Bool, true, false, Option, none, some, List, [], ◌∷◌, ltb,
  if◌then◌else◌, replicate,
}
use c_practice.Base.Text.{Text}
use c_practice.Base.Buffer.{slice, overwrite}

pub record Settings : Type 0 where
  pub image_width : ℕ
  pub image_height : ℕ
  pub input_components : ℕ
  pub in_color_space : ℕ
  pub quality : ℕ
  -- Whether the image is to be in YCbCr, with a sampling of 2 by 2 for the first component.
  pub sampled_2x2 : Bool

-- `C` is a `jpeg_compress_struct` that was started, `D` a `jpeg_decompress_struct`. One row passes
-- through `jpeg_write_scanlines` and `jpeg_read_scanlines`.
pub record Libjpeg (C D : Type 0) : Type 0 where
  pub start_compress : Settings → Option C
  pub next_scanline : C → ℕ
  pub num_components_of : C → ℕ
  pub write_scanlines : Text → C → C
  pub finish_compress : C → Text
  pub start_decompress : Text → Option D
  pub output_scanline : D → ℕ
  pub output_width : D → ℕ
  pub output_height : D → ℕ
  pub output_components : D → ℕ
  pub image_width_of : D → ℕ
  pub num_components : D → ℕ
  pub jpeg_color_space : D → ℕ
  pub read_scanlines : D → Text × D

pub data Outcome (A : Type 0) : Type 0 where
  done : A → Outcome A
  exits : Outcome A
  undefined : Outcome A
  out_of_fuel : Outcome A

infixl 5 ◌>>=◌
abbrev pub ◌>>=◌ : {A B : Type 0} → Outcome A → (A → Outcome B) → Outcome B
done a >>= k = k a
exits >>= k = exits
undefined >>= k = undefined
out_of_fuel >>= k = out_of_fuel

abbrev pub or_exits : {A : Type 0} → Option A → Outcome A
or_exits none = exits
or_exits (some a) = done a

abbrev pub or_undefined : {A : Type 0} → Option A → Outcome A
or_undefined none = undefined
or_undefined (some a) = done a

abbrev pub int_max : ℕ
int_max = 2147483647

-- A product of type `int`.
abbrev pub int : ℕ → Outcome ℕ
int n = if ltb int_max n then undefined else done n

-- A product that has an unsigned factor of 32 bits.
abbrev pub unsigned : ℕ → ℕ
unsigned n = n % 4294967296

abbrev pub jcs_rgb : ℕ
jcs_rgb = 2

-- What a decompression hands out.
pub record Image : Type 0 where
  pub dst : Text
  pub dst_len : ℕ
  pub width : ℕ
  pub height : ℕ
  pub components : ℕ
  pub color_space : ℕ

module _ {C D : Type 0} (lib : Libjpeg C D) where
  -- `while (cinfo.next_scanline < cinfo.image_height)`; libjpeg reads `row_bytes` from the pointer.
  unfoldable pub write_rows : ℕ → (height row_bytes row_stride : ℕ) → Text → C → Outcome C
  write_rows zero height row_bytes row_stride src c = out_of_fuel
  write_rows (suc fuel) height row_bytes row_stride src c =
      elim (ltb (lib.next_scanline c) height) [
        | false ↦ done c
        | true ↦
            or_undefined (slice src (unsigned (lib.next_scanline c * row_stride)) row_bytes)
            >>= λ row. write_rows fuel height row_bytes row_stride src (lib.write_scanlines row c)
      ]

  -- A started job, run to its end.
  unfoldable pub compress_rows : Settings → (row_stride : ℕ) → Text → C → Outcome Text
  compress_rows s row_stride src c = do
    ended ←
        write_rows (s.image_height + 1) s.image_height (s.image_width * s.input_components)
          row_stride src c
    done (lib.finish_compress ended)

  unfoldable pub compress_jpeg_to_mem :
      Text → (width height components color_space quality : ℕ) → Outcome Text
  compress_jpeg_to_mem src width height components color_space quality = do
    let s : Settings = record {
      image_width = width;
      image_height = height;
      input_components = components;
      in_color_space = color_space;
      quality = quality;
      sampled_2x2 = false;
    }
    c ← or_exits (lib.start_compress s)
    compress_rows s (unsigned (width * components)) src c

  -- The bytes of the file, if it can be opened.
  unfoldable pub compress_jpeg_to_file :
      Text → (width height components color_space quality : ℕ) → (opens : Bool) → Outcome Text
  compress_jpeg_to_file src width height components color_space quality opens =
      if opens then compress_jpeg_to_mem src width height components color_space quality else exits

  -- `CompressJPEG`: the stride goes by the components of the JPEG image.
  unfoldable pub compress_rgb : Text → (width height depth : ℕ) → Outcome Text
  compress_rgb src width height depth = do
    let s : Settings = record {
      image_width = width;
      image_height = height;
      input_components = depth;
      in_color_space = jcs_rgb;
      quality = 80;
      sampled_2x2 = true;
    }
    c ← or_exits (lib.start_compress s)
    compress_rows s (unsigned (width * lib.num_components_of c)) src c

  -- `while (cinfo.output_scanline < cinfo.output_height)`
  unfoldable pub read_rows : ℕ → (row_stride : ℕ) → Text → D → Outcome Text
  read_rows zero row_stride dst d = out_of_fuel
  read_rows (suc fuel) row_stride dst d = elim (ltb (lib.output_scanline d) (lib.output_height d)) [
    | false ↦ done dst
    | true ↦
        or_undefined
          (overwrite dst (unsigned (lib.output_scanline d * row_stride)) (lib.read_scanlines d).0)
        >>= λ dst'. read_rows fuel row_stride dst' (lib.read_scanlines d).1
  ]

  -- The new buffer holds what was in the memory: here, zeros.
  unfoldable pub decompress_rows : (row_stride : ℕ) → D → Outcome Image
  decompress_rows row_stride d = do
    area ← int (lib.output_width d * lib.output_height d)
    len ← int (area * lib.num_components d)
    dst ← read_rows (lib.output_height d + 1) row_stride (replicate len 0) d
    done (record {
      dst = dst;
      dst_len = len;
      width = lib.output_width d;
      height = lib.output_height d;
      components = lib.num_components d;
      color_space = lib.jpeg_color_space d;
    })

  unfoldable pub decompress_jpeg_from_mem : Text → Outcome Image
  decompress_jpeg_from_mem src = do
    d ← or_exits (lib.start_decompress src)
    decompress_rows (unsigned (lib.output_width d * lib.num_components d)) d

  -- `none` is the return value 0: the file cannot be opened.
  unfoldable pub decompress_jpeg_from_file : Option Text → Outcome (Option Image)
  decompress_jpeg_from_file none = done none
  decompress_jpeg_from_file (some file) = do
    image ← decompress_jpeg_from_mem file
    done (some image)

  -- `DeompressJPEG`, which stores no colour space: the stride goes by the width of the JPEG image.
  unfoldable pub decompress_plain : Text → Outcome Image
  decompress_plain src = do
    d ← or_exits (lib.start_decompress src)
    image ← decompress_rows (unsigned (lib.image_width_of d * lib.num_components d)) d
    done (record image { color_space = 0 })

  -- `test_decompress_from_file`: the return value of the decompression is not looked at, so a file
  -- that cannot be opened leaves the sizes undefined.
  unfoldable pub recompress : Option Text → (opens : Bool) → Outcome Text
  recompress file opens = do
    found ← decompress_jpeg_from_file file
    image ← or_undefined found
    compress_jpeg_to_file image.dst image.width image.height image.components image.color_space 100
        opens
