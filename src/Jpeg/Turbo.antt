-- ===== src/Jpeg/Turbo.antt =====
-- jpeg/main.cpp: images compressed to JPEG and decompressed with TurboJPEG.
--
-- TurboJPEG is not part of the repository: it is the record `TurboJpeg`, with `none` where a call
-- fails, and Jpeg.Turbo.Laws states what is relied on. No return value of it is looked at in the
-- program. What was never set is `undefined` where it is read, as is what lies outside a buffer; of an
-- `int`, see Jpeg. Allocation does not fail.
pub mod Laws
pub mod Again
mod Tests
use c_practice.Base.{
  ℕ, ◌+◌, ◌*◌, Bool, true, false, Option, none, some, [], if◌then◌else◌, length, replicate,
}
use c_practice.Base.Text.{Text}
use c_practice.Base.Buffer.{slice, overwrite}
use c_practice.Jpeg.{Outcome, done, exits, undefined, ◌>>=◌, or_undefined, int}

-- What `tjDecompressHeader3` stores.
pub record Header : Type 0 where
  pub width : ℕ
  pub height : ℕ
  pub subsamp : ℕ
  pub colorspace : ℕ

-- The pixels lie in rows without a gap (a pitch of 0).
pub record TurboJpeg : Type 0 where
  pub tjpf_gray : ℕ
  pub tjsamp_gray : ℕ
  pub tjflag_fastdct : ℕ
  pub tjflag_accuratedct : ℕ
  pub tj_pixel_size : ℕ → ℕ
  pub decompress_header : Text → Option Header
  pub decompress : Text → (width height pixel_format flags : ℕ) → Option Text
  pub compress : Text → (width height pixel_format subsamp quality flags : ℕ) → Option Text

pub record Image : Type 0 where
  pub dst : Text
  pub dst_len : ℕ
  pub width : ℕ
  pub height : ℕ
  pub components : ℕ

-- What `fwrite` stores of a buffer that `tjCompress2` made, or left at `NULL` and 0.
abbrev stored_of : Option Text → Text
stored_of none = []
stored_of (some buffer) = buffer

-- What a decompression writes to a new buffer; the buffer holds what was in the memory: here, zeros.
abbrev written_to : Text → Option Text → Option Text
written_to buffer none = some buffer
written_to buffer (some pixels) = overwrite buffer 0 pixels

module _ (tj : TurboJpeg) where
  -- The contents of the file, if it can be opened.
  unfoldable pub save_buffer_to_file : (opens : Bool) → Option Text → Outcome Text
  save_buffer_to_file opens buffer = if opens then done (stored_of buffer) else exits

  -- `none` is a `dst` that is still `NULL`.
  unfoldable pub tj_compress_jpeg_to_mem :
      Text → (width height pixel_format subsamp quality flags : ℕ) → Outcome (Option Text)
  tj_compress_jpeg_to_mem src width height pixel_format subsamp quality flags = do
    image ← or_undefined (slice src 0 (height * (width * tj.tj_pixel_size pixel_format)))
    done (tj.compress image width height pixel_format subsamp quality flags)

  unfoldable pub tj_compress_gray_jpeg_to_file :
      Text → (width height quality : ℕ) → (opens : Bool) → Outcome Text
  tj_compress_gray_jpeg_to_file src width height quality opens = do
    dst ←
        tj_compress_jpeg_to_mem src width height tj.tjpf_gray tj.tjsamp_gray quality
          tj.tjflag_fastdct
    save_buffer_to_file opens dst

  -- `int * int * int`, in that order.
  unfoldable pub tj_decompress_jpeg_from_mem : Text → (tj_pixel_format flags : ℕ) → Outcome Image
  tj_decompress_jpeg_from_mem src tj_pixel_format flags = do
    h ← or_undefined (tj.decompress_header src)
    let components : ℕ = tj.tj_pixel_size tj_pixel_format
    area ← int (h.width * h.height)
    dst_len ← int (area * components)
    dst ← or_undefined (
        written_to (replicate dst_len 0) (tj.decompress src h.width h.height tj_pixel_format flags))
    done (record {
      dst = dst;
      dst_len = dst_len;
      width = h.width;
      height = h.height;
      components = components;
    })

  -- `none` is the return with nothing stored: `tellg` gives -1 for a file that cannot be opened.
  -- The length of the file is an `int`.
  unfoldable pub tj_decompress_gray_jpeg_from_file : Option Text → Outcome (Option Image)
  tj_decompress_gray_jpeg_from_file none = done none
  tj_decompress_gray_jpeg_from_file (some src) = do
    len ← int (length src)
    image ← tj_decompress_jpeg_from_mem src tj.tjpf_gray tj.tjflag_accuratedct
    done (some image)

  -- The sizes are printed and used whether or not they were stored.
  unfoldable pub test_decompress : Option Text → (opens : Bool) → Outcome Text
  test_decompress src_file opens = do
    found ← tj_decompress_gray_jpeg_from_file src_file
    image ← or_undefined found
    tj_compress_gray_jpeg_to_file image.dst image.width image.height 100 opens
