-- ===== src/Jpeg/Reading.antt =====
-- jpeg2/main.cpp, `read_jpeg_file`: a file read row by row behind a pointer that moves along.
pub mod Pixels
use c_practice.Base.{ℕ, zero, suc, ◌+◌, ◌*◌, true, false, Option, none, some, ltb, replicate}
use c_practice.Base.Text.{Text}
use c_practice.Base.Buffer.{overwrite}
use c_practice.Base.Zero.{find_zero}
use c_practice.Jpeg.{
  Libjpeg, Outcome, done, out_of_fuel, ◌>>=◌, or_exits, or_undefined, int, unsigned,
}

module _ {C D : Type 0} (lib : Libjpeg C D) where
  -- `rowdata` is the offset of the pointer in the buffer.
  unfoldable pub read_forward : ℕ → (rowdata row_width : ℕ) → Text → D → Outcome Text
  read_forward zero rowdata row_width dst d = out_of_fuel
  read_forward (suc fuel) rowdata row_width dst d =
      elim (ltb (lib.output_scanline d) (lib.output_height d)) [
        | false ↦ done dst
        | true ↦ or_undefined (overwrite dst rowdata (lib.read_scanlines d).0) >>= λ dst'.
            read_forward fuel (rowdata + row_width) row_width dst' (lib.read_scanlines d).1
      ]

  -- `none` is the return value -1, for a file that cannot be opened. Else it is 0, and the buffer
  -- is handed out. `row_width` is an `int`. What is printed at the end is `strlen` of the buffer.
  unfoldable pub read_jpeg_file : Option Text → Outcome (Option Text)
  read_jpeg_file none = done none
  read_jpeg_file (some input_file) = do
    d ← or_exits (lib.start_decompress input_file)
    row_width ← int (lib.output_width d * lib.output_components d)
    output_buffer ←
        read_forward (lib.output_height d + 1) 0 row_width
          (replicate (unsigned (row_width * lib.output_height d)) 0) d
    printed ← or_undefined (find_zero output_buffer)
    done (some output_buffer)
