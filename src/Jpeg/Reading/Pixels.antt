-- ===== src/Jpeg/Reading/Pixels.antt =====
-- `read_jpeg_file` reads what `decompress_jpeg_from_mem` reads.
use c_practice.Base.{
  ℕ, zero, suc, ◌+◌, ◌*◌, ◌≤◌, ◌<◌, ◌≡◌, refl, ap, ◌∙◌, true, false, some, List, [], ◌∷◌, arith,
  ltb, Option-cases, inl, inr, length, replicate,
}
use c_practice.Base.Text.{Text, has_byte}
use c_practice.Base.Buffer.{overwrite}
use c_practice.Base.Zero.{find_zero_found, find_zero_missing, find_zero}
use c_practice.Jpeg.{
  Libjpeg, Image, done, undefined, int_max, unsigned, ◌>>=◌, or_undefined, read_rows,
  decompress_jpeg_from_mem,
}
use c_practice.Jpeg.Laws.{LibjpegLaws, join}
use c_practice.Jpeg.Recompress.{Fits, decompress_jpeg_from_mem-rows, image_of, area_comm}
use c_practice.Jpeg.Rows.{read_rows_all}
use c_practice.Jpeg.Reading.{read_forward, read_jpeg_file}

module _ {C D : Type 0} (lib : Libjpeg C D) (laws : LibjpegLaws lib) where
  -- The pointer stands where the index of the line says.
  read_forward-read_rows :
      (fuel i n height : ℕ) (rows : List Text) (dst : Text) (d : D)
      → laws.remaining d ≡ rows
      → lib.output_scanline d ≡ i
      → lib.output_height d ≡ height
      → height ≡ i + length rows
      → height * n < 4294967296
      → read_forward lib fuel (i * n) n dst d ≡ read_rows lib fuel n dst d
  unfolding read_forward read_rows
  read_forward-read_rows zero i n height rows dst d left at h total short = refl
  read_forward-read_rows (suc fuel) i n height [] dst d left at h total short =
      let ended : ltb (lib.output_scanline d) (lib.output_height d) ≡ false = ground arith in
      rw (ended, read_forward, read_rows) refl
  read_forward-read_rows (suc fuel) i n height (row ∷ rows) dst d left at h total short =
      let more : ltb (lib.output_scanline d) (lib.output_height d) ≡ true = ground arith in
      let step = laws.read d row rows left in
      let small : i * n < 4294967296 =
        (let s : (i + suc (length rows)) * n < 4294967296 = rw total at short in omega arith) in
      let off : unsigned (lib.output_scanline d * n) ≡ i * n =
        ap (λ k. unsigned (k * n)) at ∙ (let x : unsigned (i * n) ≡ i * n = omega arith in x) in
      let next : i * n + n ≡ suc i * n = omega arith in
      rw (more, read_forward, read_rows)
        (rw off (elim (Option-cases (overwrite dst (i * n) (lib.read_scanlines d).0)) [
          | inl outside ↦ rw outside refl
          | inr (dst', put) ↦
              rw (put, next)
                (read_forward-read_rows fuel (suc i) n height rows dst' (lib.read_scanlines d).1
                  step.1 (step.2 ∙ ap suc at) (step.3 ∙ h) (omega arith) short)
        ]))

  -- What is in the buffer when it is printed.
  read_jpeg_file-printed :
      (file : Text) (d : D)
      → lib.start_decompress file ≡ some d
      → lib.output_width d * lib.num_components d ≤ int_max
      → lib.output_height d * (lib.output_width d * lib.num_components d) < 4294967296
      → read_jpeg_file lib (some file) ≡ (
          or_undefined (find_zero (join (laws.remaining d))) >>= λ printed.
          done (some (join (laws.remaining d))))
  unfolding read_jpeg_file
  read_jpeg_file-printed file d opens row all =
      let n = lib.output_width d * lib.num_components d in
      let h = lib.output_height d in
      let components : lib.output_width d * lib.output_components d ≡ n =
        ap (λ k. lib.output_width d * k) (laws.full_color file d opens) in
      let row_ok : ltb int_max n ≡ false = ground arith in
      let (at, scale, tall, wide) = laws.opened file d opens in
      let size : unsigned (n * h) ≡ h * n = omega arith in
      let start : 0 ≡ 0 * n = omega arith in
      rw (opens, components, row_ok, size)
        (ap
          (λ o. o >>= λ output_buffer.
            or_undefined (find_zero output_buffer) >>= λ printed. done (some output_buffer))
          (ap (λ p. read_forward lib (h + 1) p n (replicate (h * n) 0) d) start
            ∙ read_forward-read_rows (h + 1) 0 n h (laws.remaining d) (replicate (h * n) 0) d refl
                at refl (omega arith) all
            ∙ read_rows_all lib laws file d (h * n) opens refl all))

  -- For an image that libjpeg opens and sizes whose products do not overflow, read_jpeg_file hands
  -- out the bytes that decompress_jpeg_from_mem hands out for the same file, if one of them is 0;
  -- if none is, it is undefined.
  pub read_jpeg_file-decompress_jpeg_from_mem :
      (file : Text) (d : D)
      → lib.start_decompress file ≡ some d
      → Fits (lib.output_width d) (lib.output_height d) (lib.num_components d)
      → lib.output_width d * lib.num_components d ≤ int_max
      → (image : Image) × (decompress_jpeg_from_mem lib file ≡ done image)
        × (has_byte 0 image.dst ≡ true → read_jpeg_file lib (some file) ≡ done (some image.dst))
        × (has_byte 0 image.dst ≡ false → read_jpeg_file lib (some file) ≡ undefined)
  read_jpeg_file-decompress_jpeg_from_mem file d opens fits row =
      let all : lib.output_height d * (lib.output_width d * lib.num_components d) < 4294967296 =
        let same = area_comm (lib.output_width d) (lib.output_height d) (lib.num_components d) in
        let small = fits.2 in omega arith in
      let printed = read_jpeg_file-printed file d opens row all in
      (
        image_of lib laws d,
        decompress_jpeg_from_mem-rows lib laws file d opens fits,
        λ has.
            let (n, found) = find_zero_found (join (laws.remaining d)) has in
            printed ∙ rw found refl,
        λ clear. printed ∙ rw (find_zero_missing (join (laws.remaining d)) clear) refl,
      )
