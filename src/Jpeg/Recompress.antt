-- ===== src/Jpeg/Recompress.antt =====
-- Whole images: the rows that a compression hands over, the pixels that a decompression hands out,
-- and the two after one another.
use c_practice.Base.{
  ℕ, suc, ◌+◌, ◌*◌, ◌≤◌, ◌<◌, ◌≡◌, refl, sym, ap, ◌∙◌, true, false, some, List, [], ◌∷◌, ◌++◌,
  arith, ltb, Bool-cases, inl, inr, length, take, drop, replicate,
}
use c_practice.Base.Buffer.{take-append, drop-append}
use c_practice.Base.Text.{Text}
use c_practice.Jpeg.{
  Settings, Libjpeg, Image, done, undefined, int_max, unsigned, compress_rows, write_rows,
  read_rows, compress_jpeg_to_mem, compress_jpeg_to_file, decompress_rows, decompress_jpeg_from_mem,
  decompress_jpeg_from_file, recompress, ◌>>=◌,
}
use c_practice.Jpeg.Laws.{LibjpegLaws, AllLength, rows_of, join}
use c_practice.Jpeg.Rows.{
  length-rows_of, length-join, write_all, written-write_all, settings-write_all, write_rows_lem,
  read_rows_all,
}

rows_of-join :
    (n : ℕ) (rows : List Text) → AllLength n rows → rows_of (length rows) n (join rows) ≡ rows
rows_of-join n [] all = refl
rows_of-join n (row ∷ rows) all =
    ap (λ k. take k (row ++ join rows) ∷ rows_of (length rows) n (drop k (row ++ join rows)))
      (sym all.0)
    ∙ ap (λ r. r ∷ rows_of (length rows) n (drop (length row) (row ++ join rows)))
        (take-append row (join rows))
    ∙ ap (λ r. row ∷ rows_of (length rows) n r) (drop-append row (join rows))
    ∙ ap (◌∷◌ row) (rows_of-join n rows all.1)

pub area_comm : (w h n : ℕ) → w * h * n ≡ h * (w * n)
area_comm w h n = omega arith

-- The sizes for which no product of the code overflows.
abbrev pub Fits : (width height components : ℕ) → Type 0
Fits width height components =
    (width * components < 4294967296)
    × (width * height ≤ int_max)
    × (width * height * components ≤ int_max)

abbrev pub settings_for : (width height components color_space quality : ℕ) → Settings
settings_for width height components color_space quality = record {
  image_width = width;
  image_height = height;
  input_components = components;
  in_color_space = color_space;
  quality = quality;
  sampled_2x2 = false;
}

module _ {C D : Type 0} (lib : Libjpeg C D) (laws : LibjpegLaws lib) where
  pub compress_rows_lem :
      (s : Settings) (stride : ℕ) (src : Text) (c : C)
      → lib.start_compress s ≡ some c
      → stride ≡ s.image_width * s.input_components
      → s.image_height * (s.image_width * s.input_components) ≤ length src
      → s.image_height * (s.image_width * s.input_components) < 4294967296
      → compress_rows lib s stride src c
        ≡ done (
            lib.finish_compress (
              write_all lib laws
                (rows_of s.image_height (s.image_width * s.input_components) src)
                c))
  unfolding compress_rows
  compress_rows_lem s stride src c start width le short =
      let n = s.image_width * s.input_components in
      let h = s.image_height in
      let fresh : lib.next_scanline c ≡ 0 =
        laws.compress_line c ∙ ap length (laws.started s c start).1 in
      let enough : h + 1 ≡ suc h = omega arith in
      ap (λ o. o >>= λ ended. done (lib.finish_compress ended))
        (ap (λ m. write_rows lib (h + 1) h n m src c) width
          ∙ ap (λ f. write_rows lib f h n n src c) enough
          ∙ write_rows_lem lib laws h 0 n h [] src c fresh (omega arith)
              (ap (λ t. t.image_height) (laws.started s c start).0) (omega arith) le short)

  compress_jpeg_to_mem-rows :
      (src : Text) (width height components color_space quality : ℕ) (c : C)
      → lib.start_compress (settings_for width height components color_space quality) ≡ some c
      → width * components < 4294967296
      → height * (width * components) < 4294967296
      → height * (width * components) ≤ length src
      → compress_jpeg_to_mem lib src width height components color_space quality
        ≡ done
            (lib.finish_compress (write_all lib laws (rows_of height (width * components) src) c))
  unfolding compress_jpeg_to_mem
  compress_jpeg_to_mem-rows src width height components color_space quality c start row short le =
      let stride : unsigned (width * components) ≡ width * components = omega arith in
      rw start (
        compress_rows_lem (settings_for width height components color_space quality)
          (unsigned (width * components)) src c start stride le short)

  -- What a decompression hands out for an image that was opened as `d`.
  abbrev pub image_with : D → Text → Image
  image_with d dst = record {
    dst = dst;
    dst_len = lib.output_width d * lib.output_height d * lib.num_components d;
    width = lib.output_width d;
    height = lib.output_height d;
    components = lib.num_components d;
    color_space = lib.jpeg_color_space d;
  }

  abbrev pub image_of : D → Image
  image_of d = image_with d (join (laws.remaining d))

  pub decompress_jpeg_from_mem-rows :
      (src : Text) (d : D)
      → lib.start_decompress src ≡ some d
      → Fits (lib.output_width d) (lib.output_height d) (lib.num_components d)
      → decompress_jpeg_from_mem lib src ≡ done (image_of d)
  unfolding decompress_jpeg_from_mem decompress_rows
  decompress_jpeg_from_mem-rows src d start fits =
      let (row, area, all) = fits in
      let same = area_comm (lib.output_width d) (lib.output_height d) (lib.num_components d) in
      let area_ok : ltb int_max (lib.output_width d * lib.output_height d) ≡ false = ground arith in
      let all_ok : ltb int_max (lib.output_width d * lib.output_height d * lib.num_components d)
          ≡ false =
        ground arith in
      let n = lib.output_width d * lib.num_components d in
      let h = lib.output_height d in
      let len = lib.output_width d * lib.output_height d * lib.num_components d in
      let stride : unsigned n ≡ n = omega arith in
      rw start (
        rw area_ok (
          rw all_ok (
            ap (λ o. o >>= λ dst. done (image_with d dst))
              (ap (λ m. read_rows lib (h + 1) m (replicate len 0) d) stride
                ∙ read_rows_all lib laws src d len start same (omega arith)))))

  -- If the width, the height and the components of an image that libjpeg opens multiply to more
  -- than an int holds, decompress_jpeg_from_mem is undefined.
  pub decompress_jpeg_from_mem-overflow :
      (src : Text) (d : D)
      → lib.start_decompress src ≡ some d
      → int_max < lib.output_width d * lib.output_height d * lib.num_components d
      → decompress_jpeg_from_mem lib src ≡ undefined
  unfolding decompress_jpeg_from_mem decompress_rows
  decompress_jpeg_from_mem-overflow src d start over =
      let all_out : ltb int_max (lib.output_width d * lib.output_height d * lib.num_components d)
          ≡ true =
        ground arith in
      elim (Bool-cases (ltb int_max (lib.output_width d * lib.output_height d))) [
        | inl area_out ↦ rw start (rw area_out refl)
        | inr area_in ↦ rw start (rw area_in (rw all_out refl))
      ]

  -- For settings that libjpeg accepts and for which the JPEG image has the components that are
  -- given, sizes whose products do not overflow and a buffer that holds the image,
  -- compress_jpeg_to_mem ends with a JPEG image that decompress_jpeg_from_mem reads back: with the
  -- width, the height and the components that were given, and with the pixels of the rows of the
  -- buffer, in order, but for what the compression loses.
  pub decompress_jpeg_from_mem-compress_jpeg_to_mem :
      (src : Text) (width height components color_space quality : ℕ) (c : C)
      → lib.start_compress (settings_for width height components color_space quality) ≡ some c
      → lib.num_components_of c ≡ components
      → Fits width height components
      → height * (width * components) ≤ length src
      → (jpeg : Text) × (image : Image) × (compress_jpeg_to_mem lib src width height components
            color_space quality
          ≡ done jpeg)
        × (decompress_jpeg_from_mem lib jpeg ≡ done image)
        × (image.width ≡ width)
        × (image.height ≡ height)
        × (image.components ≡ components)
        × (image.dst
            ≡ join (
                laws.degrade
                  (settings_for width height components color_space quality)
                  (rows_of height (width * components) src)))
  decompress_jpeg_from_mem-compress_jpeg_to_mem src width height components color_space quality c
        start same_components fits le =
      let s = settings_for width height components color_space quality in
      let rows = rows_of height (width * components) src in
      let ended = write_all lib laws rows c in
      let at = laws.started s c start in
      let tall = ap (λ t. t.image_height) at.0 in
      let none_yet = ap length at.1 in
      let room : length (laws.written c) + length rows ≤ (laws.settings c).image_height =
        let l = length-rows_of height (width * components) src in omega arith in
      let (kept, kept_components) = settings-write_all lib laws rows c room in
      let told : laws.settings ended ≡ s = kept ∙ at.0 in
      let given : laws.written ended ≡ rows =
        written-write_all lib laws rows c room ∙ ap (λ w. w ++ rows) at.1 in
      let (d, opens, w, h, n, rest) = laws.finished ended (
        ap length given
        ∙ length-rows_of height (width * components) src
        ∙ sym (ap (λ t. t.image_height) told)) in
      let w' : lib.output_width d ≡ width = w ∙ ap (λ t. t.image_width) told in
      let h' : lib.output_height d ≡ height = h ∙ ap (λ t. t.image_height) told in
      let n' : lib.num_components d ≡ components = n ∙ kept_components ∙ same_components in
      let short = area_comm width height components in
      (
        lib.finish_compress ended,
        image_of d,
        compress_jpeg_to_mem-rows src width height components color_space quality c start fits.0
            (omega arith) le,
        decompress_jpeg_from_mem-rows (lib.finish_compress ended) d opens
            (rw w' (rw h' (rw n' fits))),
        w',
        h',
        n',
        ap join
            (rest ∙ ap (λ t. laws.degrade t (laws.written ended)) told ∙ ap (laws.degrade s) given),
      )

  -- If libjpeg opens the file and its sizes do not overflow, and accepts the settings that
  -- test_decompress_from_file derives from it, then test_decompress_from_file with a target that
  -- opens ends, and hands the rows of the image that was read to the new job, one after another
  -- and no others.
  pub recompress-rows :
      (file : Text) (d : D) (c : C)
      → lib.start_decompress file ≡ some d
      → Fits (lib.output_width d) (lib.output_height d) (lib.num_components d)
      → lib.start_compress (
          settings_for
            (lib.output_width d)
            (lib.output_height d)
            (lib.num_components d)
            (lib.jpeg_color_space d)
            100)
        ≡ some c
      → recompress lib (some file) true
        ≡ done (lib.finish_compress (write_all lib laws (laws.remaining d) c))
  unfolding recompress decompress_jpeg_from_file compress_jpeg_to_file
  recompress-rows file d c opens fits start =
      let image = decompress_jpeg_from_mem-rows file d opens fits in
      let same = area_comm (lib.output_width d) (lib.output_height d) (lib.num_components d) in
      let n = lib.output_width d * lib.num_components d in
      let (at, scale, tall, wide) = laws.opened file d opens in
      let all_rows = laws.remaining d in
      let enough : length (join all_rows) ≡ lib.output_height d * n =
        length-join n all_rows wide ∙ ap (λ k. k * n) tall in
      rw image (
        compress_jpeg_to_mem-rows (join all_rows) (lib.output_width d) (lib.output_height d)
          (lib.num_components d) (lib.jpeg_color_space d) 100 c start fits.0 (omega arith)
          (omega arith)
        ∙ ap (λ rows. done (lib.finish_compress (write_all lib laws rows c)))
            (ap (λ k. rows_of k n (join all_rows)) (sym tall) ∙ rows_of-join n all_rows wide))
