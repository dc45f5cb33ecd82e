-- ===== src/Jpeg/Plain.antt =====
-- `CompressJPEG` and `DeompressJPEG`, which fix what the other functions take as parameters.
use c_practice.Base.{
  ℕ, ◌*◌, ◌≤◌, ◌<◌, ◌≡◌, refl, sym, ap, ◌∙◌, true, some, arith, Option-cases, inl, inr, length,
}
use c_practice.Base.Text.{Text}
use c_practice.Jpeg.{
  Settings, Libjpeg, done, unsigned, jcs_rgb, compress_rgb, decompress_rows,
  decompress_jpeg_from_mem, decompress_plain, ◌>>=◌,
}
use c_practice.Jpeg.Laws.{LibjpegLaws, rows_of}
use c_practice.Jpeg.Recompress.{compress_rows_lem}
use c_practice.Jpeg.Rows.{write_all}

abbrev pub rgb_settings : (width height depth : ℕ) → Settings
rgb_settings width height depth = record {
  image_width = width;
  image_height = height;
  input_components = depth;
  in_color_space = jcs_rgb;
  quality = 80;
  sampled_2x2 = true;
}

module _ {C D : Type 0} (lib : Libjpeg C D) (laws : LibjpegLaws lib) where
  -- For a job that libjpeg accepts, a buffer that holds the image and sizes of 32 bits,
  -- CompressJPEG ends and hands over the rows of the buffer in order: the stride that it takes
  -- from the JPEG image is that of the buffer.
  pub compress_rgb-rows :
      (src : Text) (width height depth : ℕ) (c : C)
      → lib.start_compress (rgb_settings width height depth) ≡ some c
      → height * (width * depth) ≤ length src
      → width * depth < 4294967296
      → height * (width * depth) < 4294967296
      → compress_rgb lib src width height depth
        ≡ done (lib.finish_compress (write_all lib laws (rows_of height (width * depth) src) c))
  unfolding compress_rgb
  compress_rgb-rows src width height depth c start le row short =
      let (three, three') = laws.rgb (rgb_settings width height depth) c start refl in
      let depth_same : lib.num_components_of c ≡ depth = three' ∙ sym three in
      let stride : unsigned (width * lib.num_components_of c) ≡ width * depth =
        ap (λ k. unsigned (width * k)) depth_same
        ∙ (let x : unsigned (width * depth) ≡ width * depth = omega arith in x) in
      rw start (
        compress_rows_lem lib laws (rgb_settings width height depth)
          (unsigned (width * lib.num_components_of c)) src c start stride le short)

  decompress_plain-decompress_jpeg_from_mem :
      (src : Text)
      → decompress_plain lib src
        ≡ (decompress_jpeg_from_mem lib src >>= λ image. done (record image { color_space = 0 }))
  unfolding decompress_plain decompress_jpeg_from_mem
  decompress_plain-decompress_jpeg_from_mem src = elim (Option-cases (lib.start_decompress src)) [
    | inl fails ↦ rw fails refl
    | inr (d, opens) ↦ rw opens (
        ap
          (λ w. decompress_rows lib (unsigned (w * lib.num_components d)) d >>= λ image.
            done (record image { color_space = 0 }))
          (laws.opened src d opens).1)
  ]
