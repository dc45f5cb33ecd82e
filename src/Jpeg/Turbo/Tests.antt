-- ===== src/Jpeg/Turbo/Tests.antt =====
-- A TurboJPEG that stores the pixels as they are.
use c_practice.Base.{
  ℕ, ◌*◌, ◌≡◌, refl, ap, ◌∙◌, true, false, Option, none, some, [], ◌∷◌, length, if◌then◌else◌, ◌==◌,
  Bool-cases, inl, inr, arith, ==_iff,
}
use c_practice.Base.Text.{Text}
use c_practice.Base.Buffer.{slice, overwrite}
use c_practice.Jpeg.{done, undefined, exits}
use c_practice.Jpeg.Turbo.{
  Header, TurboJpeg, Image, tj_compress_jpeg_to_mem, tj_compress_gray_jpeg_to_file,
  save_buffer_to_file, tj_decompress_jpeg_from_mem, tj_decompress_gray_jpeg_from_file,
  test_decompress,
}
use c_practice.Jpeg.Turbo.Laws.{TurboLaws}
use c_practice.Jpeg.Turbo.Again.{test_decompress-Again}

abbrev sized : ℕ → Text → Option Text
sized n pixels = if length pixels == n then some pixels else none

abbrev stored_header : Text → Option Header
stored_header (w ∷ h ∷ pixels) =
    some (record { width = w; height = h; subsamp = 3; colorspace = 2 })
stored_header s = none

abbrev stored_pixels : Text → (n : ℕ) → Option Text
stored_pixels (w ∷ h ∷ pixels) n = sized n pixels
stored_pixels s n = none

-- Every pixel format has a byte for a pixel.
abbrev stored : TurboJpeg
stored = record {
  tjpf_gray = 6;
  tjsamp_gray = 3;
  tjflag_fastdct = 2048;
  tjflag_accuratedct = 4096;
  tj_pixel_size = λ format. 1;
  decompress_header = stored_header;
  decompress = λ src width height format flags. stored_pixels src (height * (width * 1));
  compress = λ src width height format subsamp quality flags. some (width ∷ height ∷ src);
}

sized-length : (n : ℕ) (pixels r : Text) → sized n pixels ≡ some r → length r ≡ n
sized-length n pixels r e = elim (Bool-cases (length pixels == n)) [
  | inl fits ↦
      let p : some pixels ≡ some r = rw fits at e in
      let q : r ≡ pixels = cc in ap length q ∙ (==_iff (length pixels) n).0 fits
  | inr other ↦ let p : none ≡ some r = rw other at e in absurd (cc)
]

stored_pixels-length :
    (src pixels : Text) (n : ℕ) → stored_pixels src n ≡ some pixels → length pixels ≡ n
stored_pixels-length [] pixels n e = absurd (cc)
stored_pixels-length (w ∷ []) pixels n e = absurd (cc)
stored_pixels-length (w ∷ h ∷ rest) pixels n e = sized-length n rest pixels e

sized_whole : (n : ℕ) (pixels : Text) → length pixels ≡ n → sized n pixels ≡ some pixels
sized_whole n pixels e =
    let fits : (length pixels == n) ≡ true = (==_iff (length pixels) n).1 e in rw fits refl

stored_laws : TurboLaws stored
stored_laws = record {
  degrade = λ width height format subsamp quality flags flags' pixels. pixels;
  gray = refl;
  filled = λ src pixels h format flags header e.
      stored_pixels-length src pixels (h.height * (h.width * 1)) e;
  compressed = λ image jpeg width height format subsamp quality flags size e.
      let same : (width ∷ height ∷ image) ≡ jpeg = cc in
      rw (← same) (_, refl, refl, refl, λ flags'. sized_whole (height * (width * 1)) image size);
}

-- Two pixels by two.
abbrev grey_file : Text
grey_file = 2 ∷ 2 ∷ 9 ∷ 8 ∷ 7 ∷ 6 ∷ []

test_decompress-Again_example :
    (test_decompress stored (some grey_file) true ≡ done grey_file)
    × (again : Image) × (tj_decompress_gray_jpeg_from_file stored (some grey_file)
        ≡ done (some again))
    × (again.width ≡ 2)
    × (again.height ≡ 2)
    × (again.components ≡ 1)
    × (length again.dst ≡ again.dst_len)
    × (again.dst ≡ 9 ∷ 8 ∷ 7 ∷ 6 ∷ [])
unfolding stored_laws
test_decompress-Again_example =
    test_decompress-Again stored stored_laws grey_file (9 ∷ 8 ∷ 7 ∷ 6 ∷ []) grey_file
      (record { width = 2; height = 2; subsamp = 3; colorspace = 2 }) (ground arith) refl
      (ground arith) refl refl (ground arith)

-- No such file; data that are refused, for which what was in the memory is compressed; and a target
-- that does not open.
no_file : test_decompress stored none true ≡ undefined
unfolding test_decompress tj_decompress_gray_jpeg_from_file
no_file = refl

refused_data : test_decompress stored (some (1 ∷ 2 ∷ 9 ∷ [])) true ≡ done (1 ∷ 2 ∷ 0 ∷ 0 ∷ [])
unfolding test_decompress tj_decompress_gray_jpeg_from_file tj_decompress_jpeg_from_mem
    tj_compress_gray_jpeg_to_file tj_compress_jpeg_to_mem save_buffer_to_file slice
refused_data = refl

no_target : test_decompress stored (some grey_file) false ≡ exits
unfolding test_decompress tj_decompress_gray_jpeg_from_file tj_decompress_jpeg_from_mem
    tj_compress_gray_jpeg_to_file tj_compress_jpeg_to_mem save_buffer_to_file slice overwrite
no_target = refl
