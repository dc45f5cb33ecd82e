-- ===== src/Jpeg/Drawing/Files.antt =====
-- What the test programs leave in their files.
use c_practice.Base.{◌≡◌, refl, true, some, arith}
use c_practice.Base.Text.{Text}
use c_practice.Jpeg.{
  Libjpeg, Image, done, compress_jpeg_to_mem, compress_jpeg_to_file, decompress_jpeg_from_mem,
}
use c_practice.Jpeg.Laws.{LibjpegLaws, rows_of, join}
use c_practice.Jpeg.Recompress.{settings_for, decompress_jpeg_from_mem-compress_jpeg_to_mem}
use c_practice.Jpeg.Drawing.{
  jcs_grayscale, raw_image, test_compress_to_file, test_compress_to_mem, test_decompress_from_mem,
}
use c_practice.Jpeg.Drawing.Bars.{bars, raw_image-bars, length-bars}

module _ {C D : Type 0} (lib : Libjpeg C D) (laws : LibjpegLaws lib) where
  -- If libjpeg accepts a grey image of 2000 by 1000, with one component, the two tests that draw one leave the same file,
  -- from which decompress_jpeg_from_mem reads the bar in that size, but for what the compression
  -- loses; and test_decompress_from_mem goes on with that.
  test_compress_to_mem-test_compress_to_file :
      (c : C)
      → lib.start_compress (settings_for 2000 1000 1 jcs_grayscale 90) ≡ some c
      → lib.num_components_of c ≡ 1
      → (jpeg : Text) × (image : Image) × (test_compress_to_mem lib true ≡ done jpeg)
        × (test_compress_to_file lib true ≡ done jpeg)
        × (decompress_jpeg_from_mem lib jpeg ≡ done image)
        × (image.width ≡ 2000)
        × (image.height ≡ 1000)
        × (image.dst
            ≡ join (
                laws.degrade
                  (settings_for 2000 1000 1 jcs_grayscale 90)
                  (rows_of 1000 2000 (bars 2000 700))))
        × (test_decompress_from_mem lib (some jpeg) true
            ≡ compress_jpeg_to_mem lib image.dst 2000 1000 1 jcs_grayscale 90)
  unfolding test_compress_to_mem test_compress_to_file test_decompress_from_mem
      compress_jpeg_to_file
  test_compress_to_mem-test_compress_to_file c start one =
      let long = length-bars 2000 700 in
      let (jpeg, image, makes, reads, width, height, components, dst) =
        decompress_jpeg_from_mem-compress_jpeg_to_mem lib laws (bars 2000 700) 2000 1000 1
          jcs_grayscale 90 c start one (ground arith, ground arith, ground arith) (omega arith) in
      let drawn : raw_image 2000 1000 1 ≡ done (bars 2000 700) = raw_image-bars 2000 700 in
      (
        jpeg,
        image,
        rw (drawn, makes) refl,
        rw (drawn, makes) refl,
        reads,
        width,
        height,
        dst,
        rw (reads, width, height, components) refl,
      )
