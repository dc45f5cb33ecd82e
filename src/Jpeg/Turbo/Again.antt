-- ===== src/Jpeg/Turbo/Again.antt =====
-- An image read and compressed with TurboJPEG, and what is read of the result.
use c_practice.Base.{
  ℕ, ◌*◌, ◌≤◌, ◌≡◌, refl, sym, ap, ◌∙◌, true, false, some, [], ◌++◌, arith, ltb, length, take, drop,
  replicate, length-replicate, append_nil,
}
use c_practice.Base.Text.{Text}
use c_practice.Base.Buffer.{overwrite, overwrite-append, slice, slice_lem, take_all, drop_all}
use c_practice.Jpeg.{done, int_max}
use c_practice.Jpeg.Turbo.{
  Header, TurboJpeg, Image, tj_compress_jpeg_to_mem, tj_compress_gray_jpeg_to_file,
  save_buffer_to_file, tj_decompress_jpeg_from_mem, tj_decompress_gray_jpeg_from_file,
  test_decompress,
}
use c_practice.Jpeg.Turbo.Laws.{TurboLaws}

overwrite_whole : (buf src : Text) → length src ≡ length buf → overwrite buf 0 src ≡ some src
overwrite_whole buf src same =
    overwrite-append [] buf src 0 refl (omega arith)
    ∙ ap (λ rest. some (src ++ rest)) (ap (λ n. drop n buf) same ∙ drop_all buf)
    ∙ ap some (append_nil src)

slice_whole : (buf : Text) (n : ℕ) → n ≡ length buf → slice buf 0 n ≡ some buf
slice_whole buf n all =
    slice_lem buf 0 n (omega arith) ∙ ap (λ k. some (take k buf)) all ∙ ap some (take_all buf)

module _ (tj : TurboJpeg) (laws : TurboLaws tj) where
  -- The grey image of the size in a header.
  abbrev pub gray_image : Header → Text → Image
  gray_image h pixels = record {
    dst = pixels;
    dst_len = h.width * h.height * tj.tj_pixel_size tj.tjpf_gray;
    width = h.width;
    height = h.height;
    components = tj.tj_pixel_size tj.tjpf_gray;
  }

  reads_gray :
      (src pixels : Text) (h : Header)
      → length src ≤ int_max
      → tj.decompress_header src ≡ some h
      → h.width * h.height ≤ int_max
      → tj.decompress src h.width h.height tj.tjpf_gray tj.tjflag_accuratedct ≡ some pixels
      → tj_decompress_gray_jpeg_from_file tj (some src) ≡ done (some (gray_image h pixels))
  unfolding tj_decompress_gray_jpeg_from_file tj_decompress_jpeg_from_mem
  reads_gray src pixels h short header fits reads =
      let one = laws.gray in
      let len_ok : ltb int_max (length src) ≡ false = ground arith in
      let area_ok : ltb int_max (h.width * h.height) ≡ false = ground arith in
      let len = h.width * h.height * tj.tj_pixel_size tj.tjpf_gray in
      let small : len ≤ int_max =
        (let e : len ≡ h.width * h.height * 1 = ap (λ k. h.width * h.height * k) one in
          omega arith) in
      let all_ok : ltb int_max len ≡ false = ground arith in
      let same : h.width * h.height * tj.tj_pixel_size tj.tjpf_gray
          ≡ h.height * (h.width * tj.tj_pixel_size tj.tjpf_gray) =
        omega arith in
      let whole = overwrite_whole (replicate len 0) pixels (
        laws.filled src pixels h tj.tjpf_gray tj.tjflag_accuratedct header reads
        ∙ sym same
        ∙ sym (length-replicate len 0)) in
      rw (len_ok, header, area_ok, all_ok, reads, whole) refl

  writes_gray :
      (pixels jpeg : Text) (width height quality : ℕ)
      → length pixels ≡ height * (width * tj.tj_pixel_size tj.tjpf_gray)
      → tj.compress pixels width height tj.tjpf_gray tj.tjsamp_gray quality tj.tjflag_fastdct
        ≡ some jpeg
      → tj_compress_gray_jpeg_to_file tj pixels width height quality true ≡ done jpeg
  unfolding tj_compress_gray_jpeg_to_file tj_compress_jpeg_to_mem save_buffer_to_file
  writes_gray pixels jpeg width height quality size makes =
      let whole =
        slice_whole pixels (height * (width * tj.tj_pixel_size tj.tjpf_gray)) (sym size) in
      rw (whole, makes) refl

  -- For a file whose header TurboJPEG reads and whose data it decompresses to grey pixels, sizes
  -- and lengths of files that are an int, and a compression that succeeds: test_decompress ends
  -- with that compression of the pixels in the target file, and the target file is again one that
  -- tj_decompress_gray_jpeg_from_file reads: as a grey image of the same size, with the pixels
  -- that the first one had but for what one compression of quality 100 loses.
  pub test_decompress-Again :
      (src pixels jpeg : Text) (h : Header)
      → length src ≤ int_max
      → tj.decompress_header src ≡ some h
      → h.width * h.height ≤ int_max
      → tj.decompress src h.width h.height tj.tjpf_gray tj.tjflag_accuratedct ≡ some pixels
      → tj.compress pixels h.width h.height tj.tjpf_gray tj.tjsamp_gray 100 tj.tjflag_fastdct
        ≡ some jpeg
      → length jpeg ≤ int_max
      → (test_decompress tj (some src) true ≡ done jpeg)
        × (again : Image) × (tj_decompress_gray_jpeg_from_file tj (some jpeg) ≡ done (some again))
        × (again.width ≡ h.width)
        × (again.height ≡ h.height)
        × (again.components ≡ 1)
        × (length again.dst ≡ again.dst_len)
        × (again.dst
            ≡ laws.degrade h.width h.height tj.tjpf_gray tj.tjsamp_gray 100 tj.tjflag_fastdct
                tj.tjflag_accuratedct pixels)
  unfolding test_decompress
  test_decompress-Again src pixels jpeg h short header fits reads makes short' =
      let size = laws.filled src pixels h tj.tjpf_gray tj.tjflag_accuratedct header reads in
      let (h', header', width', height', reads') =
        laws.compressed pixels jpeg h.width h.height tj.tjpf_gray tj.tjsamp_gray 100
          tj.tjflag_fastdct size makes in
      let lost =
        laws.degrade h.width h.height tj.tjpf_gray tj.tjsamp_gray 100 tj.tjflag_fastdct
          tj.tjflag_accuratedct pixels in
      let fits' : h'.width * h'.height ≤ int_max = rw (width', height') fits in
      let again : tj.decompress jpeg h'.width h'.height tj.tjpf_gray tj.tjflag_accuratedct
          ≡ some lost =
        rw (width', height') (reads' tj.tjflag_accuratedct) in
      let size' = laws.filled jpeg lost h' tj.tjpf_gray tj.tjflag_accuratedct header' again in
      (
        rw (reads_gray src pixels h short header fits reads)
            (writes_gray pixels jpeg h.width h.height 100 size makes),
        gray_image h' lost,
        reads_gray jpeg lost h' short' header' fits' again,
        width',
        height',
        laws.gray,
        omega arith,
        refl,
      )
