-- ===== src/Gzip/RoundTrip.antt =====
-- `gzdecompress` gives back what `gzcompress` was given, where there is room for both.
use c_practice.Base.{ℕ, ◌+◌, ◌≤◌, ◌<◌, ◌≡◌, refl, ap, ◌∙◌, take, false, [], arith, ◌==◌, length}
use c_practice.Base.Buffer.{take_all}
use c_practice.Base.Text.{Text}
use c_practice.Gzip.{Zlib, done, gzcompress, gzdecompress, uint}
use c_practice.Gzip.Laws.{ZlibLaws}
use c_practice.Gzip.Codec.{ZlibCodec}
use c_practice.Gzip.Writes.{feed-Holds}
use c_practice.Gzip.Reads.{inflate-text}

module _ {Z : Type 0} (lib : Zlib Z) (laws : ZlibLaws lib) (codec : ZlibCodec lib) where
  -- If zlib is a codec that respects its rooms, then a text that is not empty, of fewer than 2 ^
  -- 32 bytes, compressed by gzcompress into a buffer as large as its bound and smaller than 2 ^
  -- 32, is given back by gzdecompress where there is room for more than the text; both return,
  -- with more fuel than input and room together.
  pub gzdecompress-gzcompress :
      (text : Text) (nzdata ndata : ℕ)
      → 0 < length text
      → codec.bound (length text) ≤ nzdata
      → length text < ndata
      → length text < 4294967296
      → nzdata < 4294967296
      → (zdata : Text) × (gzcompress lib (length text + nzdata + 1) text nzdata ≡ done zdata)
        × (gzdecompress lib (ndata + length zdata + 1) zdata ndata ≡ done text)
  unfolding gzcompress gzdecompress
  gzdecompress-gzcompress text nzdata ndata some_text fits room small small' =
      let (z, starts, w) = codec.deflate_starts in
      let (z', starts', r) = codec.inflate_starts in
      let (zdata, e, packed) =
        feed-Holds lib laws codec nzdata (length text + nzdata + 1) text [] text [] nzdata z w refl
          fits (omega arith) (omega arith) in
      let whole : take (uint (length text)) text ≡ text =
        let same : uint (length text) ≡ length text = omega arith in
        ap (λ n. take n text) same ∙ take_all text in
      let room_whole : uint nzdata ≡ nzdata = omega arith in
      let not_none : (length text == 0) ≡ false = ground arith in
      (
        zdata,
        rw not_none (rw (starts, gzcompress) (rw (whole, room_whole) e)),
        rw (starts', gzdecompress)
            (inflate-text lib laws codec (ndata + length zdata + 1) ndata 0 zdata zdata text [] text
              z' (r text zdata packed) refl refl room (omega arith)),
      )
