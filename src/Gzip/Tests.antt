-- ===== src/Gzip/Tests.antt =====
-- Three digits, compressed and decompressed.
mod Marked
mod Printed
use c_practice.Base.{ℕ, ◌+◌, ◌≡◌, refl, List, [], ◌∷◌, arith, length}
use c_practice.Base.Text.{Text}
use c_practice.Gzip.{
  done, gzcompress, gzdecompress, finish_loop, after_feed, feed_loop, inflate_loop,
}
use c_practice.Gzip.Compress.{Compressed, gzcompress-Compressed}
use c_practice.Gzip.Decompress.{Decompressed, gzdecompress-Decompressed}
use c_practice.Gzip.RoundTrip.{gzdecompress-gzcompress}
use Marked.{marked, marked-ZlibLaws, marked-ZlibCodec, marked_bound}

abbrev digits : Text
digits = 49 ∷ 50 ∷ 51 ∷ []

compresses : gzcompress marked 20 digits 10 ≡ done (50 ∷ 51 ∷ 52 ∷ 0 ∷ [])
unfolding gzcompress feed_loop after_feed finish_loop
compresses = refl

gzcompress-Compressed_example : Compressed 3 10 (gzcompress marked 20 digits 10)
gzcompress-Compressed_example =
    gzcompress-Compressed marked marked-ZlibLaws 20 digits 10 (omega arith) (omega arith)
      (omega arith)

gzdecompress-Decompressed_example : Decompressed 10 (gzdecompress marked 20 digits 10)
gzdecompress-Decompressed_example =
    gzdecompress-Decompressed marked marked-ZlibLaws 20 digits 10 (omega arith)

gzdecompress-gzcompress_example :
    (zdata : Text) × (gzcompress marked 14 digits 10 ≡ done zdata)
    × (gzdecompress marked (10 + length zdata + 1) zdata 10 ≡ done digits)
gzdecompress-gzcompress_example =
    gzdecompress-gzcompress marked marked-ZlibLaws marked-ZlibCodec digits 10 10 (omega arith)
      marked_bound (omega arith) (omega arith) (omega arith)
