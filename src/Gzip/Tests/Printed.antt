-- ===== src/Gzip/Tests/Printed.antt =====
-- A file that is read from memory.
use c_practice.Base.{◌≡◌, refl, true, false, Bool, none, some, arith, ltb, length, take, drop}
use c_practice.Base.Text.{Text, bytes}
use c_practice.Gzip.{gzcompress, gzdecompress, finish_loop, after_feed, feed_loop, inflate_loop}
use c_practice.Gzip.Tests.Marked.{marked}
use c_practice.Gzip.Program.{
  GzFile, returned, undefined_behaviour, main, read_loop, compress_and_back,
}
use c_practice.Gzip.Program.Prints.{GzLaws}

-- What is left, and whether a read was short.
abbrev from_memory : Text → GzFile (Text × Bool)
from_memory t = record {
  gzopen = some (t, false);
  gzread = λ n k. (some (take n k.0), (drop n k.0, ltb (length k.0) n));
  gzeof = λ k. k.1;
  gzerror = λ k. false;
}

from_memory-GzLaws : (t : Text) → GzLaws (from_memory t)
from_memory-GzLaws t = record {
  contents = λ k. k.0;
  reads = λ n k. refl;
  moves = λ n k. refl;
  ends = λ n k few. ground arith;
}

prints :
    main (from_memory (bytes "text")) marked 2
    ≡ returned true (bytes "textdec : 12345678900987654321\n")
unfolding main read_loop compress_and_back gzcompress gzdecompress finish_loop after_feed feed_loop
    inflate_loop
prints = refl

-- A read that fails: the terminator would go in front of the buffer.
abbrev unreadable : GzFile Bool
unreadable = record {
  gzopen = some true;
  gzread = λ n k. (none, k);
  gzeof = λ k. false;
  gzerror = λ k. true;
}

unreadable_undefined : main unreadable marked 1 ≡ undefined_behaviour
unfolding main read_loop
unreadable_undefined = refl
