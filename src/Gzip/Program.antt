-- ===== src/Gzip/Program.antt =====
-- zlib/gzip/main.cpp, `main`: a file is printed, and a text is compressed and decompressed.
--
-- The calls on the file are the record `GzFile`. The loop over the file runs on fuel. What is printed
-- of an error is left out.
pub mod Prints
use c_practice.Base.{
  ℕ, zero, suc, ◌+◌, ◌-◌, Bool, true, false, Option, none, some, List, [], ◌∷◌, ◌++◌, ltb,
  if◌then◌else◌, length, take, replicate,
}
use c_practice.Base.Text.{Text, bytes}
use c_practice.Base.Zero.{find_zero}
use c_practice.Gzip.{
  Zlib, Outcome, failed, left, done, undefined, out_of_fuel, gzcompress, gzdecompress,
}

-- `none` in `gzread` is its return value -1; `gzerror` says whether it stores an error.
pub record GzFile (K : Type 0) : Type 0 where
  pub gzopen : Option K
  pub gzread : (len : ℕ) → K → Option Text × K
  pub gzeof : K → Bool
  pub gzerror : K → Bool

-- What was printed, with the return value 0 or -1 of `main`, or `exit (EXIT_FAILURE)`.
pub data Ending : Type 0 where
  returned : (ok : Bool) → Text → Ending
  exit_failure : Text → Ending
  undefined_behaviour : Ending
  endless : Ending

-- `printf ("%s")` of a buffer.
abbrev pub printed_of : Text → Option ℕ → Option Text
printed_of buffer none = none
printed_of buffer (some n) = some (take n buffer)

abbrev pub print_string : Text → Option Text
print_string buffer = printed_of buffer (find_zero buffer)

-- "12345678900987654321"
abbrev pub src : Text
src = bytes "12345678900987654321"

abbrev pub then_print : Text → (Text → Ending) → Option Text → Ending
then_print printed next none = undefined_behaviour
then_print printed next (some text) = next (printed ++ text)

-- `newBuf` has 1024 bytes, which were 0.
abbrev pub after_decompress : Text → Outcome → Ending
after_decompress printed (done text) =
    then_print (printed ++ bytes "dec : ") (λ shown. returned true (shown ++ bytes "\n"))
      (print_string (text ++ replicate (1024 - length text) 0))
after_decompress printed failed = returned false printed
after_decompress printed (left n) = returned false printed
after_decompress printed undefined = undefined_behaviour
after_decompress printed out_of_fuel = endless

module _ {Z : Type 0} (lib : Zlib Z) where
  abbrev pub after_compress : Text → Outcome → Ending
  after_compress printed (done buf) =
      after_decompress printed (gzdecompress lib (1024 + length buf + 1) buf 1024)
  after_compress printed failed = returned false printed
  after_compress printed (left n) = returned false printed
  after_compress printed undefined = undefined_behaviour
  after_compress printed out_of_fuel = endless

  -- From the compression on.
  unfoldable pub compress_and_back : Text → Ending
  compress_and_back printed =
      after_compress printed (gzcompress lib (length src + 1024 + 1) src 1024)

module _ {K : Type 0} (gz : GzFile K) where
  -- `while (1)`; with -1 the terminator would be written in front of the buffer. `next` is what
  -- follows the loop.
  unfoldable pub read_loop : ℕ → K → Text → (next : Text → Ending) → Ending
  read_loop zero file printed next = endless
  read_loop (suc fuel) file printed next = elim (gz.gzread 4095 file).0 [
    | none ↦ undefined_behaviour
    | some buffer ↦
        let file' = (gz.gzread 4095 file).1 in
        then_print printed
          (λ shown.
            let rest = read_loop fuel file' shown next in
            if ltb (length buffer) 4095
            then (if gz.gzeof file'
                then next shown
                else if gz.gzerror file'
                then exit_failure shown
                else rest)
            else rest)
          (print_string (buffer ++ (0 ∷ [])))
  ]

  unfoldable pub main : {Z : Type 0} → Zlib Z → (fuel : ℕ) → Ending
  main lib fuel = elim gz.gzopen [
    | none ↦ exit_failure []
    | some file ↦ read_loop fuel file [] (compress_and_back lib)
  ]
