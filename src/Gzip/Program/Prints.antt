-- ===== src/Gzip/Program/Prints.antt =====
-- What `main` prints of a file that can be read.
use c_practice.Base.{
  ℕ, zero, suc, ◌≤◌, ◌<◌, ◌≡◌, refl, sym, ap, ◌∙◌, true, false, ◌||◌, some, [], ◌∷◌, ◌++◌, arith,
  ltb, Bool-cases, inl, inr, length, take, drop, take-append-drop, length-drop, length-take,
  append_nil,
}
use c_practice.Base.Buffer.{take-append, append_assoc}
use c_practice.Base.Text.{Text, bytes, has_byte, has_byte-append}
use c_practice.Base.Zero.{find_zero-first}
use c_practice.Gzip.{Zlib}
use c_practice.Gzip.Laws.{ZlibLaws}
use c_practice.Gzip.Codec.{ZlibCodec}
use c_practice.Gzip.RoundTrip.{gzdecompress-gzcompress}
use c_practice.Gzip.Program.{
  GzFile, Ending, returned, print_string, printed_of, src, compress_and_back, read_loop, main,
}

-- No read fails: it gives the next bytes of the contents, and the end of the file is known once a
-- read was short.
pub record GzLaws {K : Type 0} (gz : GzFile K) : Type 0 where
  pub contents : K → Text
  pub reads : (n : ℕ) (k : K) → (gz.gzread n k).0 ≡ some (take n (contents k))
  pub moves : (n : ℕ) (k : K) → contents (gz.gzread n k).1 ≡ drop n (contents k)
  pub ends : (n : ℕ) (k : K) → length (contents k) < n → gz.gzeof (gz.gzread n k).1 ≡ true

print_string-first : (t r : Text) → has_byte 0 t ≡ false → print_string (t ++ (0 ∷ r)) ≡ some t
print_string-first t r clear =
    ap (printed_of (t ++ (0 ∷ r))) (find_zero-first t r clear) ∙ ap some (take-append t (0 ∷ r))

empty : (t : Text) → length t ≡ 0 → t ≡ []
empty [] e = refl
empty (x ∷ t) e = absurd (omega arith)

take_short : (n : ℕ) (t : Text) → ltb (length (take n t)) n ≡ true → length t < n
take_short n t short = let here = length-take n t in ground arith

take_full : (n : ℕ) (t : Text) → ltb (length (take n t)) n ≡ false → n ≤ length t
take_full n t full = let here = length-take n t in ground arith

halves_clear :
    (n : ℕ) (t : Text)
    → has_byte 0 t ≡ false
    → (has_byte 0 (take n t) ≡ false) × (has_byte 0 (drop n t) ≡ false)
halves_clear n t clear =
    let whole = take-append-drop n t in
    let both : (has_byte 0 (take n t) || has_byte 0 (drop n t)) ≡ false =
      sym (has_byte-append 0 (take n t) (drop n t)) ∙ ap (has_byte 0) whole ∙ clear in
    (ground arith, ground arith)

module _ {K : Type 0} (gz : GzFile K) (laws : GzLaws gz) where
  -- With more fuel than there are bytes, the loop prints all of the file.
  read_loop-contents :
      (fuel : ℕ) (file : K) (printed : Text) (next : Text → Ending)
      → has_byte 0 (laws.contents file) ≡ false
      → length (laws.contents file) < fuel
      → read_loop gz fuel file printed next ≡ next (printed ++ laws.contents file)
  unfolding read_loop
  read_loop-contents zero file printed next clear enough = absurd (omega arith)
  read_loop-contents (suc fuel) file printed next clear enough =
      let t = laws.contents file in
      let file' = (gz.gzread 4095 file).1 in
      let buffer = take 4095 t in
      let (clear_here, clear_later) = halves_clear 4095 t clear in
      let shows = print_string-first buffer [] clear_here in
      let here = length-take 4095 t in
      let later = length-drop 4095 t in
      let whole = take-append-drop 4095 t in
      elim (Bool-cases (ltb (length buffer) 4095)) [
        | inl short ↦
            let few = take_short 4095 t short in
            let over = laws.ends 4095 file few in
            let none_left : drop 4095 t ≡ [] = empty (drop 4095 t) (omega arith) in
            let all : buffer ≡ t =
              sym (append_nil buffer) ∙ ap (λ r. buffer ++ r) (sym none_left) ∙ whole in
            rw (laws.reads 4095 file, read_loop)
              (rw shows (rw short (rw over (ap (λ r. next (printed ++ r)) all))))
        | inr full ↦
            let many = take_full 4095 t full in
            let moved = laws.moves 4095 file in
            rw (laws.reads 4095 file, read_loop)
              (rw shows (
                rw full (
                  read_loop-contents fuel file' (printed ++ buffer) next
                    (ap (has_byte 0) moved ∙ clear_later) (let l = ap length moved in omega arith)
                  ∙ ap next (
                      append_assoc printed buffer (laws.contents file')
                      ∙ ap (λ r. printed ++ r) (ap (λ r. buffer ++ r) moved ∙ whole)))))
      ]

  -- If the file opens and can be read, and has no byte 0, and zlib is a codec that respects its rooms
  -- and needs 1024 bytes or fewer for 20, then main prints the file, and behind it the text that it
  -- compressed and decompressed, and returns 0.
  pub main-Prints :
      {Z : Type 0} (lib : Zlib Z)
      → ZlibLaws lib
      → (codec : ZlibCodec lib) → codec.bound (length src) ≤ 1024
      → (file : K) (fuel : ℕ) → gz.gzopen ≡ some file
      → has_byte 0 (laws.contents file) ≡ false
      → length (laws.contents file) < fuel
      → main gz lib fuel
        ≡ returned true (((laws.contents file ++ bytes "dec : ") ++ src) ++ bytes "\n")
  unfolding main compress_and_back
  main-Prints lib zlib_laws codec room file fuel opens clear enough =
      let (zdata, packs, unpacks) =
        gzdecompress-gzcompress lib zlib_laws codec src 1024 1024 (omega arith) room (omega arith)
          (omega arith) (omega arith) in
      rw (opens, main)
        (read_loop-contents fuel file [] (compress_and_back lib) clear enough
          ∙ rw (packs, unpacks) refl)
