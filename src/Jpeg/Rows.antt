-- ===== src/Jpeg/Rows.antt =====
-- The two loops over the scan lines, for a job that libjpeg has started.
use c_practice.Base.{
  ℕ, zero, suc, ◌+◌, ◌*◌, ◌≤◌, ◌<◌, ◌≡◌, refl, sym, ap, ◌∙◌, true, false, some, List, [], ◌∷◌, ◌++◌,
  arith, ltb, length, take, drop, length-append, length-take, length-drop, append_nil,
  take-append-drop, replicate, length-replicate,
}
use c_practice.Base.Buffer.{slice, overwrite, slice-append, overwrite-append, append_assoc}
use c_practice.Base.Text.{Text}
use c_practice.Jpeg.{Libjpeg, done, unsigned, write_rows, read_rows}
use c_practice.Jpeg.Laws.{LibjpegLaws, AllLength, rows_of, join}

pub length-rows_of : (k n : ℕ) (src : Text) → length (rows_of k n src) ≡ k
length-rows_of zero n src = refl
length-rows_of (suc k) n src = ap suc (length-rows_of k n (drop n src))

pub length-join :
    (n : ℕ) (rows : List Text) → AllLength n rows → length (join rows) ≡ length rows * n
length-join n [] all = omega arith
length-join n (row ∷ rows) all =
    length-append row (join rows)
    ∙ (let rest = length-join n rows all.1 in let first = all.0 in omega arith)

empty : (xs : Text) → length xs ≡ 0 → xs ≡ []
empty [] e = refl
empty (x ∷ xs) e = absurd (omega arith)

module _ {C D : Type 0} (lib : Libjpeg C D) (laws : LibjpegLaws lib) where
  abbrev pub write_all : List Text → C → C
  write_all [] c = c
  write_all (row ∷ rows) c = write_all rows (lib.write_scanlines row c)

  one_less :
      (row : Text) (rows : List Text) (c : C)
      → length (laws.written c) + length (row ∷ rows) ≤ (laws.settings c).image_height
      → length (laws.written (lib.write_scanlines row c)) + length rows
        ≤ (laws.settings (lib.write_scanlines row c)).image_height
  one_less row rows c fits =
      let (told, given, same) = laws.wrote row c (omega arith) in
      let tall = ap (λ s. s.image_height) told in
      let more = ap length given ∙ length-append (laws.written c) (row ∷ []) in omega arith

  pub written-write_all :
      (rows : List Text) (c : C)
      → length (laws.written c) + length rows ≤ (laws.settings c).image_height
      → laws.written (write_all rows c) ≡ laws.written c ++ rows
  written-write_all [] c fits = sym (append_nil (laws.written c))
  written-write_all (row ∷ rows) c fits =
      written-write_all rows (lib.write_scanlines row c) (one_less row rows c fits)
      ∙ ap (λ t. t ++ rows) (laws.wrote row c (omega arith)).1
      ∙ append_assoc (laws.written c) (row ∷ []) rows

  pub settings-write_all :
      (rows : List Text) (c : C)
      → length (laws.written c) + length rows ≤ (laws.settings c).image_height
      → (laws.settings (write_all rows c) ≡ laws.settings c)
        × (lib.num_components_of (write_all rows c) ≡ lib.num_components_of c)
  settings-write_all [] c fits = (refl, refl)
  settings-write_all (row ∷ rows) c fits =
      let (told, given, same) = laws.wrote row c (omega arith) in
      let (told', same') =
        settings-write_all rows (lib.write_scanlines row c) (one_less row rows c fits) in
      (told' ∙ told, same' ∙ same)

  -- One round of either loop, and its end.
  write_step :
      (fuel height n stride : ℕ) (src row : Text) (c : C)
      → lib.next_scanline c < height
      → slice src (unsigned (lib.next_scanline c * stride)) n ≡ some row
      → write_rows lib (suc fuel) height n stride src c
        ≡ write_rows lib fuel height n stride src (lib.write_scanlines row c)
  unfolding write_rows
  write_step fuel height n stride src row c lt got =
      let more : ltb (lib.next_scanline c) height ≡ true = ground arith in
      rw (more, write_rows) (rw got refl)

  write_end :
      (fuel height n stride : ℕ) (src : Text) (c : C)
      → lib.next_scanline c ≡ height
      → write_rows lib (suc fuel) height n stride src c ≡ done c
  unfolding write_rows
  write_end fuel height n stride src c at =
      let ended : ltb (lib.next_scanline c) height ≡ false = ground arith in
      rw (ended, write_rows) refl

  read_step :
      (fuel stride : ℕ) (dst dst' : Text) (d : D)
      → lib.output_scanline d < lib.output_height d
      → overwrite dst (unsigned (lib.output_scanline d * stride)) (lib.read_scanlines d).0
        ≡ some dst'
      → read_rows lib (suc fuel) stride dst d
        ≡ read_rows lib fuel stride dst' (lib.read_scanlines d).1
  unfolding read_rows
  read_step fuel stride dst dst' d lt put =
      let more : ltb (lib.output_scanline d) (lib.output_height d) ≡ true = ground arith in
      rw (more, read_rows) (rw put refl)

  read_end :
      (fuel stride : ℕ) (dst : Text) (d : D)
      → lib.output_scanline d ≡ lib.output_height d
      → read_rows lib (suc fuel) stride dst d ≡ done dst
  unfolding read_rows
  read_end fuel stride dst d at =
      let ended : ltb (lib.output_scanline d) (lib.output_height d) ≡ false = ground arith in
      rw (ended, read_rows) refl

  place : (j i n : ℕ) → j ≡ i → i * n < 4294967296 → unsigned (j * n) ≡ i * n
  place j i n at short =
      ap (λ x. unsigned (x * n)) at ∙ (let x : unsigned (i * n) ≡ i * n = omega arith in x)

  next_line :
      (row : Text) (c : C)
      → lib.next_scanline c < (laws.settings c).image_height
      → lib.next_scanline (lib.write_scanlines row c) ≡ suc (lib.next_scanline c)
  next_line row c lt =
      let line = laws.compress_line c in
      laws.compress_line (lib.write_scanlines row c)
      ∙ ap length (laws.wrote row c (omega arith)).1
      ∙ length-append (laws.written c) (row ∷ [])
      ∙ omega arith

  -- Behind the rows `before`, the loop hands over those that are left, each from its own place.
  pub write_rows_lem :
      (k i n height : ℕ) (before rest : Text) (c : C)
      → lib.next_scanline c ≡ i
      → height ≡ i + k
      → (laws.settings c).image_height ≡ height
      → length before ≡ i * n
      → k * n ≤ length rest
      → height * n < 4294967296
      → write_rows lib (suc k) height n n (before ++ rest) c ≡ done (write_all (rows_of k n rest) c)
  write_rows_lem zero i n height before rest c at total tall len le short =
      write_end 0 height n n (before ++ rest) c (omega arith)
  write_rows_lem (suc k) i n height before rest c at total tall len le short =
      let row = take n rest in
      let small : i * n < 4294967296 =
        (let s : (i + suc k) * n < 4294967296 = rw total at short in omega arith) in
      let fits : n ≤ length rest = omega arith in
      let off : unsigned (lib.next_scanline c * n) ≡ length before =
        place (lib.next_scanline c) i n at small ∙ sym len in
      write_step (suc k) height n n (before ++ rest) row c (omega arith)
        (slice-append before rest (unsigned (lib.next_scanline c * n)) n off fits)
      ∙ ap (λ t. write_rows lib (suc k) height n n t (lib.write_scanlines row c))
          (ap (◌++◌ before) (sym (take-append-drop n rest))
            ∙ sym (append_assoc before row (drop n rest)))
      ∙ write_rows_lem k (suc i) n height (before ++ row) (drop n rest) (lib.write_scanlines row c)
          (next_line row c (omega arith) ∙ ap suc at) (omega arith)
          (ap (λ s. s.image_height)
              (laws.wrote row c (let line = laws.compress_line c in omega arith)).0
            ∙ tall)
          (length-append before row ∙ (let l = length-take n rest in omega arith))
          (let l = length-drop n rest in omega arith) short

  -- Likewise for a decompression: behind what was read, the rows that remain.
  pub read_rows_lem :
      (n i height : ℕ) (rows : List Text) (before rest : Text) (d : D)
      → laws.remaining d ≡ rows
      → AllLength n rows
      → lib.output_scanline d ≡ i
      → lib.output_height d ≡ height
      → height ≡ i + length rows
      → length before ≡ i * n
      → length rest ≡ length rows * n
      → height * n < 4294967296
      → read_rows lib (suc (length rows)) n (before ++ rest) d ≡ done (before ++ join rows)
  read_rows_lem n i height [] before rest d left all at h total len rest_len short =
      read_end 0 n (before ++ rest) d (omega arith)
      ∙ ap (λ t. done (before ++ t)) (empty rest (omega arith))
  read_rows_lem n i height (row ∷ rows) before rest d left all at h total len rest_len short =
      let step = laws.read d row rows left in
      let row' = (lib.read_scanlines d).0 in
      let d' = (lib.read_scanlines d).1 in
      let small : i * n < 4294967296 =
        (let s : (i + suc (length rows)) * n < 4294967296 = rw total at short in omega arith) in
      let off : unsigned (lib.output_scanline d * n) ≡ length before =
        place (lib.output_scanline d) i n at small ∙ sym len in
      let row_len : length row' ≡ n = ap length step.0 ∙ all.0 in
      read_step (suc (length rows)) n (before ++ rest) (before ++ (row' ++ drop (length row') rest))
        d (omega arith)
        (overwrite-append before rest row' (unsigned (lib.output_scanline d * n)) off (omega arith))
      ∙ ap (λ t. read_rows lib (suc (length rows)) n t d')
          (sym (append_assoc before row' (drop (length row') rest)))
      ∙ read_rows_lem n (suc i) height rows (before ++ row') (drop (length row') rest) d' step.1
          all.1 (step.2 ∙ ap suc at) (step.3 ∙ h) (omega arith)
          (length-append before row' ∙ omega arith) (length-drop (length row') rest ∙ omega arith)
          short
      ∙ ap done (append_assoc before row' (join rows) ∙ ap (λ t. before ++ (t ++ join rows)) step.0)

  -- An image that was just opened, read into a buffer of its size.
  pub read_rows_all :
      (src : Text) (d : D) (len : ℕ)
      → lib.start_decompress src ≡ some d
      → len ≡ lib.output_height d * (lib.output_width d * lib.num_components d)
      → len < 4294967296
      → read_rows lib
          (lib.output_height d + 1)
          (lib.output_width d * lib.num_components d)
          (replicate len 0)
          d
        ≡ done (join (laws.remaining d))
  read_rows_all src d len start size short =
      let n = lib.output_width d * lib.num_components d in
      let h = lib.output_height d in
      let start_d = laws.opened src d start in
      let tall = start_d.2 in
      let enough : h + 1 ≡ suc (length (laws.remaining d)) = omega arith in
      ap (λ f. read_rows lib f n (replicate len 0) d) enough
      ∙ read_rows_lem n 0 h (laws.remaining d) [] (replicate len 0) d refl start_d.3 start_d.0 refl
          (omega arith) (omega arith) (length-replicate len 0 ∙ size ∙ ap (λ k. k * n) (sym tall))
          (omega arith)
