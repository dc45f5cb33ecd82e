-- ===== src/CipherPadding/Twice.antt =====
-- The text is padded twice, by `test` and by mbedTLS, and only the padding of mbedTLS is taken off.
use c_practice.Base.{
  ℕ, ◌+◌, ◌-◌, ◌≤◌, ◌<◌, ◌≡◌, refl, sym, ap, ◌∙◌, true, false, some, [], ◌∷◌, ◌++◌, arith, length,
  take, drop, replicate, length-append, length-replicate, length-drop,
}
use c_practice.Base.Buffer.{
  slice, overwrite, take-append, drop-append, replicate-add, slice-append, overwrite-append,
  append_assoc, slice_lem, drop-drop,
}
use c_practice.Base.Text.{
  Text, has_byte, has_byte-append, has_byte-replicate, c_string, c_string-first,
}
use c_practice.CipherPadding.{Cipher, buffer_size, data1, len, filled, cipher, test}

length-filled : (b : ℕ) → length (filled b) ≡ buffer_size
unfolding filled
length-filled b = length-replicate buffer_size b

replicate-split : (n k b : ℕ) → k ≤ n → replicate n b ≡ replicate k b ++ replicate (n - k) b
replicate-split n k b le =
    ap (λ m. replicate m b) (let e : n ≡ k + (n - k) = omega arith in e) ∙ replicate-add k (n - k) b

filled-split :
    (b k : ℕ) → k ≤ buffer_size → filled b ≡ replicate k b ++ replicate (buffer_size - k) b
unfolding filled
filled-split b k le = replicate-split buffer_size k b le

module _ {C : Type 0} (lib : Cipher C) where
  -- What a run of `update` and `finish` puts out.
  abbrev pub put_out : C → Text → Text
  put_out c t = (lib.update t c).0 ++ lib.finish (lib.update t c).1

  -- mbedTLS adds at most a block, and decryption gives back what was encrypted.
  pub record CipherLaws : Type 0 where
    pub encrypted_length :
        (key iv t : Text) → length (put_out (lib.start true key iv) t) ≤ length t + 16
    pub inverse :
        (key iv t : Text) → put_out (lib.start false key iv) (put_out (lib.start true key iv) t) ≡ t

  cipher_lem :
      (c : C) (t more buf : Text)
      → length (put_out c t) ≤ length buf
      → cipher lib c (t ++ more) (length t) buf
        ≡ some (put_out c t ++ drop (length (put_out c t)) buf, length (put_out c t))
  unfolding cipher
  cipher_lem c t more buf fits =
      let a = (lib.update t c).0 in
      let b = lib.finish (lib.update t c).1 in
      let both = length-append a b in
      let rest = length-drop (length a) buf in
      let whole = length-append t more in
      let e1 : slice (t ++ more) 0 (length t) ≡ some t =
        slice-append [] (t ++ more) 0 (length t) refl (omega arith)
        ∙ ap some (take-append t more) in
      let e2 : overwrite buf 0 a ≡ some (a ++ drop (length a) buf) =
        overwrite-append [] buf a 0 refl (omega arith) in
      let e3 = overwrite-append a (drop (length a) buf) b (length a) refl (omega arith) in
      let last = drop (length b) (drop (length a) buf) in
      let behind : last ≡ drop (length (a ++ b)) buf =
        drop-drop buf (length a) (length b) ∙ ap (λ n. drop n buf) (sym both) in
      let buffers : a ++ (b ++ last) ≡ (a ++ b) ++ drop (length (a ++ b)) buf =
        sym (append_assoc a b last) ∙ ap (λ x. (a ++ b) ++ x) behind in
      rw e1 (
        rw e2 (
          rw e3 (
            ap (λ w. some (w, length a + length b)) buffers
            ∙ ap (λ n. some ((a ++ b) ++ drop (length (a ++ b)) buf, n)) (sym both))))

  -- The buffer that is encrypted.
  input_buf_lem :
      (text : Text)
      → length text + 32 ≤ buffer_size
      → overwrite (filled (data1 text)) 0 text
        ≡ some (
            (text ++ replicate (data1 text) (data1 text))
            ++ replicate (buffer_size - len text) (data1 text))
  input_buf_lem text fits =
      let d = data1 text in
      let more = replicate (buffer_size - len text) d in
      let split = filled-split d (len text) (omega arith) in
      let parts = replicate-add (length text) d d in
      let size = length-filled d in
      let rest : drop (length text) (filled d) ≡ replicate d d ++ more =
        ap (drop (length text)) (
          split
          ∙ ap (λ r. r ++ more) parts
          ∙ append_assoc (replicate (length text) d) (replicate d d) more)
        ∙ ap (λ n. drop n (replicate (length text) d ++ (replicate d d ++ more)))
            (sym (length-replicate (length text) d))
        ∙ drop-append (replicate (length text) d) (replicate d d ++ more) in
      overwrite-append [] (filled d) text 0 refl (omega arith)
      ∙ ap (λ r. some (text ++ r)) rest
      ∙ ap some (sym (append_assoc text (replicate d d) more))

  -- What is printed of a buffer with `p` in front.
  printed :
      (p rest : Text)
      → has_byte 0 p ≡ false
      → 0 < length rest
      → (w : Text) × (overwrite (p ++ rest) (length p) (0 ∷ []) ≡ some w) × (c_string w ≡ p)
  printed p rest clear more = (
    p ++ (0 ∷ drop 1 rest),
    overwrite-append p rest (0 ∷ []) (length p) refl (omega arith),
    c_string-first p (drop 1 rest) clear,
  )

  -- With a key and an initialization vector of 16 bytes or more, and a text without zero bytes
  -- that leaves room for two paddings, test stays inside its buffers and prints the text with the
  -- padding that it put behind it itself: only the padding of mbedTLS was taken off.
  pub test-twice :
      (laws : CipherLaws) (text key iv : Text)
      → 16 ≤ length key
      → 16 ≤ length iv
      → has_byte 0 text ≡ false
      → length text + 32 ≤ buffer_size
      → test lib text key iv ≡ some (text ++ replicate (data1 text) (data1 text), len text)
  unfolding test
  test-twice laws text key iv key_fits iv_fits clear fits =
      let d = data1 text in
      let padded = text ++ replicate d d in
      let k = take 16 key in
      let v = take 16 iv in
      let blank = filled 0 in
      let more = replicate (buffer_size - len text) d in
      let z = put_out (lib.start true k v) padded in
      let sizes : length padded ≡ len text =
        length-append text (replicate d d) ∙ ap (λ n. length text + n) (length-replicate d d) in
      let blank_size = length-filled 0 in
      let z_size = laws.encrypted_length k v padded in
      let e1 : slice key 0 16 ≡ some k = slice_lem key 0 16 key_fits in
      let e2 : slice iv 0 16 ≡ some v = slice_lem iv 0 16 iv_fits in
      let e3 = input_buf_lem text fits in
      let e4 : cipher lib (lib.start true k v) (padded ++ more) (len text) blank
          ≡ some (z ++ drop (length z) blank, length z) =
        ap (λ n. cipher lib (lib.start true k v) (padded ++ more) n blank) (sym sizes)
        ∙ cipher_lem (lib.start true k v) padded more blank (omega arith) in
      let back = laws.inverse k v padded in
      let back_size = ap length back in
      let e5 : cipher lib (lib.start false k v) (z ++ drop (length z) blank) (length z) blank
          ≡ some (padded ++ drop (length padded) blank, length padded) =
        cipher_lem (lib.start false k v) z (drop (length z) blank) blank (omega arith)
        ∙ ap (λ t. some (t ++ drop (length t) blank, length t)) back in
      let clear_padded : has_byte 0 padded ≡ false =
        ground
          (arith, has_byte-append 0 text (replicate d d), has_byte-replicate d d (omega arith)) in
      let left = length-drop (length padded) blank in
      let (w, e6, text_back) =
        printed padded (drop (length padded) blank) clear_padded (omega arith) in
      rw e1 (
        rw e2 (
          rw e3 (
            rw e4 (
              rw e5 (
                rw e6 (
                  ap (λ s. some (s, length padded)) text_back
                  ∙ ap (λ n. some (padded, n)) sizes))))))
