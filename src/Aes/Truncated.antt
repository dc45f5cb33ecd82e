-- ===== src/Aes/Truncated.antt =====
-- Texts that `main` of aes/main.cpp does not bring back: with a zero byte in them, or too long.
use c_practice.Base.{
  ℕ, ◌+◌, ◌-◌, ◌≤◌, ◌<◌, ◌≡◌, refl, ap, ◌∙◌, inl, inr, true, false, some, [], ◌∷◌, ◌++◌, arith, ltb,
  ◌==◌, length, replicate, length-replicate, length-append, get_or, Bool-cases, dec_lt, Option,
}
use c_practice.Base.Buffer.{append_assoc}
use c_practice.Base.Text.{Text, has_byte, has_byte-append, has_byte-replicate}
use c_practice.Aes.{
  Mbedtls, Encryptor, Outcome, done, undefined, ◌>>=◌, blank, write, strlen, remove_padding,
  encrypt_data, encrypt_block, main,
}
use c_practice.Aes.Memory.{
  read-front, write-blank, write_undefined, length-blank, strlen-first, strlen_undefined,
}
use c_practice.Aes.Laws.{MbedtlsLaws}
use c_practice.Aes.Padding.{pad_of, padded, zeros, length-padded, initialize-keyed}
use c_practice.Aes.RoundTrip.{keyed, main-unpad, unpad, result_of}

unpad_undefined :
    (d : Text)
    → has_byte 0 d ≡ false
    → length d + pad_of (length d) ≡ 1024
    → unpad (padded d) ≡ undefined
unfolding remove_padding
unpad_undefined d free full =
    let p = pad_of (length d) in
    let none_left : 1024 - length (padded d) ≡ 0 = omega (arith, length-padded d) in
    let clear : has_byte 0 (padded d ++ []) ≡ false = ground (
      arith,
      has_byte-append 0 (padded d) [],
      has_byte-append 0 d (replicate p p),
      has_byte-replicate p p (omega arith),
    ) in
    ap (λ w. w >>= remove_padding)
      (write-blank (padded d) (omega (arith, length-padded d))
        ∙ ap (λ k. done (padded d ++ zeros k)) none_left)
    ∙ rw (strlen_undefined (padded d ++ []) clear) refl

-- The outcome is undefined, or a length that is at most `n`.
pub data AtMost (n : ℕ) : Outcome (Text × ℕ) → Type 0 where
  nothing : AtMost n undefined
  within : (s : Text) (k : ℕ) → k ≤ n → AtMost n (done (s, k))

stored-AtMost : (n k : ℕ) (w : Outcome Text) → k ≤ n → AtMost n (w >>= λ s. done (s, k))
stored-AtMost n k undefined le = nothing
stored-AtMost n k (done s) le = within s k le

remove_padding-AtMost : (s : Text) (n : ℕ) → strlen s ≡ done n → AtMost n (remove_padding s)
unfolding remove_padding
remove_padding-AtMost s n measured = rw measured (elim (Bool-cases (n == 0)) [
  | inl none_left ↦ rw none_left nothing
  | inr more ↦
      let p = get_or s (n - 1) 0 in
      rw more (elim (Bool-cases (ltb n p)) [
        | inl over ↦ rw over nothing
        | inr fits ↦
            rw fits (stored-AtMost n (n - p) (write s (n - p) (replicate p 0)) (omega arith))
      ])
])

unpad-AtMost :
    (a b : Text)
    → has_byte 0 a ≡ false
    → length (a ++ (0 ∷ b)) ≤ 1024
    → AtMost (length a) (unpad (a ++ (0 ∷ b)))
unpad-AtMost a b free le =
    let z = zeros (1024 - length (a ++ (0 ∷ b))) in
    rw (write-blank (a ++ (0 ∷ b)) le) (
      remove_padding-AtMost ((a ++ (0 ∷ b)) ++ z) (length a)
        (ap strlen (append_assoc a (0 ∷ b) z) ∙ strlen-first a (b ++ z) free))

pub data Shorter (n : ℕ) : Outcome (Option (Text × ℕ)) → Type 0 where
  nothing : Shorter n undefined
  within : (s : Text) (k : ℕ) → k ≤ n → Shorter n (done (some (s, k)))

AtMost-Shorter : (n : ℕ) {r : Outcome (Text × ℕ)} → AtMost n r → Shorter n (result_of r)
AtMost-Shorter n nothing = nothing
AtMost-Shorter n (within s k le) = within s k le

module _ {Context : Type 0} (lib : Mbedtls Context) (laws : MbedtlsLaws lib) where
  -- If the text has a zero byte and takes at most 1024 bytes once padded, decryption is undefined
  -- or yields no more than what stands in front of the first one.
  pub main-Shorter :
      (key a b : Text) (e1 e2 : Encryptor Context)
      → length key ≡ 16
      → e1.original_iv ≡ e2.original_iv
      → has_byte 0 a ≡ false
      → length (a ++ (0 ∷ b)) + pad_of (length (a ++ (0 ∷ b))) ≤ 1024
      → Shorter (length a) (main lib key (a ++ (0 ∷ b)) e1 e2)
  main-Shorter key a b e1 e2 size same free le =
      let text = a ++ (0 ∷ b) in
      let p = pad_of (length text) in
      let rest = b ++ replicate p p in
      let split : padded text ≡ a ++ (0 ∷ rest) = append_assoc a (0 ∷ b) (replicate p p) in
      rw (main-unpad lib laws key text e1 e2 size same le) (
        rw split (
          AtMost-Shorter (length a)
            (unpad-AtMost a rest free (omega (arith, length-padded text, ap length split)))))

  encrypt_data_undefined :
      (more d : Text) (e : Encryptor Context)
      → 1024 < length d + pad_of (length d)
      → encrypt_data lib (d ++ more) (length d) e ≡ undefined
  unfolding encrypt_data
  encrypt_data_undefined more d e lt =
      let p = pad_of (length d) in
      let z = zeros (1024 - length d) in
      rw (read-front d more (length d) refl) (elim (dec_lt 1024 (length d)) [
        | yes over ↦ rw (write_undefined blank d 0 (omega (arith, length-blank))) refl
        | no fits ↦ rw (write-blank d (omega arith)) (
            rw
              (write_undefined (d ++ z) (replicate p p) (length d) (
                omega (
                  arith,
                  length-append d z,
                  length-replicate {A = ℕ} (1024 - length d) 0,
                  length-replicate {A = ℕ} p p,
                )))
              refl)
      ])

  -- A text without zero bytes of 1008 bytes or more runs past a buffer, in encryption or when the
  -- decrypted text is measured.
  pub main_overflows :
      (key text : Text) (e1 e2 : Encryptor Context)
      → length key ≡ 16
      → e1.original_iv ≡ e2.original_iv
      → has_byte 0 text ≡ false
      → 1008 ≤ length text
      → main lib key text e1 e2 ≡ undefined
  unfolding main encrypt_block
  main_overflows key text e1 e2 size same free long =
      elim (dec_lt 1024 (length text + pad_of (length text))) [
        | yes over ↦
            rw (initialize-keyed lib laws true key (0 ∷ []) e1 size)
              (rw (encrypt_data_undefined (0 ∷ []) text (keyed lib laws true key e1) over) refl)
        | no fits ↦
            main-unpad lib laws key text e1 e2 size same (omega arith)
            ∙ ap result_of (unpad_undefined text free (omega arith))
      ]
