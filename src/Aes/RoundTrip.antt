-- ===== src/Aes/RoundTrip.antt =====
-- `main` of aes/main.cpp for any key and text: what is decrypted of what was encrypted.
use c_practice.Base.{
  ℕ, suc, ◌+◌, ◌-◌, ◌%◌, ◌≤◌, ◌<◌, ◌≡◌, refl, sym, ap, ◌∙◌, Bool, true, false, Option, some, [],
  ◌∷◌, ◌++◌, arith, length, replicate, length-replicate, length-append,
}
use c_practice.Base.Buffer.{append_assoc, replicate-add}
use c_practice.Base.Text.{Text, has_byte}
use c_practice.Aes.{
  Mbedtls, Encryptor, Outcome, done, undefined, ◌>>=◌, blank, write, remove_padding, decrypt_data,
  encrypt_block, main_decrypts, main,
}
use c_practice.Aes.Memory.{read-front, write-blank}
use c_practice.Aes.Laws.{MbedtlsLaws, encrypted, decrypted}
use c_practice.Aes.Padding.{
  pad_of, padded, zeros, length-padded, padded-blocks, encrypt_data-padded, initialize-keyed,
  remove_padding-padded,
}

-- The decrypted text in its buffer, without the padding.
abbrev pub unpad : Text → Outcome (Text × ℕ)
unpad text = write blank 0 text >>= remove_padding

abbrev pub result_of : Outcome (Text × ℕ) → Outcome (Option (Text × ℕ))
result_of r = r >>= λ b. done (some b)

unpad-filled :
    (d : Text) (q k : ℕ)
    → has_byte 0 d ≡ false
    → length d + suc q + suc k ≡ 1024
    → unpad (d ++ replicate (suc q) (suc q)) ≡ done (d ++ zeros (1024 - length d), length d)
unpad-filled d q k free full =
    let text = d ++ replicate (suc q) (suc q) in
    let size : length text ≡ length d + suc q =
      length-append d (replicate (suc q) (suc q))
      ∙ ap (λ n. length d + n) (length-replicate {A = ℕ} (suc q) (suc q)) in
    let rest : 1024 - length text ≡ suc k = omega (arith, size) in
    let whole : 1024 - length d ≡ suc q + suc k = omega arith in
    let buffer : text ++ zeros (1024 - length text)
        ≡ d ++ (replicate (suc q) (suc q) ++ zeros (suc k)) =
      ap (λ n. text ++ zeros n) rest ∙ append_assoc d (replicate (suc q) (suc q)) (zeros (suc k)) in
    let tail : zeros (suc q) ++ zeros (suc k) ≡ zeros (1024 - length d) =
      sym (ap zeros whole ∙ replicate-add {A = ℕ} (suc q) (suc k) 0) in
    ap (λ w. w >>= remove_padding) (write-blank text (omega (arith, size)) ∙ ap done buffer)
    ∙ remove_padding-padded d q k free
    ∙ ap (λ z. done (d ++ z, length d)) tail

unpad-padded :
    (d : Text)
    → has_byte 0 d ≡ false
    → length d + pad_of (length d) < 1024
    → unpad (padded d) ≡ done (d ++ zeros (1024 - length d), length d)
unpad-padded d free lt =
    let pad : pad_of (length d) ≡ suc (15 - length d % 16) = omega arith in
    ap (λ p. unpad (d ++ replicate p p)) pad
    ∙ unpad-filled d (15 - length d % 16) (1023 - (length d + pad_of (length d))) free (omega arith)

forget_pair :
    {E : Type 0} (e : E) (r : Outcome (Text × ℕ))
    → ◌>>=◌ {A = Option (Text × ℕ) × E} (r >>= λ b. done (some b, e)) (λ x. done x.0) ≡ result_of r
forget_pair e undefined = refl
forget_pair e (done b) = refl

forget_state :
    {E : Type 0} (e : E) (w : Outcome Text)
    → ◌>>=◌ {A = Option (Text × ℕ) × E}
        (w >>= λ o. remove_padding o >>= λ b. done (some b, e))
        (λ x. done x.0)
      ≡ result_of (w >>= remove_padding)
forget_state e undefined = refl
forget_state e (done o) = forget_pair e (remove_padding o)

module _ {Context : Type 0} (lib : Mbedtls Context) (laws : MbedtlsLaws lib) where
  abbrev pub keyed : Bool → Text → Encryptor Context → Encryptor Context
  keyed encrypt key e = record {
    context = (lib.setkey encrypt key 128).1;
    encrypts = encrypt;
    original_iv = e.original_iv;
    operating_iv = e.original_iv;
    encryption_key = key;
  }

  main_decrypts-unpad :
      (key more d : Text) (e : Encryptor Context)
      → length key ≡ 16
      → main_decrypts lib key
          (
            (encrypted lib key e.original_iv (padded d)).output ++ more,
            length d + pad_of (length d),
          )
          e
        ≡ result_of (unpad (padded d))
  unfolding main_decrypts encrypt_block decrypt_data
  main_decrypts-unpad key more d e size =
      let out = (encrypted lib key e.original_iv (padded d)).output in
      let r = decrypted lib key e.original_iv out in
      let same : length d + pad_of (length d) ≡ length out =
        sym (length-padded d)
        ∙ sym (laws.same_length key e.original_iv (padded d) (padded-blocks d)) in
      rw (initialize-keyed lib laws false key (0 ∷ []) e size) (
        rw same (
          rw (read-front out more (length out) refl) (
            rw (laws.decrypts key e.original_iv (padded d) (padded-blocks d)) (
              rw (laws.inverse key e.original_iv (padded d) (padded-blocks d)) (
                forget_state (record (keyed false key e) { operating_iv = r.iv })
                  (write blank 0 (padded d)))))))

  -- Up to 1024 bytes with the padding, `main` yields what the padded text yields.
  pub main-unpad :
      (key text : Text) (e1 e2 : Encryptor Context)
      → length key ≡ 16
      → e1.original_iv ≡ e2.original_iv
      → length text + pad_of (length text) ≤ 1024
      → main lib key text e1 e2 ≡ result_of (unpad (padded text))
  unfolding main encrypt_block
  main-unpad key text e1 e2 size same le =
      rw (initialize-keyed lib laws true key (0 ∷ []) e1 size) (
        rw (encrypt_data-padded lib laws key (0 ∷ []) text (keyed true key e1) refl le) (
          rw same (
            main_decrypts-unpad key (zeros (1024 - (length text + pad_of (length text)))) text e2
              size)))

  -- With a key of 16 bytes and the same initialization vector on both sides, a text that has no
  -- zero byte and is shorter than 1024 bytes once padded comes back, with its length.
  pub main-roundtrip :
      (key text : Text) (e1 e2 : Encryptor Context)
      → length key ≡ 16
      → e1.original_iv ≡ e2.original_iv
      → has_byte 0 text ≡ false
      → length text + pad_of (length text) < 1024
      → main lib key text e1 e2 ≡ done (some (text ++ zeros (1024 - length text), length text))
  main-roundtrip key text e1 e2 size same free lt =
      main-unpad key text e1 e2 size same (omega arith) ∙ ap result_of (unpad-padded text free lt)
