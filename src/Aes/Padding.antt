-- ===== src/Aes/Padding.antt =====
-- A block padded and encrypted: what is handed to mbedTLS, and what comes out.
use c_practice.Base.{
  ℕ, zero, suc, ◌+◌, ◌-◌, ◌%◌, ◌≤◌, ◌≡◌, refl, sym, ap, ◌∙◌, Bool, true, false, some, [], ◌∷◌, ◌++◌,
  arith, ltb, ◌==◌, length, take, replicate, get_or, length-append, length-replicate,
}
use c_practice.Base.Int.{pos}
use c_practice.Base.Buffer.{take-append, append_assoc, replicate-add}
use c_practice.Base.Text.{Text, has_byte, has_byte-append, has_byte-replicate}
use c_practice.Aes.{
  Mbedtls, Encryptor, done, blank, write, strlen, initialize, encrypt_data, remove_padding,
}
use c_practice.Aes.Memory.{write-middle, read-front, write-blank, strlen-first}
use c_practice.Aes.Laws.{MbedtlsLaws, encrypted}

-- The number of padding bytes, which is also their value.
abbrev pub pad_of : ℕ → ℕ
pad_of size = 16 - size % 16

-- PKCS #7 padding.
abbrev pub padded : Text → Text
padded d = d ++ replicate (pad_of (length d)) (pad_of (length d))

abbrev pub zeros : ℕ → Text
zeros n = replicate n 0

pub length-padded : (d : Text) → length (padded d) ≡ length d + pad_of (length d)
length-padded d =
    length-append d (replicate (pad_of (length d)) (pad_of (length d)))
    ∙ ap (λ k. length d + k) (length-replicate {A = ℕ} (pad_of (length d)) (pad_of (length d)))

pub padded-blocks : (d : Text) → length (padded d) % 16 ≡ 0
padded-blocks d = omega (arith, length-padded d)

write-padding :
    (d : Text) (p b : ℕ)
    → length d + p ≤ 1024
    → write (d ++ zeros (1024 - length d)) (length d) (replicate p b)
      ≡ done (d ++ (replicate p b ++ zeros (1024 - (length d + p))))
write-padding d p b le =
    let e : 1024 - length d ≡ p + (1024 - (length d + p)) = omega arith in
    rw e (
      rw (replicate-add {A = ℕ} p (1024 - (length d + p)) 0) (
        write-middle d (zeros p) (replicate p b) (zeros (1024 - (length d + p))) (length d) refl
          (length-replicate {A = ℕ} p b ∙ sym (length-replicate {A = ℕ} p 0))))

module _ {Context : Type 0} (lib : Mbedtls Context) (laws : MbedtlsLaws lib) where
  pub encrypt_data-padded :
      (key more d : Text) (e : Encryptor Context)
      → e.context ≡ (lib.setkey true key 128).1
      → length d + pad_of (length d) ≤ 1024
      → encrypt_data lib (d ++ more) (length d) e
        ≡ done (
          some (
            (encrypted lib key e.operating_iv (padded d)).output
                ++ zeros (1024 - (length d + pad_of (length d))),
            length d + pad_of (length d),
          ),
          record e { operating_iv = (encrypted lib key e.operating_iv (padded d)).iv },
        )
  unfolding encrypt_data
  encrypt_data-padded key more d e ctx le =
      let p = pad_of (length d) in
      let z = zeros (1024 - (length d + p)) in
      let out = (encrypted lib key e.operating_iv (padded d)).output in
      let same : length out ≡ length (padded d) =
        laws.same_length key e.operating_iv (padded d) (padded-blocks d) in
      let stored : write blank 0 out ≡ done (out ++ zeros (1024 - length (padded d))) =
        write-blank out (omega (arith, same, length-padded d))
        ∙ ap (λ n. done (out ++ zeros (1024 - n))) same in
      let taken : take (length (padded d)) (out ++ zeros (1024 - length (padded d))) ≡ out =
        ap (λ n. take n (out ++ zeros (1024 - length (padded d)))) (sym same)
        ∙ take-append out (zeros (1024 - length (padded d))) in
      rw (read-front d more (length d) refl) (
        rw (write-blank d (omega arith)) (
          rw (write-padding d p p le) (
            rw (sym (append_assoc d (replicate p p) z)) (
              rw (read-front (padded d) z (length d + p) (sym (length-padded d))) (
                rw ctx (
                  rw (sym (length-padded d)) (
                    rw stored (
                      rw taken (
                        rw stored (
                          rw (laws.encrypts key e.operating_iv (padded d) (padded-blocks d))
                            refl))))))))))

  pub initialize-keyed :
      (encrypt : Bool) (key more : Text) (e : Encryptor Context)
      → length key ≡ 16
      → initialize lib encrypt (key ++ more) e
        ≡ done (
          pos 0,
          record e {
            encrypts = encrypt;
            encryption_key = key;
            context = (lib.setkey encrypt key 128).1;
            operating_iv = e.original_iv;
          },
        )
  unfolding initialize
  initialize-keyed encrypt key more e size =
      rw (read-front key more 16 (sym size)) (rw (laws.setkey_ok encrypt key size) refl)

get_or-replicate :
    (d z : Text) (n b : ℕ) → get_or (d ++ (replicate (suc n) b ++ z)) (length d + n) 0 ≡ b
get_or-replicate [] z zero b = refl
get_or-replicate [] z (suc n) b =
    ap (λ k. get_or (b ∷ (replicate (suc n) b ++ z)) k 0)
      (let e : 0 + suc n ≡ suc (0 + n) = omega arith in e)
    ∙ get_or-replicate [] z n b
get_or-replicate (c ∷ d) z n b =
    let e : suc (length d) + n ≡ suc (length d + n) = omega arith in rw e (get_or-replicate d z n b)

-- `remove_padding` on a padded text with zeros behind it.
pub remove_padding-padded :
    (d : Text) (q k : ℕ)
    → has_byte 0 d ≡ false
    → remove_padding (d ++ (replicate (suc q) (suc q) ++ zeros (suc k)))
      ≡ done (d ++ (zeros (suc q) ++ zeros (suc k)), length d)
unfolding remove_padding
remove_padding-padded d q k free =
    let p = suc q in
    let text = d ++ replicate p p in
    let size : length text ≡ length d + p =
      length-append d (replicate p p) ∙ ap (λ n. length d + n) (length-replicate {A = ℕ} p p) in
    let clear : has_byte 0 text ≡ false =
      ground (arith, has_byte-append 0 d (replicate p p), has_byte-replicate p p (omega arith)) in
    let measured : strlen (d ++ (replicate p p ++ zeros (suc k))) ≡ done (length d + p) =
      ap strlen (sym (append_assoc d (replicate p p) (zeros (suc k))))
      ∙ strlen-first text (zeros k) clear
      ∙ ap done size in
    let last : get_or (d ++ (replicate p p ++ zeros (suc k))) (length d + p - 1) 0 ≡ p =
      ap (λ n. get_or (d ++ (replicate p p ++ zeros (suc k))) n 0) (omega arith)
      ∙ get_or-replicate d (zeros (suc k)) q p in
    let some_left : (length d + p == 0) ≡ false = ground arith in
    let inside : ltb (length d + p) p ≡ false = ground arith in
    let start : length d + p - p ≡ length d = omega arith in
    rw measured (
      rw some_left (
        rw last (
          rw inside (
            rw start (
              rw
                (write-middle d (replicate p p) (zeros p) (zeros (suc k)) (length d) refl
                  (length-replicate {A = ℕ} p 0 ∙ sym (length-replicate {A = ℕ} p p)))
                refl)))))
