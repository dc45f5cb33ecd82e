-- ===== src/CipherPadding/Tests.antt =====
-- A cipher that leaves the text as it is, with a block of padding behind it.
use c_practice.Base.{
  ◌-◌, ◌≡◌, refl, ap, ◌∙◌, Bool, true, false, some, none, [], ◌∷◌, ◌++◌, arith, length, take,
  replicate, length-append, append_nil,
}
use c_practice.Base.Buffer.{take-append, slice}
use c_practice.Base.Text.{Text, bytes}
use c_practice.CipherPadding.{Cipher, test}
use c_practice.CipherPadding.Twice.{CipherLaws, test-twice}

abbrev plain_update : Text → Bool → Text × Bool
plain_update t true = (t, true)
plain_update t false = (take (length t - 16) t, false)

abbrev plain_finish : Bool → Text
plain_finish true = replicate 16 16
plain_finish false = []

abbrev plain_cipher : Cipher Bool
plain_cipher = record {
  start = λ encrypt key iv. encrypt;
  update = plain_update;
  finish = plain_finish;
}

plain_cipher-CipherLaws : CipherLaws plain_cipher
plain_cipher-CipherLaws = record {
  encrypted_length = λ key iv t. let l = length-append t (replicate 16 16) in omega arith;
  inverse = λ key iv t.
      append_nil (take (length (t ++ replicate 16 16) - 16) (t ++ replicate 16 16))
      ∙ ap (λ n. take n (t ++ replicate 16 16))
          (let l = length-append t (replicate 16 16) in
            let e : length (t ++ replicate 16 16) - 16 ≡ length t = omega arith in e)
      ∙ take-append t (replicate 16 16);
}

-- The text of the program, with a key that is long enough; with its own key, `test` is undefined.
abbrev letters : Text
letters = bytes "abcdefgh"

abbrev long_key : Text
long_key = bytes "1234567890123456"

own_key : test plain_cipher letters (bytes "12345678" ++ (0 ∷ [])) long_key ≡ none
unfolding test slice
own_key = refl

test-twice_example :
    test plain_cipher letters long_key long_key ≡ some (letters ++ replicate 8 8, 16)
test-twice_example =
    test-twice plain_cipher plain_cipher-CipherLaws letters long_key long_key (omega arith)
      (omega arith) refl (omega arith)
