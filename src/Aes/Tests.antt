-- ===== src/Aes/Tests.antt =====
-- The encryptor with a cipher that checks the length and leaves the text as it is: it keeps the laws.
use c_practice.Base.{◌%◌, ◌≡◌, refl, true, some, [], ◌++◌, arith, ◌==◌, if◌then◌else◌}
use c_practice.Base.Int.{pos, negsuc}
use c_practice.Base.Text.{Text, bytes}
use c_practice.Aes.{Mbedtls, Encryptor, done, new_encryptor, main}
use c_practice.Aes.Laws.{MbedtlsLaws}
use c_practice.Aes.Padding.{zeros}
use c_practice.Aes.RoundTrip.{main-roundtrip}

abbrev plain : Mbedtls (Unit {0})
plain = record {
  setkey = λ encrypt key bits. (pos 0, tt);
  crypt_cbc = λ c encrypt size iv input. record {
    ret = if size % 16 == 0 then pos 0 else negsuc 37;
    iv = iv;
    output = input;
  };
}

plain-MbedtlsLaws : MbedtlsLaws plain
plain-MbedtlsLaws = record {
  setkey_ok = λ encrypt key size. refl;
  encrypts = λ key iv input blocks. rw blocks refl;
  same_length = λ key iv input blocks. refl;
  decrypts = λ key iv input blocks. rw blocks refl;
  inverse = λ key iv input blocks. refl;
}

abbrev key : Text
key = bytes "0123456789abcdef"

abbrev encryptor : Encryptor (Unit {0})
encryptor = new_encryptor tt true [] []

main-roundtrip_example :
    main plain key (bytes "12345678765432112121") encryptor encryptor
    ≡ done (some (bytes "12345678765432112121" ++ zeros 1004, 20))
main-roundtrip_example =
    main-roundtrip plain plain-MbedtlsLaws key (bytes "12345678765432112121") encryptor encryptor
      refl refl refl (omega arith)
