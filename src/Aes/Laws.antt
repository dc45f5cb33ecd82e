-- ===== src/Aes/Laws.antt =====
-- What `Encryptor` relies on of mbedTLS.
use c_practice.Base.{◌%◌, ◌≡◌, true, false, length}
use c_practice.Base.Int.{pos}
use c_practice.Base.Text.{Text}
use c_practice.Aes.{Mbedtls, CbcResult}

module _ {Context : Type 0} (lib : Mbedtls Context) where
  -- The call that encrypts `input` under a key.
  abbrev pub encrypted : (key iv input : Text) → CbcResult
  encrypted key iv input = lib.crypt_cbc (lib.setkey true key 128).1 true (length input) iv input

  -- The call that decrypts it.
  abbrev pub decrypted : (key iv input : Text) → CbcResult
  decrypted key iv input = lib.crypt_cbc (lib.setkey false key 128).1 false (length input) iv input

  -- A key of 128 bits is accepted; a text of whole blocks is encrypted to one of the same length,
  -- and decrypting that with the same key and initialization vector gives the text back.
  pub record MbedtlsLaws : Type 0 where
    pub setkey_ok :
        (encrypt : _) (key : Text) → length key ≡ 16 → (lib.setkey encrypt key 128).0 ≡ pos 0
    pub encrypts :
        (key iv input : Text) → length input % 16 ≡ 0 → (encrypted key iv input).ret ≡ pos 0
    pub same_length :
        (key iv input : Text)
        → length input % 16 ≡ 0
        → length (encrypted key iv input).output ≡ length input
    pub decrypts :
        (key iv input : Text)
        → length input % 16 ≡ 0
        → (decrypted key iv (encrypted key iv input).output).ret ≡ pos 0
    pub inverse :
        (key iv input : Text)
        → length input % 16 ≡ 0
        → (decrypted key iv (encrypted key iv input).output).output ≡ input
