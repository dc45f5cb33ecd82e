-- ===== src/CipherPadding.antt =====
-- mbedtls/padding/main.cpp, `test`: a text is padded to whole blocks, encrypted by mbedTLS, which pads
-- it itself, and decrypted.
--
-- mbedTLS is the record `Cipher`, and CipherPadding.Twice states what is relied on. The text, the key and
-- the initialization vector, constants of the source, are arguments. `none` is an access outside of a
-- buffer.
pub mod Twice
mod Tests
use c_practice.Base.{
  ℕ, ◌+◌, ◌-◌, ◌%◌, Bool, true, false, Option, none, some, [], ◌∷◌, length, replicate,
}
use c_practice.Base.Buffer.{slice, overwrite}
use c_practice.Base.Text.{Text, c_string}

-- `start` is the context after `mbedtls_cipher_setkey` and `mbedtls_cipher_set_iv`, with AES in CBC mode
-- and PKCS7 padding. The other two give what they put out.
pub record Cipher (C : Type 0) : Type 0 where
  pub start : (encrypt : Bool) → (key iv : Text) → C
  pub update : Text → C → Text × C
  pub finish : C → Text

infixl 5 ◌>>=◌
abbrev ◌>>=◌ : {A B : Type 0} → Option A → (A → Option B) → Option B
none >>= k = none
some a >>= k = k a

abbrev pub buffer_size : ℕ
buffer_size = 1024

-- `memset`
unfoldable pub filled : ℕ → Text
filled b = replicate buffer_size b

-- `16 - (x % 16)`
abbrev pub data1 : Text → ℕ
data1 text = 16 - length text % 16

abbrev pub len : Text → ℕ
len text = length text + data1 text

module _ {C : Type 0} (lib : Cipher C) where
  -- A run of `update` and `finish` on the first `inlen` bytes of `input_buf`: the new contents of
  -- `output_buf` and how many bytes were put there.
  unfoldable pub cipher :
      C → (input_buf : Text) → (inlen : ℕ) → (output_buf : Text) → Option (Text × ℕ)
  cipher c input_buf inlen output_buf = do
    input ← slice input_buf 0 inlen
    let updated = lib.update input c
    first ← overwrite output_buf 0 updated.0
    whole ← overwrite first (length updated.0) (lib.finish updated.1)
    some (whole, length updated.0 + length (lib.finish updated.1))

  -- What is printed of `dec_buf`, and `total_len`.
  unfoldable pub test : (text key iv : Text) → Option (Text × ℕ)
  test text key iv = do
    key128 ← slice key 0 16
    iv16 ← slice iv 0 16
    input_buf ← overwrite (filled (data1 text)) 0 text
    (output_buf, inlen) ← cipher (lib.start true key128 iv16) input_buf (len text) (filled 0)
    (dec_buf, total_len) ← cipher (lib.start false key128 iv16) output_buf inlen (filled 0)
    ended ← overwrite dec_buf total_len (0 ∷ [])
    some (c_string ended, total_len)
